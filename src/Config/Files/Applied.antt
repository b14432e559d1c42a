-- ===== src/Config/Files/Applied.antt =====
-- What a configuration file sets: its settings, in their order.
use sftt.Base.{
  ℕ, zero, suc, ◌<◌, ◌≡◌, refl, Bool, true, false, Option, some, List, [], ◌∷◌, ◌++◌, append-nil,
  length, length-append, arith, ap, ◌∙◌, sym, ◌==◌, if◌then◌else◌, All, Result, ok, fault,
  out_of_fuel, ◌>>=◌,
}
use sftt.Base.Int.{ℤ, pos}
use sftt.Config.{
  ServerConfig, ClientConfig, c_string, name_and_value, set_server, set_client, deal_with,
  deal_server_config_line, deal_client_config_line, name_max, value_max,
}
use sftt.Config.Lines.{IsWord, setting, name_and_value-setting}
use sftt.Config.Files.{
  fgets, cut_newline, on_line, config_lines, read_file, read_config, search_config, server_conf,
  client_conf, get_sftt_server_config, get_sftt_client_config,
}

-- A line of a file: a name and a value, or a comment, given without its '#'.
pub data Item : Type 0 where
  assigns : (name value : List ℕ) → Item
  comment : (text : List ℕ) → Item

abbrev pub line_of : Item → List ℕ
line_of (assigns name value) = name ++ setting 0 1 value
line_of (comment text) = b'#' ∷ text

abbrev pub render : List Item → List ℕ
render [] = []
render (item ∷ items) = line_of item ++ b'\n' ∷ render items

-- Neither a newline nor a NUL.
abbrev pub Plain : ℕ → Type 0
Plain c = ((c == b'\n') ≡ false) × ((c == 0) ≡ false)

-- The first char does not make the line a comment.
abbrev pub NoComment : List ℕ → Type 0
NoComment [] = Unit
NoComment (c ∷ s) = (c == b'#') ≡ false

abbrev pub Writable : Item → Type 0
Writable (assigns name value) =
    (IsWord name × IsWord value)
    × (All Plain name × All Plain value)
    × NoComment name
    × (length name < name_max)
    × (length value < value_max)
Writable (comment text) = All Plain text × (length text < 1000)

module _ {C : Type 0} (set_config : C → List ℕ → List ℕ → Result C) where
  abbrev pub apply : List Item → C → Result C
  apply [] config = ok config
  apply (assigns name value ∷ items) config = set_config config name value >>= apply items
  apply (comment text ∷ items) config = apply items config

fgets_line :
    (n : ℕ) (line rest : List ℕ)
    → length line < n
    → All Plain line
    → fgets n (line ++ b'\n' ∷ rest) ≡ (line ++ b'\n' ∷ [], rest)
unfolding fgets
fgets_line zero line rest lt h = absurd (omega arith)
fgets_line (suc n) [] rest lt h = refl
fgets_line (suc n) (c ∷ line) rest lt ((h, _), hs) =
    rw (h, fgets_line n line rest (omega arith) hs) refl

c_string-Plain :
    (line : List ℕ) → All Plain line → c_string (line ++ b'\n' ∷ []) ≡ line ++ b'\n' ∷ []
c_string-Plain [] h = refl
c_string-Plain (c ∷ line) ((_, h), hs) = rw (h, c_string-Plain line hs) refl

cut_newline_line : (line : List ℕ) → cut_newline (line ++ b'\n' ∷ []) ≡ line
unfolding cut_newline
cut_newline_line [] = refl
cut_newline_line (c ∷ []) = refl
cut_newline_line (c ∷ d ∷ line) = ap (λ t. c ∷ t) (cut_newline_line (d ∷ line))

Plain-append : (s t : List ℕ) → All Plain s → All Plain t → All Plain (s ++ t)
Plain-append [] t hs ht = ht
Plain-append (c ∷ s) t (h, hs) ht = (h, Plain-append s t hs ht)

Plain-line_of : (item : Item) → Writable item → All Plain (line_of item)
Plain-line_of (assigns name value) (w, (hn, hv), c, ln, lv) =
    Plain-append name (setting 0 1 value) hn ((refl, refl), ((refl, refl), ((refl, refl), hv)))
Plain-line_of (comment text) (h, lt) = ((refl, refl), h)

length-line_of : (item : Item) → Writable item → length (line_of item) < 1023
length-line_of (assigns name value) (w, p, c, ln, lv) =
    let l = length-append name (setting 0 1 value) in omega arith
length-line_of (comment text) (h, lt) = omega arith

name_and_value-line_of :
    (name value : List ℕ)
    → Writable (assigns name value)
    → name_and_value (name ++ setting 0 1 value) ≡ some (name, value)
name_and_value-line_of name value ((wn, wv), p, c, ln, lv) =
    ap name_and_value (sym (append-nil (name ++ setting 0 1 value)))
    ∙ name_and_value-setting 0 0 1 0 name value wn wv ln lv

module _ {C : Type 0} (set_config : C → List ℕ → List ℕ → Result C) where
  deal : List ℕ → C → Result (ℤ × C)
  deal line config = deal_with set_config config (name_and_value line)

  config_lines_step :
      (fuel : ℕ) (line rest : List ℕ) (config : C)
      → length line < 1023
      → All Plain line
      → config_lines deal (suc fuel) (line ++ b'\n' ∷ rest) config ≡ (
          on_line deal (line ++ b'\n' ∷ []) config >>= λ (more, c).
          if more then config_lines deal fuel rest c else ok c)
  unfolding config_lines
  config_lines_step fuel [] rest config lt h = refl
  config_lines_step fuel (c ∷ line) rest config lt h =
      rw (fgets_line 1023 (c ∷ line) rest lt h, c_string-Plain (c ∷ line) h) refl

  continued :
      (m : Result C) (f g : C → Result C)
      → ((c : C) → f c ≡ g c)
      → (((m >>= λ c. ok (pos 0, c)) >>= λ (ret, c). ok (true, c)) >>= λ (more, c).
          if more then f c else ok c)
        ≡ (m >>= g)
  continued (ok c) f g h = h c
  continued fault f g h = refl
  continued out_of_fuel f g h = refl

  on_line-assigns :
      (name value : List ℕ) (config : C)
      → Writable (assigns name value)
      → on_line deal (line_of (assigns name value) ++ b'\n' ∷ []) config
        ≡ ((set_config config name value >>= λ c. ok (pos 0, c)) >>= λ (ret, c). ok (true, c))
  unfolding on_line deal deal_with
  on_line-assigns [] value config ((wn, wv), p, c, ln, lv) = absurd wn
  on_line-assigns (x ∷ name) value config (w, p, c, ln, lv) =
      rw
        (
          c,
          cut_newline_line (x ∷ (name ++ setting 0 1 value)),
          name_and_value-line_of (x ∷ name) value (w, p, c, ln, lv),
        )
        refl

  on_line-comment :
      (text : List ℕ) (config : C)
      → on_line deal (line_of (comment text) ++ b'\n' ∷ []) config ≡ ok (true, config)
  unfolding on_line
  on_line-comment text config = refl

  on_line-apply :
      (item : Item) (items : List Item) (config : C) (f : C → Result C)
      → Writable item
      → ((c : C) → f c ≡ apply set_config items c)
      → (on_line deal (line_of item ++ b'\n' ∷ []) config >>= λ (more, c).
          if more then f c else ok c)
        ≡ apply set_config (item ∷ items) config
  on_line-apply (assigns name value) items config f h later =
      rw (on_line-assigns name value config h)
        (continued (set_config config name value) f (apply set_config items) later)
  on_line-apply (comment text) items config f h later =
      rw (on_line-comment text config) (later config)

  config_lines-apply :
      (items : List Item) (fuel : ℕ) (config : C)
      → All Writable items
      → length (render items) < fuel
      → config_lines deal fuel (render items) config ≡ apply set_config items config
  unfolding config_lines
  config_lines-apply items zero config h lt = absurd (omega arith)
  config_lines-apply [] (suc fuel) config h lt = refl
  config_lines-apply (item ∷ items) (suc fuel) config (h, hs) lt =
      let l = length-append (line_of item) (b'\n' ∷ render items) in
      config_lines_step fuel (line_of item) (render items) config (length-line_of item h)
        (Plain-line_of item h)
      ∙ on_line-apply item items config (config_lines deal fuel (render items)) h
          (λ c. config_lines-apply items fuel c hs (omega arith))

read_config-apply :
    {C : Type 0} (set_config : C → List ℕ → List ℕ → Result C) (opened : List ℕ → Option (List ℕ))
    (path : List ℕ) (items : List Item) (config : C)
    → opened path ≡ some (render items)
    → All Writable items
    → read_config (deal set_config) opened (some path) config
      ≡ (apply set_config items config >>= λ c. ok (pos 0, c))
unfolding read_config read_file
read_config-apply set_config opened path items config e h =
    rw (e, config_lines-apply set_config items (suc (length (render items))) config h (omega arith))
      refl

-- Where the search finds a path, and the file there is made of settings and comments, each with a
-- newline behind it, then `get_sftt_server_config` and `get_sftt_client_config` make the settings,
-- in their order, and return 0. A setting is a name and a value that are words without a newline or
-- a NUL and fit their arrays, with " = " between them, and the name does not begin with '#'; a
-- comment is shorter than 1000 chars.
pub get_sftt_server_config-apply :
    (existed : List ℕ → Bool) (opened : List ℕ → Option (List ℕ)) (server client : List ℕ)
    (server_items client_items : List Item) (ssc : ServerConfig) (scc : ClientConfig)
    → search_config existed server_conf ≡ some server
    → search_config existed client_conf ≡ some client
    → opened server ≡ some (render server_items)
    → opened client ≡ some (render client_items)
    → All Writable server_items
    → All Writable client_items
    → (get_sftt_server_config existed opened ssc
        ≡ (apply set_server server_items ssc >>= λ c. ok (pos 0, c)))
      × (get_sftt_client_config existed opened scc
          ≡ (apply set_client client_items scc >>= λ c. ok (pos 0, c)))
unfolding get_sftt_server_config get_sftt_client_config deal_server_config_line
    deal_client_config_line deal
get_sftt_server_config-apply existed opened server client server_items client_items ssc scc es ec os
      oc hs hc =
    (
      rw es (read_config-apply set_server opened server server_items ssc os hs),
      rw ec (read_config-apply set_client opened client client_items scc oc hc),
    )
