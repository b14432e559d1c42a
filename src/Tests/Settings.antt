-- ===== src/Tests/Settings.antt =====
-- Configuration files.
use sftt.Base.{
  ℕ, ◌≡◌, refl, Bool, true, Option, some, List, [], ◌∷◌, ◌++◌, replicate, arith, if◌then◌else◌, ok,
  ◌>>=◌, length, All, ◌<◌, ◌&&◌, not, false, ◌==◌, length-replicate,
}
use sftt.Base.Int.{pos, negsuc}
use sftt.Base.Same.{same_bytes}
use sftt.Utils.{skip_spaces, cut_spaces, strip}
use sftt.Utils.Trim.{spaces}
use sftt.Config.{
  ServerConfig, ClientConfig, c_string, atoi, name_and_value, set_server, set_client,
  deal_client_config_line, name_max, value_max, block_size_name, log_dir_name, store_path_name,
  update_threshold_name,
}
use sftt.Config.Lines.{IsWord, NonSpace}
use sftt.Config.Accepted.{Accepted, name_and_value-Accepted}
use sftt.Config.Paths.{parts, Leaves, set_server-Leaves}
use sftt.Config.Files.{
  search_config, server_conf, client_conf, get_sftt_server_config, get_sftt_client_config,
}
use sftt.Config.Files.Applied.{
  NoComment, Plain, Item, assigns, comment, render, Writable, apply, get_sftt_server_config-apply,
}

abbrev every : (ℕ → Bool) → List ℕ → Bool
every f [] = true
every f (c ∷ s) = f c && every f s

both_true : (a b : Bool) → (a && b) ≡ true → (a ≡ true) × (b ≡ true)
both_true a b h = ground arith

false_of : (a : Bool) → not a ≡ true → a ≡ false
false_of a h = ground arith

abbrev non_space : ℕ → Bool
non_space c = not (c == b' ')

abbrev plain : ℕ → Bool
plain c = not (c == b'\n') && not (c == 0)

NonSpace-every : (s : List ℕ) → every non_space s ≡ true → All NonSpace s
NonSpace-every [] h = tt
NonSpace-every (c ∷ s) h =
    let (one, rest) = both_true (non_space c) (every non_space s) h in
    (false_of (c == b' ') one, NonSpace-every s rest)

Plain-every : (s : List ℕ) → every plain s ≡ true → All Plain s
Plain-every [] h = tt
Plain-every (c ∷ s) h =
    let (one, rest) = both_true (plain c) (every plain s) h in
    let (newline, nul) = both_true (not (c == b'\n')) (not (c == 0)) one in
    ((false_of (c == b'\n') newline, false_of (c == 0) nul), Plain-every s rest)

-- "4096", "/v" and "10"
abbrev size : List ℕ
size = b'4' ∷ b'0' ∷ b'9' ∷ b'6' ∷ []

abbrev path : List ℕ
path = b'/' ∷ b'v' ∷ []

abbrev ten : List ℕ
ten = b'1' ∷ b'0' ∷ []

abbrev comment_text : List ℕ
comment_text = b'p' ∷ b'a' ∷ b't' ∷ b'h' ∷ b's' ∷ []

abbrev server_items : List Item
server_items =
    comment comment_text
    ∷ assigns store_path_name path
    ∷ assigns log_dir_name path
    ∷ assigns update_threshold_name ten
    ∷ []

abbrev client_items : List Item
client_items = assigns block_size_name size ∷ []

abbrev no_client : ClientConfig
no_client = record { block_size = pos 0; log_dir = [] }

abbrev no_server : ServerConfig
no_server = parts (replicate 256 0) (replicate 1024 0) (pos 0) (pos 0)

abbrev everywhere : List ℕ → Bool
everywhere _ = true

abbrev server_file : List ℕ
server_file =
    b'/' ∷ b'e' ∷ b't' ∷ b'c' ∷ b'/' ∷ b's' ∷ b'f' ∷ b't' ∷ b't' ∷ b'/' ∷ b's' ∷ b'f' ∷ b't' ∷ b't'
    ∷ b'_' ∷ b's' ∷ b'e' ∷ b'r' ∷ b'v' ∷ b'e' ∷ b'r' ∷ b'.' ∷ b'c' ∷ b'o' ∷ b'n' ∷ b'f' ∷ []

abbrev client_file : List ℕ
client_file =
    b'/' ∷ b'e' ∷ b't' ∷ b'c' ∷ b'/' ∷ b's' ∷ b'f' ∷ b't' ∷ b't' ∷ b'/' ∷ b's' ∷ b'f' ∷ b't' ∷ b't'
    ∷ b'_' ∷ b'c' ∷ b'l' ∷ b'i' ∷ b'e' ∷ b'n' ∷ b't' ∷ b'.' ∷ b'c' ∷ b'o' ∷ b'n' ∷ b'f' ∷ []

abbrev disk : List ℕ → Option (List ℕ)
disk p = some (render (if same_bytes p server_file then server_items else client_items))

assigns-Writable :
    (name value : List ℕ)
    → IsWord name
    → IsWord value
    → every plain name ≡ true
    → every plain value ≡ true
    → NoComment name
    → (length name < name_max) × (length value < value_max)
    → Writable (assigns name value)
assigns-Writable name value n v pn pv c (ln, lv) =
    ((n, v), (Plain-every name pn, Plain-every value pv), c, ln, lv)

IsWord-path : IsWord path
IsWord-path = NonSpace-every path refl

IsWord-size : IsWord size
IsWord-size = NonSpace-every size refl

IsWord-block_size : IsWord block_size_name
IsWord-block_size = NonSpace-every block_size_name refl

server_items-Writable : All Writable server_items
server_items-Writable = (
  (Plain-every comment_text refl, omega arith),
  (
    assigns-Writable store_path_name path (NonSpace-every store_path_name refl) IsWord-path refl
        refl refl (omega arith, omega arith),
    (
      assigns-Writable log_dir_name path (NonSpace-every log_dir_name refl) IsWord-path refl refl
          refl (omega arith, omega arith),
      (
        assigns-Writable update_threshold_name ten (NonSpace-every update_threshold_name refl)
            (NonSpace-every ten refl) refl refl refl (omega arith, omega arith),
        tt,
      ),
    ),
  ),
)

client_items-Writable : All Writable client_items
client_items-Writable = (
  assigns-Writable block_size_name size IsWord-block_size IsWord-size refl refl refl
      (omega arith, omega arith),
  tt,
)

negative_size : atoi (b' ' ∷ b'-' ∷ b'1' ∷ b'2' ∷ b'x' ∷ []) ≡ ok (negsuc 11)
unfolding atoi
negative_size = refl

-- No space stands before the sign.
refused_line :
    deal_client_config_line (block_size_name ++ b'=' ∷ size) no_client ≡ ok (negsuc 0, no_client)
unfolding deal_client_config_line strip cut_spaces skip_spaces
refused_line = refl

client_run :
    get_sftt_client_config everywhere disk no_client
    ≡ ok (pos 0, record { block_size = pos 4096; log_dir = [] })
unfolding get_sftt_client_config deal_client_config_line strip cut_spaces skip_spaces
client_run = refl

found_server : search_config everywhere server_conf ≡ some server_file
unfolding search_config
found_server = refl

found_client : search_config everywhere client_conf ≡ some client_file
unfolding search_config
found_client = refl

get_sftt_server_config-apply_example :
    (get_sftt_server_config everywhere disk no_server
      ≡ (apply set_server server_items no_server >>= λ c. ok (pos 0, c)))
    × (get_sftt_client_config everywhere disk no_client
        ≡ (apply set_client client_items no_client >>= λ c. ok (pos 0, c)))
get_sftt_server_config-apply_example =
    get_sftt_server_config-apply everywhere disk server_file client_file server_items client_items
      no_server no_client found_server found_client refl refl server_items-Writable
      client_items-Writable

accepted_line :
    name_and_value (spaces 2 ++ (b'a' ∷ b' ' ∷ b'=' ∷ b'1' ∷ b' ' ∷ b'#' ∷ []))
    ≡ some (b'a' ∷ [], b'1' ∷ [])
unfolding name_and_value strip cut_spaces skip_spaces
accepted_line = refl

name_and_value-Accepted_example :
    Accepted (spaces 2 ++ (b'a' ∷ b' ' ∷ b'=' ∷ b'1' ∷ b' ' ∷ b'#' ∷ [])) (b'a' ∷ []) (b'1' ∷ [])
name_and_value-Accepted_example =
    name_and_value-Accepted (spaces 2 ++ (b'a' ∷ b' ' ∷ b'=' ∷ b'1' ∷ b' ' ∷ b'#' ∷ [])) (b'a' ∷ [])
      (b'1' ∷ []) accepted_line

set_server-Leaves_example :
    Leaves (set_server no_server log_dir_name path) (c_string (replicate 256 0)) path
    × Leaves (set_server no_server store_path_name path) path []
set_server-Leaves_example =
    set_server-Leaves (replicate 256 0) (replicate 1024 0) (length-replicate {A = ℕ} 256 0)
      (length-replicate {A = ℕ} 1024 0) (pos 0) (pos 0) path (omega arith) (refl, (refl, tt))
