-- ===== src/Config/Lines.antt =====
-- The lines that hold a name and a value, and what is read of them.
use sftt.Base.{
  ℕ, zero, suc, ◌<◌, ◌≡◌, refl, true, false, some, List, [], ◌∷◌, ◌++◌, reverse, append_assoc,
  append-nil, length, arith, ap, ◌∙◌, sym, subst, leb, ◌==◌, All,
}
use mathlib.Core.List.{reverse-cons, reverse-append, reverse-reverse}
use sftt.Utils.{skip_spaces, cut_spaces, strip}
use sftt.Utils.Trim.{spaces, NoSpace, reverse-spaces}
use sftt.Config.{
  name_max, value_max, copy_word, value_at, equals_at, with_name, named, name_and_value,
}

-- At least one char, and no space.
abbrev pub NonSpace : ℕ → Type 0
NonSpace c = (c == b' ') ≡ false

abbrev pub IsWord : List ℕ → Type 0
IsWord [] = ⊥
IsWord (c ∷ s) = NonSpace c × All NonSpace s

skip_spaces_done : (s : List ℕ) → NoSpace s → skip_spaces s ≡ s
unfolding skip_spaces
skip_spaces_done [] h = refl
skip_spaces_done (c ∷ s) h = rw h refl

skip_spaces-spaces : (n : ℕ) (s : List ℕ) → NoSpace s → skip_spaces (spaces n ++ s) ≡ s
unfolding skip_spaces
skip_spaces-spaces zero s h = skip_spaces_done s h
skip_spaces-spaces (suc n) s h = skip_spaces-spaces n s h

All-append : (s t : List ℕ) → All NonSpace s → All NonSpace t → All NonSpace (s ++ t)
All-append [] t hs ht = ht
All-append (c ∷ s) t (h, hs) ht = (h, All-append s t hs ht)

All-reverse : (s : List ℕ) → All NonSpace s → All NonSpace (reverse s)
All-reverse [] h = tt
All-reverse (c ∷ s) (h, hs) =
    subst (All NonSpace) (sym (reverse-cons c s))
      (All-append (reverse s) (c ∷ []) (All-reverse s hs) (h, tt))

NoSpace-snoc :
    (u : List ℕ) (c : ℕ) (t : List ℕ) → All NonSpace u → NonSpace c → NoSpace ((u ++ c ∷ []) ++ t)
NoSpace-snoc [] c t hu hc = hc
NoSpace-snoc (d ∷ u) c t hu hc = hu.0

-- A text that ends in a word, read from its end.
NoSpace-reverse_word : (front w t : List ℕ) → IsWord w → NoSpace (reverse (front ++ w) ++ t)
NoSpace-reverse_word front [] t h = absurd h
NoSpace-reverse_word front (c ∷ w) t (h, hw) =
    let e : reverse (front ++ c ∷ w) ++ t ≡ (reverse w ++ c ∷ []) ++ (reverse front ++ t) =
      ap (λ u. u ++ t) (reverse-append front (c ∷ w))
      ∙ append_assoc (reverse (c ∷ w)) (reverse front) t
      ∙ ap (λ u. u ++ (reverse front ++ t)) (reverse-cons c w) in
    subst NoSpace (sym e) (NoSpace-snoc (reverse w) c (reverse front ++ t) (All-reverse w hw) h)

-- What `strip` leaves of a text between spaces.
strip_between :
    (a b : ℕ) (front last : List ℕ)
    → NoSpace (front ++ last)
    → IsWord last
    → strip (spaces a ++ ((front ++ last) ++ spaces b)) ≡ front ++ last
unfolding strip cut_spaces
strip_between a b front last first h =
    let t = front ++ last in
    let turned : reverse (spaces a ++ (t ++ spaces b)) ≡ spaces b ++ (reverse t ++ spaces a) =
      reverse-append (spaces a) (t ++ spaces b)
      ∙ ap (λ u. u ++ reverse (spaces a)) (reverse-append t (spaces b))
      ∙ ap (λ u. (reverse (spaces b) ++ reverse t) ++ u) (reverse-spaces a)
      ∙ ap (λ u. (u ++ reverse t) ++ spaces a) (reverse-spaces b)
      ∙ append_assoc (spaces b) (reverse t) (spaces a) in
    let back : reverse (reverse t ++ spaces a) ≡ spaces a ++ t =
      reverse-append (reverse t) (spaces a)
      ∙ ap (λ u. u ++ reverse (reverse t)) (reverse-spaces a)
      ∙ ap (λ u. spaces a ++ u) (reverse-reverse t) in
    rw
      (
        turned,
        skip_spaces-spaces b (reverse t ++ spaces a) (NoSpace-reverse_word front last (spaces a) h),
        back,
      )
      (skip_spaces-spaces a t first)

-- Where a word ends: at the end, or at a space.
abbrev pub Stops : List ℕ → Type 0
Stops [] = Unit
Stops (c ∷ s) = (c == b' ') ≡ true

copy_word_lem :
    (room : ℕ) (w s : List ℕ)
    → length w < room
    → All NonSpace w
    → Stops s
    → copy_word room (w ++ s) ≡ (w, s)
unfolding copy_word
copy_word_lem zero w s lt h stops = absurd (omega arith)
copy_word_lem (suc room) [] [] lt h stops = refl
copy_word_lem (suc room) [] (c ∷ s) lt h stops = rw stops refl
copy_word_lem (suc room) (c ∷ w) s lt (h, hs) stops =
    rw (h, copy_word_lem room w s (omega arith) hs stops) refl

IsWord-NoSpace : (w s : List ℕ) → IsWord w → NoSpace (w ++ s)
IsWord-NoSpace [] s h = absurd h
IsWord-NoSpace (c ∷ w) s h = h.0

IsWord-All : (w : List ℕ) → IsWord w → All NonSpace w
IsWord-All [] h = absurd h
IsWord-All (c ∷ w) h = h

value_at_lem :
    (value : List ℕ) → IsWord value → length value < value_max → value_at value ≡ some value
unfolding value_at
value_at_lem [] h lt = absurd h
value_at_lem (c ∷ value) h lt =
    let short : leb value_max (length (c ∷ value)) ≡ false = ground arith in
    let e : copy_word value_max (c ∷ value) ≡ (c ∷ value, []) =
      ap (copy_word value_max) (sym (append-nil (c ∷ value)))
      ∙ copy_word_lem value_max (c ∷ value) [] lt h tt in
    rw (e, short) refl

-- What stands behind the name.
abbrev pub setting : ℕ → ℕ → List ℕ → List ℕ
setting b c value = spaces (suc b) ++ b'=' ∷ (spaces c ++ value)

named_lem :
    (b c : ℕ) (name value : List ℕ)
    → IsWord value
    → length name < name_max
    → length value < value_max
    → named name (setting b c value) ≡ some (name, value)
unfolding named equals_at with_name
named_lem b c name value h ln lv =
    let short : leb name_max (length name) ≡ false = ground arith in
    let eq : skip_spaces (setting b c value) ≡ b'=' ∷ (spaces c ++ value) =
      skip_spaces-spaces (suc b) (b'=' ∷ (spaces c ++ value)) refl in
    let v : skip_spaces (spaces c ++ value) ≡ value =
      subst (λ t. skip_spaces (spaces c ++ t) ≡ t) (append-nil value)
        (skip_spaces-spaces c (value ++ []) (IsWord-NoSpace value [] h)) in
    rw (short, eq, v, value_at_lem value h lv) refl

-- A line with a name, a sign '=' that has a space before it, and a value, with any other spaces
-- around them, gives the name and the value, where they are words that fit their arrays.
pub name_and_value-setting :
    (a b c d : ℕ) (name value : List ℕ)
    → IsWord name
    → IsWord value
    → length name < name_max
    → length value < value_max
    → name_and_value (spaces a ++ ((name ++ setting b c value) ++ spaces d)) ≡ some (name, value)
unfolding name_and_value
name_and_value-setting a b c d name value hn hv ln lv =
    let front = name ++ (spaces (suc b) ++ b'=' ∷ spaces c) in
    let e : front ++ value ≡ name ++ setting b c value =
      append_assoc name (spaces (suc b) ++ b'=' ∷ spaces c) value
      ∙ ap (λ t. name ++ t) (append_assoc (spaces (suc b)) (b'=' ∷ spaces c) value) in
    let stripped : strip (spaces a ++ ((name ++ setting b c value) ++ spaces d))
        ≡ name ++ setting b c value =
      ap (λ t. strip (spaces a ++ (t ++ spaces d))) (sym e)
      ∙ strip_between a d front value
          (subst NoSpace (sym e) (IsWord-NoSpace name (setting b c value) hn)) hv
      ∙ e in
    rw (stripped, copy_word_lem name_max name (setting b c value) ln (IsWord-All name hn) refl)
      (named_lem b c name value hv ln lv)
