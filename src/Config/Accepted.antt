-- ===== src/Config/Accepted.antt =====
-- The lines that are accepted.
use sftt.Base.{
  ℕ, zero, suc, ◌<◌, ◌≡◌, refl, inl, inr, Option, none, some, some_inj, none_not, subst, List, [],
  ◌∷◌, ◌++◌, length, arith, ap, ◌∙◌, leb, ◌==◌, if◌then◌else◌, Bool-cases, ==→eq, All,
}
use sftt.Utils.{skip_spaces, strip}
use sftt.Utils.Trim.{spaces, skip_spaces-splits}
use sftt.Config.{
  name_max, value_max, copy_word, value_at, equals_at, with_name, named, name_and_value,
}
use sftt.Config.Lines.{NonSpace, Stops, setting}

-- What a loop that copies a word has copied, and where it has stopped.
record Copied (room : ℕ) (s w r : List ℕ) : Type 0 where
  pub splits : s ≡ w ++ r
  pub chars : All NonSpace w
  pub stops : length w < room → Stops r

copy_word-Copied : (room : ℕ) (s : List ℕ) → Copied room s (copy_word room s).0 (copy_word room s).1
unfolding copy_word
copy_word-Copied zero s = record {
  splits = refl;
  chars = tt;
  stops = λ lt. absurd (omega (arith, lt));
}
copy_word-Copied (suc room) [] = record { splits = refl; chars = tt; stops = λ lt. tt }
copy_word-Copied (suc room) (c ∷ s) = elim (Bool-cases (c == b' ')) [
  | inl space ↦ rw space (record { splits = refl; chars = tt; stops = λ lt. space })
  | inr other ↦
      let rest = copy_word-Copied room s in
      rw other (record {
        splits = ap (λ t. c ∷ t) rest.splits;
        chars = (other, rest.chars);
        stops = λ lt. rest.stops (omega (arith, lt));
      })
]

-- A value that fits, and what stands behind it.
record HasValue (s value : List ℕ) : Type 0 where
  pub rest : List ℕ
  pub splits : s ≡ value ++ rest
  pub chars : All NonSpace value
  pub short : length value < value_max
  pub stops : Stops rest

-- A word is given on where it is shorter than its array.
shorter :
    {B : Type 0} (room : ℕ) (w : List ℕ) (o : Option B) (b : B)
    → (if leb room (length w) then none else o) ≡ some b
    → (length w < room) × (o ≡ some b)
shorter room w o b h = elim (Bool-cases (leb room (length w))) [
  | inl long ↦ let bad : none ≡ some b = rw long at h in absurd (none_not bad)
  | inr short ↦ (ground arith, rw short at h)
]

value_at-HasValue : (s value : List ℕ) → value_at s ≡ some value → HasValue s value
unfolding value_at
value_at-HasValue [] value h = absurd (none_not h)
value_at-HasValue (c ∷ s) value h =
    let w = (copy_word value_max (c ∷ s)).0 in
    let copied = copy_word-Copied value_max (c ∷ s) in
    let (short, e) = shorter value_max w (some w) value h in
    subst (HasValue (c ∷ s)) (some_inj e) (record {
      rest = (copy_word value_max (c ∷ s)).1;
      splits = copied.splits;
      chars = copied.chars;
      short = short;
      stops = copied.stops short;
    })

-- The sign, spaces, and a value.
equals_at-HasValue :
    (s value : List ℕ)
    → equals_at s ≡ some value
    → (c : ℕ) × (t : List ℕ) × (s ≡ b'=' ∷ (spaces c ++ t)) × HasValue t value
unfolding equals_at
equals_at-HasValue [] value h = absurd (none_not h)
equals_at-HasValue (x ∷ s) value h = elim (Bool-cases (x == b'=')) [
  | inl sign ↦
      let (c, e) = skip_spaces-splits s in
      let is : x ≡ b'=' = ==→eq x b'=' sign in
      let found : value_at (skip_spaces s) ≡ some value = rw sign at h in
      (
        c,
        skip_spaces s,
        ap (λ y. y ∷ s) is ∙ ap (λ t. b'=' ∷ t) e,
        value_at-HasValue (skip_spaces s) value found,
      )
  | inr other ↦ let bad : none ≡ some value = rw other at h in absurd (none_not bad)
]

-- What `strip` leaves of a line: the name, at least one space, the sign, and what is behind it.
pub record Accepted (line name value : List ℕ) : Type 0 where
  pub before : ℕ
  pub after : ℕ
  pub rest : List ℕ
  pub splits : strip line ≡ name ++ setting before after (value ++ rest)
  pub name_chars : All NonSpace name
  pub name_short : length name < name_max
  pub value_chars : All NonSpace value
  pub value_short : length value < value_max
  pub stops : Stops rest

with_name_inv :
    (name n v : List ℕ) (o : Option (List ℕ))
    → with_name name o ≡ some (n, v)
    → (name ≡ n) × (o ≡ some v)
unfolding with_name
with_name_inv name n v none h = absurd (none_not h)
with_name_inv name n v (some value) h =
    let e = some_inj h in (ap (λ p. p.0) e, ap (λ p. some p.1) e)

named_inv :
    (w s name value : List ℕ)
    → named w s ≡ some (name, value)
    → (w ≡ name) × (length w < name_max) × (equals_at (skip_spaces s) ≡ some value)
unfolding named
named_inv w [] name value h = absurd (none_not h)
named_inv w (x ∷ s) name value h =
    let (short, e) =
      shorter name_max w (with_name w (equals_at (skip_spaces (x ∷ s)))) (name, value) h in
    let (same, found) = with_name_inv w name value (equals_at (skip_spaces (x ∷ s))) e in
    (same, short, found)

-- What is behind the name.
behind_name :
    (r value : List ℕ)
    → Stops r
    → equals_at (skip_spaces r) ≡ some value
    → (b : ℕ) × (c : ℕ) × (t : List ℕ) × (r ≡ setting b c t) × HasValue t value
unfolding skip_spaces equals_at
behind_name [] value stops h = absurd (none_not h)
behind_name (x ∷ s) value stops h =
    let (b, e) = skip_spaces-splits s in
    let is : x ≡ b' ' = ==→eq x b' ' stops in
    let found : equals_at (skip_spaces s) ≡ some value = rw stops at h in
    let (c, t, sign, has) = equals_at-HasValue (skip_spaces s) value found in
    (
      b,
      c,
      t,
      ap (λ y. y ∷ s) is ∙ ap (λ u. b' ' ∷ u) e ∙ ap (λ u. b' ' ∷ (spaces b ++ u)) sign,
      has,
    )

-- A line gives a name and a value only if it is a name that fits, at least one space, a sign '=' and
-- a value that fits, with spaces between them, around them, and behind the value anything that
-- begins with a space.
pub name_and_value-Accepted :
    (line name value : List ℕ) → name_and_value line ≡ some (name, value) → Accepted line name value
unfolding name_and_value
name_and_value-Accepted line name value h =
    let w = (copy_word name_max (strip line)).0 in
    let r = (copy_word name_max (strip line)).1 in
    let copied = copy_word-Copied name_max (strip line) in
    let (same, short, found) = named_inv w r name value h in
    let (b, c, t, e, has) = behind_name r value (copied.stops short) found in
    subst (λ n. Accepted line n value) same
      (record {
        before = b;
        after = c;
        rest = has.rest;
        splits = copied.splits ∙ ap (λ u. w ++ u) e ∙ ap (λ u. w ++ setting b c u) has.splits;
        name_chars = copied.chars;
        name_short = short;
        value_chars = has.chars;
        value_short = has.short;
        stops = has.stops;
      })
