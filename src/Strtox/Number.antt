-- ===== src/Strtox/Number.antt =====
-- The conversions of strtox.c give the number that the digits write, and report each overflow.
use sftt.Base.{
  ℕ, ◌+◌, ◌-◌, ◌*◌, ◌/◌, ◌%◌, ◌^◌, ◌≤◌, ◌<◌, ◌≡◌, refl, Bool, true, false, ◌||◌, ◌⊎◌, inl, inr,
  Option, none, some, List, [], ◌∷◌, ◌++◌, length, ltb, leb, ◌==◌, if◌then◌else◌, arith, ap, ◌∙◌,
  sym, All, Bool-cases, ltb→lt, lt→ltb, ne→==, eq→==, le→ltb,
}
use native.Mathlib.Nat.{div-lt_iff_lt-mul, mul-le-mul_left}
use sftt.Base.Decimal.{IsDigit, decimal}
use sftt.Base.Int.{ℤ, pos}
use sftt.Strtox.{
  isdigit, tolower, digit_value, is_digit_of, overflows, parse_from, parse_integer, skip, at_end,
  erange, kstrtoull, kstrtouint, parse_unsigned, finish, narrow, parse_integer_fixup_radix,
  detect_base, skip_prefix,
}

-- The number that the digits of a base write, behind digits that write `v`.
number : ℕ → ℕ → List ℕ → ℕ
number base v [] = v
number base v (c ∷ s) = number base (v * base + digit_value c) s

abbrev Digits : ℕ → List ℕ → Type 0
Digits base = All (λ c. is_digit_of base c ≡ true)

not_lt→le : (a b : ℕ) → ¬ (a < b) → b ≤ a
not_lt→le a b h = grind arith

true_not_false : ¬ (true ≡ false)
true_not_false e = let bad : ⊥ = cc in absurd bad

-- What the loop knows of the number `v` it has read.
abbrev Knows : ℕ → ℕ → Bool → Type 0
Knows v res overflow =
    ((v < 2 ^ 64) × (res ≡ v) × (overflow ≡ false)) ⊎ ((2 ^ 64 ≤ v) × (overflow ≡ true))

-- The division tells whether the next number leaves 64 bits.
overflows-number :
    (v base d : ℕ)
    → 0 < base
    → base ≤ 16
    → d < base
    → v < 2 ^ 64
    → Knows (v * base + d) ((v * base + d) % 2 ^ 64) (false || overflows v base d)
unfolding overflows
overflows-number v base d some_base small lt bound = elim (Bool-cases (leb (2 ^ 60) v)) [
  | inl high ↦ elim (Bool-cases (ltb ((2 ^ 64 - 1 - d) / base) v)) [
    | inl over ↦
        let big : 2 ^ 64 - 1 - d < v * base = (div-lt_iff_lt-mul some_base).0 (ltb→lt _ v over) in
        inr (omega (arith, big, lt), rw (high, over) refl)
    | inr under ↦
        let few : v * base ≤ 2 ^ 64 - 1 - d = not_lt→le _ _ (λ big.
          let less = (div-lt_iff_lt-mul some_base).1 big in
          true_not_false (sym (lt→ltb _ v less) ∙ under)) in
        inl (omega (arith, few, lt), omega (arith, few, lt), rw (high, under) refl)
  ]
  | inr low ↦
      let v60 : v < 2 ^ 60 = ground arith in
      let up : v * base ≤ v * 16 = mul-le-mul_left v small in
      inl (omega (arith, up, v60, lt), omega (arith, up, v60, lt), rw low refl)
]

Knows-step :
    (v res base d : ℕ) (overflow : Bool)
    → 0 < base
    → base ≤ 16
    → d < base
    → Knows v res overflow
    → Knows (v * base + d) ((res * base + d) % 2 ^ 64) (overflow || overflows res base d)
Knows-step v res base d overflow some_base small lt (inl (bound, same, clear)) =
    rw (same, clear) (overflows-number v base d some_base small lt bound)
Knows-step v res base d overflow some_base small lt (inr (big, over)) =
    let up : v * 1 ≤ v * base = mul-le-mul_left v some_base in
    inr (omega (arith, up, big), rw over refl)

-- What follows the digits does not go on with one.
abbrev pub Stops : ℕ → List ℕ → Type 0
Stops base [] = Unit
Stops base (c ∷ s) = is_digit_of base c ≡ false

value_below : (base c : ℕ) → is_digit_of base c ≡ true → digit_value c < base
unfolding is_digit_of
value_below base c h = ground arith

parse_from-Digits :
    (base : ℕ) (s rest : List ℕ) (v res rv : ℕ) (overflow : Bool)
    → 0 < base
    → base ≤ 16
    → Digits base s
    → Stops base rest
    → Knows v res overflow
    → (res' : ℕ) × (overflow' : Bool) × (parse_from (s ++ rest) base res rv overflow
        ≡ (res', rv + length s, overflow'))
      × Knows (number base v s) res' overflow'
unfolding number parse_from
parse_from-Digits base [] [] v res rv overflow some_base small digits stops k =
    (res, overflow, ap (λ n. (res, n, overflow)) (omega arith), k)
parse_from-Digits base [] (c ∷ rest) v res rv overflow some_base small digits stops k =
    (res, overflow, rw stops (ap (λ n. (res, n, overflow)) (omega arith)), k)
parse_from-Digits base (c ∷ s) rest v res rv overflow some_base small digits stops k =
    let d = digit_value c in
    let next = Knows-step v res base d overflow some_base small (value_below base c digits.0) k in
    let (res', overflow', run, k') =
      parse_from-Digits base s rest (v * base + d) _ (rv + 1) _ some_base small digits.1 stops
        next in
    (res', overflow', rw digits.0 (run ∙ ap (λ n. (res', n, overflow')) (omega arith)), k')

skip-append : (s rest : List ℕ) → skip (length s) (s ++ rest) ≡ rest
unfolding skip
skip-append [] rest = refl
skip-append (c ∷ s) rest = skip-append s rest

-- The end of a number: nothing, or one newline.
abbrev pub ending : Bool → List ℕ
ending newline = if newline then 10 ∷ [] else []

-- A number of `bits` bits, or the report that there are more.
abbrev pub converted : ℕ → ℕ → ℤ × Option ℕ
converted limit n = if ltb n limit then (pos 0, some n) else (erange, none)

ending-Stops : (newline : Bool) → Stops 10 (ending newline)
unfolding is_digit_of isdigit digit_value tolower
ending-Stops true = refl
ending-Stops false = tt

ending-at_end : (newline : Bool) → at_end (ending newline) ≡ true
unfolding at_end
ending-at_end true = refl
ending-at_end false = refl

digit_not_plus : (c : ℕ) → is_digit_of 10 c ≡ true → (c == b'+') ≡ false
unfolding is_digit_of isdigit tolower
digit_not_plus c h = ground arith

finish_lem :
    (s rest : List ℕ) (n res : ℕ) (overflow : Bool)
    → 0 < length s
    → at_end rest ≡ true
    → Knows n res overflow
    → finish (s ++ rest) (res, 0 + length s, overflow) ≡ converted (2 ^ 64) n
unfolding finish
finish_lem s rest n res overflow some_digit done (inl (bound, same, clear)) =
    let e : 0 + length s ≡ length s = omega arith in
    rw
      (
        clear,
        e,
        ne→== (length s) 0 (omega (arith, some_digit)),
        skip-append s rest,
        done,
        same,
        lt→ltb n (2 ^ 64) bound,
      )
      refl
finish_lem s rest n res overflow some_digit done (inr (big, over)) =
    rw (over, le→ltb n (2 ^ 64) big) refl

IsDigit-of : (c : ℕ) → IsDigit c → (is_digit_of 10 c ≡ true) × (digit_value c ≡ c - b'0')
unfolding is_digit_of isdigit digit_value tolower
IsDigit-of c (least, most) = (ground arith, ground arith)

-- On decimal digits, the code reads what the numeral writes.
number-decimal : (v : ℕ) (s : List ℕ) → All IsDigit s → Digits 10 s × (number 10 v s ≡ decimal v s)
unfolding number decimal
number-decimal v [] digits = (tt, refl)
number-decimal v (c ∷ s) (digit, digits) =
    let (is, value) = IsDigit-of c digit in
    let (rest, same) = number-decimal (v * 10 + (c - b'0')) s digits in ((is, rest), rw value same)

-- A string of decimal digits, with or without a newline behind it, is converted to the number that
-- it writes, and to -ERANGE where that is not below 2 ^ 64.
pub kstrtoull-number :
    (c : ℕ) (s : List ℕ) (newline : Bool)
    → All IsDigit (c ∷ s)
    → kstrtoull (c ∷ s ++ ending newline) 10 ≡ converted (2 ^ 64) (decimal 0 (c ∷ s))
unfolding kstrtoull parse_unsigned parse_integer_fixup_radix detect_base skip_prefix parse_integer
kstrtoull-number c s newline are_digits =
    let (digits, same) = number-decimal 0 (c ∷ s) are_digits in
    let (res, overflow, run, k) =
      parse_from-Digits 10 (c ∷ s) (ending newline) 0 0 0 false (omega arith) (omega arith) digits
        (ending-Stops newline) (inl (omega arith, refl, refl)) in
    rw (digit_not_plus c digits.0, run)
      (finish_lem (c ∷ s) (ending newline) (number 10 0 (c ∷ s)) res overflow (omega arith)
          (ending-at_end newline) k
        ∙ ap (converted (2 ^ 64)) same)

narrow-converted : (n : ℕ) → narrow (converted (2 ^ 64) n) ≡ converted (2 ^ 32) n
unfolding narrow
narrow-converted n = elim (Bool-cases (ltb n (2 ^ 64))) [
  | inl fits ↦ elim (Bool-cases (ltb n (2 ^ 32))) [
    | inl small ↦
        let lt = ltb→lt n (2 ^ 32) small in
        rw (fits, small, eq→== n (n % 2 ^ 32) (omega (arith, lt))) refl
    | inr large ↦
        let le : 2 ^ 32 ≤ n = ground arith in
        rw (fits, large, ne→== n (n % 2 ^ 32) (λ e. absurd (omega (arith, le, e)))) refl
  ]
  | inr over ↦
      let le : 2 ^ 64 ≤ n = ground arith in rw (over, le→ltb n (2 ^ 32) (omega (arith, le))) refl
]

-- `kstrtouint` does the same with the bound 2 ^ 32: decimal digits, with or without a newline, are
-- converted to the number they write, and to -ERANGE where that is not below 2 ^ 32.
pub kstrtouint-number :
    (c : ℕ) (s : List ℕ) (newline : Bool)
    → All IsDigit (c ∷ s)
    → kstrtouint (c ∷ s ++ ending newline) 10 ≡ converted (2 ^ 32) (decimal 0 (c ∷ s))
unfolding kstrtouint
kstrtouint-number c s newline digits =
    rw (kstrtoull-number c s newline digits) (narrow-converted (decimal 0 (c ∷ s)))
