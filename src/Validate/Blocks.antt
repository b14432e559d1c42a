-- ===== src/Validate/Blocks.antt =====
-- Which strings `is_valid_ipv4` accepts.
use sftt.Base.{
  ℕ, zero, suc, ◌≤◌, ◌≡◌, ◌⊎◌, All, ◌+◌, ◌*◌, ◌-◌, refl, Bool, true, false, ◌||◌, inl, inr, some,
  List, [], ◌∷◌, ◌++◌, length, ltb, ◌==◌, if◌then◌else◌, arith, ap, ◌∙◌, sym, Bool-cases,
  Option-cases, ==→eq,
}
use sftt.Base.Decimal.{IsDigit, decimal}
use sftt.Validate.{
  copy_block, atoi_from, block_ok, block_at, is_valid_dotted_decimal, all_ip_chars, valid_blocks,
  and_then, is_valid_ipv4,
}

-- One to three chars without a dot that write a number up to 255; a first '0' only for the number 0.
pub record IsBlock (tmp : List ℕ) : Type 0 where
  pub some_char : 1 ≤ length tmp
  pub few_chars : length tmp ≤ 3
  pub small : decimal 0 tmp ≤ 255
  pub no_zero : (s : List ℕ) → tmp ≡ b'0' ∷ s → decimal 0 tmp ≡ 0

-- A digit or a dot.
abbrev pub IsIpChar : ℕ → Type 0
IsIpChar c = IsDigit c ⊎ (c ≡ b'.')

-- `atoi` reads the number that the digits write.
atoi_from-decimal : (v : ℕ) (s : List ℕ) → atoi_from v s ≡ decimal v s
unfolding atoi_from decimal
atoi_from-decimal v [] = refl
atoi_from-decimal v (c ∷ s) = atoi_from-decimal (v * 10 + (c - b'0')) s

-- What `copy_block` makes of a string is a prefix of it, and the rest.
copy_block_splits :
    (room : ℕ) (p : List ℕ)
    → ((copy_block room p).0 ++ (copy_block room p).1 ≡ p) × (length (copy_block room p).0 ≤ room)
unfolding copy_block
copy_block_splits zero p = (refl, omega arith)
copy_block_splits (suc room) [] = (refl, omega arith)
copy_block_splits (suc room) (c ∷ p) = elim (Bool-cases (c == b'.')) [
  | inl dot ↦ rw dot (refl, omega arith)
  | inr other ↦
      let (whole, few) = copy_block_splits room p in
      rw other (ap (λ t. c ∷ t) whole, omega (arith, few))
]

block_ok-IsBlock :
    (tmp q : List ℕ) (is_last : Bool)
    → length tmp ≤ 3
    → block_ok tmp q is_last ≡ true
    → IsBlock tmp × (is_last ≡ true → q ≡ [])
unfolding block_ok
block_ok-IsBlock [] q is_last few h = let bad : ⊥ = cc in absurd bad
block_ok-IsBlock (c ∷ tmp) [] is_last few h = (
  record {
    some_char = omega arith;
    few_chars = few;
    small = rw (sym (atoi_from-decimal 0 (c ∷ tmp))) (ground arith);
    no_zero =
        λ s e. let c0 : c ≡ b'0' = cc in rw (sym (atoi_from-decimal 0 (c ∷ tmp))) (ground arith);
  },
  λ _. refl,
)
block_ok-IsBlock (c ∷ tmp) (d ∷ q) true few h = let bad : ⊥ = cc in absurd bad
block_ok-IsBlock (c ∷ tmp) (d ∷ q) false few h = (
  record {
    some_char = omega arith;
    few_chars = few;
    small = rw (sym (atoi_from-decimal 0 (c ∷ tmp))) (ground arith);
    no_zero =
        λ s e. let c0 : c ≡ b'0' = cc in rw (sym (atoi_from-decimal 0 (c ∷ tmp))) (ground arith);
  },
  λ e. let bad : ⊥ = cc in absurd bad,
)

-- A block that is found, what stands before it, and what is behind it.
record Found (p q before : List ℕ) (is_last : Bool) : Type 0 where
  block : List ℕ
  is_block : IsBlock block
  whole : p ≡ before ++ (block ++ q)
  ends : is_last ≡ true → q ≡ []

block_at-Found :
    (p q : List ℕ) (is_last : Bool) → block_at p is_last ≡ some q → Found p q [] is_last
unfolding block_at
block_at-Found p q is_last h =
    elim (Bool-cases (block_ok (copy_block 3 p).0 (copy_block 3 p).1 is_last)) [
      | inl good ↦
          let (whole, few) = copy_block_splits 3 p in
          let (is_block, ends) = block_ok-IsBlock _ _ is_last few good in
          let same : (copy_block 3 p).1 ≡ q = (let e = rw good at h in cc) in
          record {
            block = (copy_block 3 p).0;
            is_block = is_block;
            whole = sym whole ∙ ap (λ t. (copy_block 3 p).0 ++ t) same;
            ends = λ l. sym same ∙ ends l;
          }
      | inr wrong ↦ let e = rw wrong at h in let bad : ⊥ = cc in absurd bad
    ]

abbrev pub lead : Bool → List ℕ
lead is_first = if is_first then [] else b'.' ∷ []

dotted_decimal-Found :
    (p q : List ℕ) (is_first is_last : Bool)
    → is_valid_dotted_decimal p is_first is_last ≡ some q
    → Found p q (lead is_first) is_last
unfolding is_valid_dotted_decimal
dotted_decimal-Found [] q true is_last h = block_at-Found [] q is_last h
dotted_decimal-Found [] q false is_last h = let bad : ⊥ = cc in absurd bad
dotted_decimal-Found (c ∷ p) q true is_last h = block_at-Found (c ∷ p) q is_last h
dotted_decimal-Found (c ∷ p) q false is_last h = elim (Bool-cases (c == b'.')) [
  | inl dot ↦
      let f = block_at-Found p q is_last (rw dot at h) in
      let c_dot : c ≡ b'.' = ==→eq c b'.' dot in
      record {
        block = f.block;
        is_block = f.is_block;
        ends = f.ends;
        whole = ap (λ t. c ∷ t) f.whole ∙ ap (λ x. x ∷ (f.block ++ q)) c_dot;
      }
  | inr other ↦ let e = rw other at h in let bad : ⊥ = cc in absurd bad
]

-- `n` blocks with dots between them, and nothing behind the last.
abbrev pub IsDotted : ℕ → Bool → List ℕ → Type 0
IsDotted zero is_first p = p ≡ []
IsDotted (suc n) is_first p =
    (block : List ℕ) × (q : List ℕ) × IsBlock block
    × (p ≡ lead is_first ++ (block ++ q))
    × IsDotted n false q

valid_blocks-IsDotted :
    (n : ℕ) (is_first : Bool) (p : List ℕ)
    → valid_blocks (suc n) is_first p ≡ true
    → IsDotted (suc n) is_first p
unfolding valid_blocks and_then
valid_blocks-IsDotted zero is_first p h =
    elim (Option-cases (is_valid_dotted_decimal p is_first true)) [
      | inl invalid ↦ let e = rw (and_then, invalid) at h in let bad : ⊥ = cc in absurd bad
      | inr (q, found) ↦
          let f = dotted_decimal-Found p q is_first true found in
          (f.block, q, f.is_block, f.whole, f.ends refl)
    ]
valid_blocks-IsDotted (suc n) is_first p h =
    elim (Option-cases (is_valid_dotted_decimal p is_first (suc n == 0))) [
      | inl invalid ↦ let e = rw invalid at h in let bad : ⊥ = cc in absurd bad
      | inr (q, found) ↦
          let f = dotted_decimal-Found p q is_first (suc n == 0) found in
          (f.block, q, f.is_block, f.whole, valid_blocks-IsDotted n false q (rw found at h))
    ]

all_ip_chars-All : (ip : List ℕ) → all_ip_chars ip ≡ true → All IsIpChar ip
unfolding all_ip_chars
all_ip_chars-All [] h = tt
all_ip_chars-All (c ∷ ip) h = (ground arith, all_ip_chars-All ip (ground arith))

sized_bounds : (n : ℕ) → (ltb n 7 || ltb 15 n) ≡ false → (7 ≤ n) × (n ≤ 15)
sized_bounds n h = (ground arith, ground arith)

and_split : (a b : Bool) → (if a then b else false) ≡ true → (a ≡ true) × (b ≡ true)
and_split true b h = (refl, h)
and_split false b h = let bad : ⊥ = cc in absurd bad

-- An accepted address has 7 to 15 chars, digits and dots only, and is four blocks with a dot
-- between each and the next: each of one to three chars that write a number up to 255, with a '0' in
-- front only for the number 0.
pub is_valid_ipv4-IsDotted :
    (ip : List ℕ)
    → is_valid_ipv4 ip ≡ true
    → (7 ≤ length ip) × (length ip ≤ 15) × All IsIpChar ip × IsDotted 4 true ip
unfolding is_valid_ipv4
is_valid_ipv4-IsDotted ip h = elim (Bool-cases (ltb (length ip) 7 || ltb 15 (length ip))) [
  | inl wrong ↦ let e = rw wrong at h in let bad : ⊥ = cc in absurd bad
  | inr sized ↦
      let (chars, blocks) = and_split (all_ip_chars ip) (valid_blocks 4 true ip) (rw sized at h) in
      let (least, most) = sized_bounds (length ip) sized in
      (least, most, all_ip_chars-All ip chars, valid_blocks-IsDotted 3 true ip blocks)
]
