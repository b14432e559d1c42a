-- ===== src/Md5/Machine.antt =====
-- The digest without a buffer of fixed size: a machine that takes one byte at a time, and a message
-- that is padded and cut into blocks.
use sftt.Base.{
  ℕ, zero, suc, ◌+◌, ◌*◌, ◌-◌, ◌/◌, ◌%◌, ◌^◌, ◌<◌, ◌≡◌, refl, [], ◌∷◌, ◌++◌, append_assoc,
  append-nil, length, length-append, take, drop, replicate, arith, ap, sym, ◌∙◌, ltb, take-drop,
  length-take, length-drop, ◌==◌, eq→==, ne→==, if◌then◌else◌,
}
use sftt.Bytes.{Buffer, le32}
use sftt.Md5.Transform.{State, words, md5_encode, md5_transform}
use sftt.Md5.{start}

-- The state after the whole blocks so far, and the bytes behind them.
pub record Machine : Type 0 where
  pub state : State
  pub pending : Buffer

abbrev pub machine : State → Buffer → Machine
machine s p = record { state = s; pending = p }

pub push : Machine → ℕ → Machine
push m b =
    let block = m.pending ++ b ∷ [] in
    if length m.pending == 63
    then machine (md5_transform m.state block) []
    else machine m.state block

unfoldable pub absorb : Machine → Buffer → Machine
unfolding push
absorb m [] = m
absorb m (b ∷ bs) = absorb (push m b) bs

pub absorb-append : (xs ys : Buffer) (m : Machine) → absorb m (xs ++ ys) ≡ absorb (absorb m xs) ys
unfolding absorb
absorb-append [] ys m = refl
absorb-append (x ∷ xs) ys m = absorb-append xs ys (push m x)

pub absorb_few :
    (xs : Buffer) (s : State) (p : Buffer)
    → length p + length xs < 64
    → absorb (machine s p) xs ≡ machine s (p ++ xs)
unfolding absorb push
absorb_few [] s p h = ap (machine s) (sym (append-nil p))
absorb_few (x ∷ xs) s p h =
    let l : length (p ++ x ∷ []) ≡ length p + 1 = length-append p (x ∷ []) in
    rw (ne→== (length p) 63 (λ e. omega arith))
      (absorb_few xs s (p ++ x ∷ []) (omega arith) ∙ ap (machine s) (append_assoc p (x ∷ []) xs))

pub absorb_block :
    (xs : Buffer) (s : State) (p : Buffer)
    → length p < 64
    → length p + length xs ≡ 64
    → absorb (machine s p) xs ≡ machine (md5_transform s (p ++ xs)) []
unfolding absorb push
absorb_block [] s p lt h = absurd (omega arith)
absorb_block (x ∷ []) s p lt h = rw (eq→== (length p) 63 (omega arith)) refl
absorb_block (x ∷ y ∷ xs) s p lt h =
    let l : length (p ++ x ∷ []) ≡ length p + 1 = length-append p (x ∷ []) in
    rw (ne→== (length p) 63 (λ e. omega arith)) (
      absorb_block (y ∷ xs) s (p ++ x ∷ []) (omega arith) (omega arith)
      ∙ ap (λ t. machine (md5_transform s t) []) (append_assoc p (x ∷ []) (y ∷ xs)))

-- The block step over the first `n` blocks of a message.
unfoldable pub over_blocks : ℕ → State → Buffer → State
over_blocks zero s message = s
over_blocks (suc n) s message = over_blocks n (md5_transform s (take 64 message)) (drop 64 message)

-- A byte 0x80, zeros up to 8 bytes before the end of a block, and the number of bits in 8 bytes.
abbrev pub pad_size : ℕ → ℕ
pad_size n = if ltb (n % 64) 56 then 56 - n % 64 else 120 - n % 64

abbrev pub pad : ℕ → Buffer
pad n = (0x80 ∷ replicate (pad_size n - 1) 0) ++ (le32 (n * 8) ++ le32 (n / 2 ^ 29))

abbrev pub padded : Buffer → Buffer
padded message = message ++ pad (length message)

-- The digest as it is defined.
unfoldable pub digest_of : Buffer → Buffer
unfolding over_blocks
digest_of message =
    md5_encode (words (over_blocks (length (padded message) / 64) start (padded message)))

-- Whole blocks, a byte at a time or block by block.
pub absorb-over_blocks :
    (n : ℕ) (s : State) (message : Buffer)
    → length message ≡ 64 * n
    → absorb (machine s []) message ≡ machine (over_blocks n s message) []
unfolding over_blocks
absorb-over_blocks zero s [] h = absorb_few [] s [] (omega arith)
absorb-over_blocks zero s (x ∷ xs) h = absurd (omega arith)
absorb-over_blocks (suc n) s message h =
    let l = length-take 64 message (omega arith) in
    let r = length-drop 64 message in
    ap (absorb (machine s [])) (sym (take-drop 64 message))
    ∙ absorb-append (take 64 message) (drop 64 message) (machine s [])
    ∙ ap (λ m. absorb m (drop 64 message))
        (absorb_block (take 64 message) s [] (omega arith) (omega arith))
    ∙ absorb-over_blocks n (md5_transform s (take 64 message)) (drop 64 message) (omega arith)
