-- ===== src/Md5/Transform.antt =====
-- src/md5.c: `MD5Encode`, `MD5Decode` and the block step `MD5Transform`, with the macros of
-- src/include/md5.h. `|` of bytes that are shifted apart is their sum.
use Prim.Native.Nat.{bit_and, bit_or, bit_xor}
use sftt.Base.{ℕ, ◌+◌, ◌*◌, ◌-◌, ◌/◌, ◌%◌, ◌^◌, List, [], ◌∷◌, ◌++◌, get_or}
use sftt.Bytes.{Buffer, le32}

-- `unsigned int state[4]`, and the four variables of the block step.
pub record State : Type 0 where
  pub a : ℕ
  pub b : ℕ
  pub c : ℕ
  pub d : ℕ

abbrev pub words : State → List ℕ
words s = s.a ∷ s.b ∷ s.c ∷ s.d ∷ []

abbrev pub md5_encode : List ℕ → Buffer
md5_encode [] = []
md5_encode (w ∷ ws) = le32 w ++ md5_encode ws

unfoldable pub md5_decode : Buffer → List ℕ
md5_decode (a ∷ b ∷ c ∷ d ∷ s) = (a + 256 * b + 65536 * c + 16777216 * d) ∷ md5_decode s
md5_decode s = []

-- `~x`
abbrev complement : ℕ → ℕ
complement x = 2 ^ 32 - 1 - x

choose_f : ℕ → ℕ → ℕ → ℕ
choose_f x y z = bit_or (bit_and x y) (bit_and (complement x) z)

choose_g : ℕ → ℕ → ℕ → ℕ
choose_g x y z = bit_or (bit_and x z) (bit_and y (complement z))

parity_h : ℕ → ℕ → ℕ → ℕ
parity_h x y z = bit_xor (bit_xor x y) z

mix_i : ℕ → ℕ → ℕ → ℕ
mix_i x y z = bit_xor y (bit_or x (complement z))

rotate_left : ℕ → ℕ → ℕ
rotate_left x n = bit_or (x * 2 ^ n % 2 ^ 32) (x / 2 ^ (32 - n))

-- The index into `x`, the shift and the constant of one macro call.
abbrev Row : Type 0
Row = ℕ × ℕ × ℕ

-- FF, GG, HH and II by the function they mix with. The first argument of the next call is the last
-- of this one, so the variables change places.
macro_step : (ℕ → ℕ → ℕ → ℕ) → List ℕ → State → Row → State
unfolding rotate_left
macro_step f x s (k, n, ac) =
    let a = (s.a + (f s.b s.c s.d + get_or x k 0 + ac) % 2 ^ 32) % 2 ^ 32 in
    record { a = s.d; b = (rotate_left a n + s.b) % 2 ^ 32; c = s.b; d = s.c }

macro_steps : (ℕ → ℕ → ℕ → ℕ) → List ℕ → State → List Row → State
unfolding macro_step
macro_steps f x s [] = s
macro_steps f x s (row ∷ rows) = macro_steps f x (macro_step f x s row) rows

abbrev rows_f : List Row
rows_f =
    (0, 7, 0xd76aa478)
    ∷ (1, 12, 0xe8c7b756)
    ∷ (2, 17, 0x242070db)
    ∷ (3, 22, 0xc1bdceee)
    ∷ (4, 7, 0xf57c0faf)
    ∷ (5, 12, 0x4787c62a)
    ∷ (6, 17, 0xa8304613)
    ∷ (7, 22, 0xfd469501)
    ∷ (8, 7, 0x698098d8)
    ∷ (9, 12, 0x8b44f7af)
    ∷ (10, 17, 0xffff5bb1)
    ∷ (11, 22, 0x895cd7be)
    ∷ (12, 7, 0x6b901122)
    ∷ (13, 12, 0xfd987193)
    ∷ (14, 17, 0xa679438e)
    ∷ (15, 22, 0x49b40821)
    ∷ []

abbrev rows_g : List Row
rows_g =
    (1, 5, 0xf61e2562)
    ∷ (6, 9, 0xc040b340)
    ∷ (11, 14, 0x265e5a51)
    ∷ (0, 20, 0xe9b6c7aa)
    ∷ (5, 5, 0xd62f105d)
    ∷ (10, 9, 0x2441453)
    ∷ (15, 14, 0xd8a1e681)
    ∷ (4, 20, 0xe7d3fbc8)
    ∷ (9, 5, 0x21e1cde6)
    ∷ (14, 9, 0xc33707d6)
    ∷ (3, 14, 0xf4d50d87)
    ∷ (8, 20, 0x455a14ed)
    ∷ (13, 5, 0xa9e3e905)
    ∷ (2, 9, 0xfcefa3f8)
    ∷ (7, 14, 0x676f02d9)
    ∷ (12, 20, 0x8d2a4c8a)
    ∷ []

abbrev rows_h : List Row
rows_h =
    (5, 4, 0xfffa3942)
    ∷ (8, 11, 0x8771f681)
    ∷ (11, 16, 0x6d9d6122)
    ∷ (14, 23, 0xfde5380c)
    ∷ (1, 4, 0xa4beea44)
    ∷ (4, 11, 0x4bdecfa9)
    ∷ (7, 16, 0xf6bb4b60)
    ∷ (10, 23, 0xbebfbc70)
    ∷ (13, 4, 0x289b7ec6)
    ∷ (0, 11, 0xeaa127fa)
    ∷ (3, 16, 0xd4ef3085)
    ∷ (6, 23, 0x4881d05)
    ∷ (9, 4, 0xd9d4d039)
    ∷ (12, 11, 0xe6db99e5)
    ∷ (15, 16, 0x1fa27cf8)
    ∷ (2, 23, 0xc4ac5665)
    ∷ []

abbrev rows_i : List Row
rows_i =
    (0, 6, 0xf4292244)
    ∷ (7, 10, 0x432aff97)
    ∷ (14, 15, 0xab9423a7)
    ∷ (5, 21, 0xfc93a039)
    ∷ (12, 6, 0x655b59c3)
    ∷ (3, 10, 0x8f0ccc92)
    ∷ (10, 15, 0xffeff47d)
    ∷ (1, 21, 0x85845dd1)
    ∷ (8, 6, 0x6fa87e4f)
    ∷ (15, 10, 0xfe2ce6e0)
    ∷ (6, 15, 0xa3014314)
    ∷ (13, 21, 0x4e0811a1)
    ∷ (4, 6, 0xf7537e82)
    ∷ (11, 10, 0xbd3af235)
    ∷ (2, 15, 0x2ad7d2bb)
    ∷ (9, 21, 0xeb86d391)
    ∷ []

abbrev add_state : State → State → State
add_state s t = record {
  a = (s.a + t.a) % 2 ^ 32;
  b = (s.b + t.b) % 2 ^ 32;
  c = (s.c + t.c) % 2 ^ 32;
  d = (s.d + t.d) % 2 ^ 32;
}

unfoldable pub md5_transform : State → Buffer → State
unfolding macro_steps choose_f choose_g parity_h mix_i md5_decode
md5_transform s block =
    let x = md5_decode block in
    let s1 = macro_steps choose_f x s rows_f in
    let s2 = macro_steps choose_g x s1 rows_g in
    let s3 = macro_steps parity_h x s2 rows_h in add_state s (macro_steps mix_i x s3 rows_i)
