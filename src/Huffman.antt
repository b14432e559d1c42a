-- ===== src/Huffman.antt =====
-- src/compress.c: Huffman compression of a buffer, and its inverse.
pub mod Tree
pub mod Codes
pub mod Stream
pub mod Freq
pub mod Compress
pub mod RoundTrip
use sftt.Base.{
  ℕ, suc, ◌+◌, ◌-◌, ◌*◌, ◌/◌, ◌%◌, ◌^◌, Bool, true, false, Option, none, some, List, [], ◌∷◌,
  length, replicate, ltb, ◌==◌, if◌then◌else◌, Result, ok, fault, ◌>>=◌, ◌>>◌, assert, from_option,
}
use sftt.Base.Int.{ℤ, pos, negsuc, int_of, rounds}
use sftt.Bytes.{Buffer, read_le32}
use sftt.Huffman.Tree.{Tree as BTree, is_null, generate_huffman_tree}
use sftt.Huffman.Codes.{Codes as CodeTable, get_char_codes}
use sftt.Huffman.Stream.{huffman_encode, huffman_decode}
use sftt.Huffman.Freq.{
  FreqTable, no_freq, used_chars, calc_char_freq, copy_char_freq, get_char_freq,
}

-- The value returned and the bytes that `*output` is left with.
pub record Output : Type 0 where
  pub ret : ℤ
  pub bytes : Buffer

abbrev pub failed : Output
failed = record { ret = negsuc 0; bytes = [] }

-- The loop that adds up `strlen(char_codes[input[i]])` in an `int`, given as its 32-bit pattern.
code_bits : List ℕ → CodeTable → ℕ → Result ℕ
code_bits [] codes n = ok n
code_bits (x ∷ xs) codes n =
    from_option (codes x) >>= λ w. code_bits xs codes ((n + length w) % 2 ^ 32)

-- `ALIGN_CEIL(tmp_len, 8) >> 3`, which keeps the sign.
align_shift : ℕ → ℕ
align_shift n = let w = (n + 7) % 2 ^ 32 in if ltb w (2 ^ 31) then w / 8 else w / 8 + 7 * 2 ^ 29

-- The sums are `int`s, which wrap.
pub get_compress_output_len : List ℕ → FreqTable → CodeTable → Result ℤ
unfolding code_bits align_shift
get_compress_output_len input freq codes = do
  n ← code_bits input codes 0
  ok (int_of ((2 + 5 * used_chars freq + 4 + align_shift n) % 2 ^ 32))

-- The output buffer is zeroed when it is allocated. A negative length is a size that is not given,
-- and the first store then goes to NULL.
zeroed : ℤ → Result Buffer
zeroed (pos n) = ok (replicate n 0)
zeroed (negsuc n) = fault

pub no_codes : CodeTable
no_codes c = none

-- From the codes on.
pub compress_with : List ℕ → FreqTable → CodeTable → Result Output
unfolding zeroed
compress_with input freq codes = do
  output_len ← get_compress_output_len input freq codes
  output ← zeroed output_len
  (buf, char_freq_len) ← copy_char_freq output 0 freq
  (buf, char_code_len) ← huffman_encode input codes buf char_freq_len
  assert (char_freq_len + char_code_len == rounds output_len)
  ok (record { ret = output_len; bytes = buf })

compress_tree : List ℕ → FreqTable → BTree → Result Output
unfolding compress_with no_codes get_compress_output_len
compress_tree input freq tree =
    if is_null tree
    then ok failed
    else (get_char_codes tree no_codes >>= λ codes. elim codes [
      | none ↦ ok failed
      | some c ↦ compress_with input freq c
    ])

unfoldable pub huffman_compress : List ℕ → Result Output
unfolding compress_tree
huffman_compress [] = ok failed
huffman_compress (x ∷ xs) = do
  let (freq, ret) = calc_char_freq (x ∷ xs) no_freq
  elim ret [
    | negsuc _ ↦ ok failed
    | pos _ ↦ generate_huffman_tree freq >>= λ tree. compress_tree (x ∷ xs) freq tree
  ]

-- A length below 1 leaves no output, whatever becomes of the allocation.
decompress_tree : Buffer → ℕ → BTree → Result Output
decompress_tree input i tree = if is_null tree then ok failed else do
  n ← read_le32 input i
  bytes ← huffman_decode tree input (i + 4) (rounds (int_of n))
  ok (record { ret = int_of n; bytes = bytes })

abbrev is_zero : ℤ → Bool
is_zero (pos n) = n == 0
is_zero (negsuc n) = false

unfoldable pub huffman_decompress : Buffer → Result Output
unfolding decompress_tree
huffman_decompress input = do
  (freq, i, char_cnt) ← get_char_freq input 0
  let rest = (generate_huffman_tree freq >>= λ tree. decompress_tree input i tree)
  if is_zero char_cnt then ok failed else rest
