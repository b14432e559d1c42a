-- ===== src/Huffman/Freq.antt =====
-- The frequency table of compress.c: counting the chars of the input, writing the table in front of
-- the compressed bits, and reading it back.
pub mod Count
pub mod Table
use sftt.Base.{
  ℕ, zero, suc, ◌+◌, ◌*◌, ◌%◌, ◌^◌, Bool, List, [], ◌∷◌, ◌++◌, length, get_or, set, replicate, ltb,
  ◌==◌, if◌then◌else◌, not, Result, ok, fault, ◌>>=◌, ◌>>◌, assert,
}
use sftt.Base.Int.{ℤ, pos, negsuc, short_of, rounds}
use sftt.Bytes.{Buffer, le16, le32, read_byte, read_le16, read_le32, write_bytes}
use sftt.Huffman.Tree.{charset_size}

-- `int char_freq[CHARSET_SIZE]`, as 32-bit patterns.
abbrev pub FreqTable : Type 0
FreqTable = List ℕ

abbrev pub no_freq : FreqTable
no_freq = replicate charset_size 0

-- `char_freq[b]++` for each byte.
unfoldable pub count_chars : FreqTable → List ℕ → FreqTable
count_chars freq [] = freq
count_chars freq (b ∷ bs) = count_chars (set freq b ((get_or freq b 0 + 1) % 2 ^ 32)) bs

-- How many entries are not 0.
unfoldable pub used_chars : FreqTable → ℕ
used_chars [] = 0
used_chars (f ∷ fs) = if f == 0 then used_chars fs else used_chars fs + 1

-- The table and the value returned; the value is -1 on an empty input.
unfoldable pub calc_char_freq : List ℕ → FreqTable → FreqTable × ℤ
unfolding count_chars used_chars
calc_char_freq [] freq = (freq, negsuc 0)
calc_char_freq (b ∷ bs) freq =
    let counted = count_chars no_freq (b ∷ bs) in (counted, pos (used_chars counted))

-- What the loop of `copy_char_freq` stores from the char `i` on.
pub freq_pairs : ℕ → FreqTable → Buffer
freq_pairs i [] = []
freq_pairs i (f ∷ fs) =
    if f == 0 then freq_pairs (i + 1) fs else (i % 256) ∷ (le32 f ++ freq_pairs (i + 1) fs)

-- The buffer and the value returned, the bytes that the table takes. The loop stores the pairs at
-- consecutive addresses behind the `short` at `head`, which is stored last.
unfoldable pub copy_char_freq : Buffer → ℕ → FreqTable → Result (Buffer × ℕ)
unfolding freq_pairs used_chars
copy_char_freq buf head freq = do
  buf ← write_bytes buf (head + 2) (freq_pairs 0 freq)
  assert (not (used_chars freq == 0))
  buf ← write_bytes buf head (le16 (used_chars freq))
  ok (buf, 2 + length (freq_pairs 0 freq))

-- The loop of `get_char_freq`, with the rounds that are left.
pub read_pairs : ℕ → Buffer → ℕ → FreqTable → Result (FreqTable × ℕ)
read_pairs zero buf i freq = ok (freq, i)
read_pairs (suc n) buf i freq = do
  ch ← read_byte buf i
  f ← read_le32 buf (i + 1)
  read_pairs n buf (i + 5) (set freq ch f)

-- The table, the offset behind it and `*char_cnt`, a `short`: a negative one means no round.
unfoldable pub get_char_freq : Buffer → ℕ → Result (FreqTable × ℕ × ℤ)
unfolding read_pairs
get_char_freq buf head = do
  cnt ← read_le16 buf head
  (freq, i) ← read_pairs (rounds (short_of cnt)) buf (head + 2) no_freq
  ok (freq, i, short_of cnt)
