-- ===== src/Huffman/RoundTrip.antt =====
-- `huffman_decompress` after `huffman_compress`.
use sftt.Base.{
  ℕ, ◌+◌, ◌*◌, ◌^◌, ◌<◌, ◌≡◌, ◌≢◌, refl, List, ◌∷◌, length, arith, ◌∙◌, ap, All, ok, ne→==, lt→ltb,
  sym,
}
use sftt.Base.Int.{pos}
use sftt.Bytes.{Buffer, IsByte, read_le16}
use sftt.Bytes.Laws.{read_le32-ok, read_le16-ok}
use sftt.Huffman.Tree.{charset_size}
use sftt.Huffman.Stream.Read.{huffman_decode-spell}
use sftt.Huffman.Freq.{no_freq, used_chars}
use sftt.Huffman.Freq.Count.{count_chars-IsTable, replicate-IsTable}
use sftt.Huffman.Freq.Table.{get_char_freq-ok, used_chars-le}
use sftt.Huffman.Compress.{
  Plan, output_size-small, Compressed, huffman_compress-Compressed, freq_of_input, freq-length,
  used_input,
}
use sftt.Huffman.{huffman_compress, huffman_decompress, decompress_tree}

-- A buffer that holds what `huffman_compress` makes of `input` is decompressed to `input`. Nothing
-- behind that is read.
pub huffman_decompress-Compressed :
    (input : List ℕ) (p : Plan input) (bytes : Buffer)
    → All IsByte input
    → length input < 2 ^ 31
    → used_chars (freq_of_input input) ≢ 0
    → Compressed input p bytes
    → huffman_decompress bytes ≡ ok (record { ret = pos (length input); bytes = input })
unfolding huffman_decompress decompress_tree
huffman_decompress-Compressed input p bytes byte short used c =
    let freq = freq_of_input input in
    let u = used_chars freq in
    let table =
      get_char_freq-ok freq bytes 0 (freq-length input)
        (count_chars-IsTable no_freq input (replicate-IsTable charset_size)) c.count c.pairs in
    let n = read_le32-ok bytes (2 + 5 * u) (length input) (omega arith) c.prefix in
    let chars =
      huffman_decode-spell p.tree p.codes bytes (2 + 5 * u + 4) input p.not_null p.sound p.coded
        byte c.bits in
    rw (table, ne→== u 0 used, p.grown, p.not_null, n, lt→ltb (length input) (2 ^ 31) short, chars)
      refl

-- What the callers need of a compressed input: bytes that begin with a number other than 0 and
-- that are decompressed to the input.
pub record Zipped (input : List ℕ) (bytes : Buffer) : Type 0 where
  pub run : huffman_compress input ≡ ok (record { ret = pos (length bytes); bytes = bytes })
  pub byte : All IsByte bytes
  pub few : length bytes < 2 ^ 31
  pub count : ℕ
  pub starts : read_le16 bytes 0 ≡ ok count
  pub used : count ≢ 0
  pub back : huffman_decompress bytes ≡ ok (record { ret = pos (length input); bytes = input })

pub huffman_compress-Zipped :
    (x : ℕ) (xs : List ℕ)
    → All IsByte (x ∷ xs)
    → length (x ∷ xs) < 2 ^ 22
    → (bytes : Buffer) × Zipped (x ∷ xs) bytes
huffman_compress-Zipped x xs byte short =
    let (p, bytes, run, size, done) = huffman_compress-Compressed x xs byte short in
    let freq = freq_of_input (x ∷ xs) in
    let used = used_input x xs byte (omega (arith, short)) in
    (
      bytes,
      record {
        run = run ∙ ap (λ n. ok (record { ret = pos n; bytes = bytes })) (sym size);
        byte = done.byte;
        few = omega (arith, size, output_size-small (x ∷ xs) p short);
        count = used_chars freq;
        starts =
            read_le16-ok bytes 0 (used_chars freq)
              (omega (arith, used_chars-le freq, freq-length (x ∷ xs))) done.count;
        used = used;
        back = huffman_decompress-Compressed (x ∷ xs) p bytes byte (omega (arith, short)) used done;
      },
    )

-- For every input of bytes that is not empty and shorter than 2 ^ 22, `huffman_compress` returns the
-- number of bytes it leaves, and `huffman_decompress` makes the input of them again.
pub decompress-compress :
    (x : ℕ) (xs : List ℕ)
    → All IsByte (x ∷ xs)
    → length (x ∷ xs) < 2 ^ 22
    → (bytes : Buffer) × (huffman_compress (x ∷ xs)
        ≡ ok (record { ret = pos (length bytes); bytes = bytes }))
      × (huffman_decompress bytes ≡ ok (record { ret = pos (length (x ∷ xs)); bytes = x ∷ xs }))
decompress-compress x xs byte short =
    let (bytes, z) = huffman_compress-Zipped x xs byte short in (bytes, z.run, z.back)
