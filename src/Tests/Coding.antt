-- ===== src/Tests/Coding.antt =====
-- Compression, encryption and their parts on one word.
use sftt.Base.{
  ℕ, ◌+◌, ◌≡◌, refl, true, false, none, some, [], ◌∷◌, length, replicate, All, arith, ok,
  if◌then◌else◌, ◌==◌,
}
use sftt.Base.Int.{pos, negsuc}
use sftt.Bytes.{Buffer, IsByte}
use sftt.Huffman.{huffman_compress, huffman_decompress}
use sftt.Huffman.Tree.{Tree, null, node, charset_size, btree_is_leaf, is_null}
use sftt.Huffman.Codes.{Codes, get_char_codes}
use sftt.Huffman.Codes.Shape.{put_codes}
use sftt.Huffman.Codes.Visits.{get_char_codes_lem}
use sftt.Huffman.Stream.{huffman_encode}
use sftt.Huffman.Stream.Write.{
  Encoded, huffman_encode-Encoded, bytes_of_bits, spell, spell-cons, spell-nil,
}
use sftt.Huffman.Freq.{FreqTable, no_freq, count_chars, used_chars, copy_char_freq, get_char_freq}
use sftt.Huffman.Freq.Count.{count_chars-IsTable, replicate-IsTable, length-count_chars}
use sftt.Huffman.Freq.Table.{get_char_freq-copy_char_freq}
use sftt.Huffman.Compress.{Plan, Compressed, huffman_compress-Compressed, output_size, used_input}
use sftt.Huffman.RoundTrip.{decompress-compress}
use sftt.Encode.{sftt_buffer_encode}
use sftt.Encode.Inverse.{Decoded, decode-encode, encode-crypt_blind}

abbrev word : Buffer
word = b'a' ∷ b'b' ∷ b'a' ∷ []

word_bytes : All IsByte word
word_bytes = (omega arith, (omega arith, (omega arith, tt)))

decompress-compress_example :
    (bytes : Buffer) × (huffman_compress word
      ≡ ok (record { ret = pos (length bytes); bytes = bytes }))
    × (huffman_decompress bytes ≡ ok (record { ret = pos 3; bytes = word }))
decompress-compress_example = decompress-compress b'a' (b'b' ∷ b'a' ∷ []) word_bytes (omega arith)

huffman_compress-Compressed_example :
    (p : Plan word) × (bytes : Buffer) × (huffman_compress word
      ≡ ok (record { ret = pos (output_size word p); bytes = bytes }))
    × (length bytes ≡ output_size word p)
    × Compressed word p bytes
huffman_compress-Compressed_example =
    huffman_compress-Compressed b'a' (b'b' ∷ b'a' ∷ []) word_bytes (omega arith)

decode-encode_example : Decoded word true true
decode-encode_example =
    decode-encode b'a' (b'b' ∷ b'a' ∷ []) true true word_bytes (omega arith) refl

encode-crypt_blind_example :
    sftt_buffer_encode word 3 false true ≡ sftt_buffer_encode (1 ∷ 2 ∷ 3 ∷ []) 3 false true
encode-crypt_blind_example = encode-crypt_blind word (1 ∷ 2 ∷ 3 ∷ []) refl

abbrev word_freq : FreqTable
word_freq = count_chars no_freq word

used_two : used_chars word_freq ≡ 2
unfolding used_chars count_chars
used_two = refl

get_char_freq-copy_char_freq_example :
    (buf : Buffer) × (n : ℕ) × (copy_char_freq (replicate 20 0) 0 word_freq ≡ ok (buf, n))
    × (get_char_freq buf 0 ≡ ok (word_freq, 0 + n, pos (used_chars word_freq)))
get_char_freq-copy_char_freq_example =
    get_char_freq-copy_char_freq word_freq (replicate 20 0) 0 (length-count_chars no_freq word)
      (count_chars-IsTable no_freq word (replicate-IsTable charset_size))
      (used_input b'a' (b'b' ∷ b'a' ∷ []) word_bytes (omega arith)) (omega (arith, used_two))

-- 'a' is written as "10".
abbrev one_code : Codes
one_code c = if c == b'a' then some (b'1' ∷ b'0' ∷ []) else none

length-spell : length (spell one_code (b'a' ∷ b'a' ∷ [])) ≡ 4
length-spell =
    rw
      (
        spell-cons one_code b'a' (b'a' ∷ []) refl,
        spell-cons one_code b'a' [] refl,
        spell-nil one_code,
      )
      refl

huffman_encode-Encoded_example :
    (buf : Buffer) × (huffman_encode (b'a' ∷ b'a' ∷ []) one_code (replicate 8 0) 1
      ≡ ok (buf, 4 + bytes_of_bits (length (spell one_code (b'a' ∷ b'a' ∷ [])))))
    × Encoded one_code (b'a' ∷ b'a' ∷ []) (replicate 8 0) 1 buf
huffman_encode-Encoded_example =
    huffman_encode-Encoded one_code (b'a' ∷ b'a' ∷ []) (replicate 8 0) 1
      ((_, refl), ((_, refl), tt))
      (
        omega arith,
        (
          omega arith,
          (
            omega arith,
            (omega arith, (omega arith, (omega arith, (omega arith, (omega arith, tt))))),
          ),
        ),
      )
      (omega (arith, length-spell)) (omega (arith, length-spell))

-- A root with one leaf.
abbrev small_tree : Tree
small_tree =
    node 256 (record { ch = negsuc 0; freq = 2 })
      (node 97 (record { ch = pos 97; freq = 2 }) null null) null

root_not_leaf : btree_is_leaf small_tree ≡ true → ⊥
unfolding btree_is_leaf
root_not_leaf e = let bad : ⊥ = cc in bad

tree_not_null : is_null small_tree ≡ false
unfolding is_null
tree_not_null = refl

get_char_codes_lem_example :
    get_char_codes small_tree one_code ≡ ok (some (put_codes small_tree [] one_code))
get_char_codes_lem_example =
    get_char_codes_lem small_tree one_code tree_not_null
      (root_not_leaf, (λ _. omega arith, tt, tt), tt) (refl, tt)
