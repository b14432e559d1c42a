-- ===== src/Encode/Inverse.antt =====
-- Which of the four ways to encode a buffer are undone by decoding it the same way.
use sftt.Base.{
  ℕ, suc, ◌^◌, ◌<◌, ◌≡◌, ◌≢◌, refl, Bool, true, false, ◌||◌, not, [], ◌∷◌, length, arith, All, ok,
  ◌==◌, ne→==,
}
use sftt.Base.Int.{pos}
use sftt.Bytes.{Buffer, IsByte, read_byte, read_le16}
use sftt.Bytes.Laws.{take_bytes-all}
use sftt.Huffman.RoundTrip.{Zipped, huffman_compress-Zipped}
use sftt.Crypt.Inverse.{decrypt-encrypt}
use sftt.Encode.{
  sftt_buffer_encode, sftt_buffer_decode, encode_zip, decode_zip, decode_crypt, assert_count,
  copied,
}

assert_count-ok : (buf : Buffer) (n : ℕ) → read_le16 buf 0 ≡ ok n → n ≢ 0 → assert_count buf ≡ ok tt
unfolding assert_count
assert_count-ok buf n e ne = rw (e, ne→== n 0 ne) refl

copied-all :
    (buf : Buffer) → copied buf (length buf) ≡ ok (record { ret = pos (length buf); bytes = buf })
unfolding copied
copied-all buf = rw (take_bytes-all buf) refl

some_length : (x : ℕ) (xs : Buffer) → (length (x ∷ xs) == 0) ≡ false
some_length x xs = ne→== (suc (length xs)) 0 (omega arith)

-- Decoding what encoding made, in the same mode.
pub record Decoded (input : Buffer) (zip crypt : Bool) : Type 0 where
  pub bytes : Buffer
  pub encoded :
      sftt_buffer_encode input (length input) zip crypt
      ≡ ok (record { ret = pos (length bytes); bytes = bytes })
  pub some_byte : 0 < length bytes
  pub few : length bytes < 2 ^ 31
  pub decoded :
      sftt_buffer_decode bytes (length bytes) zip crypt
      ≡ ok (record { ret = pos (length input); bytes = input })

-- With neither step, both are copies.
pub plain_encode :
    (x : ℕ) (xs : Buffer)
    → sftt_buffer_encode (x ∷ xs) (length (x ∷ xs)) false false
      ≡ ok (record { ret = pos (length (x ∷ xs)); bytes = x ∷ xs })
unfolding sftt_buffer_encode
plain_encode x xs = rw (some_length x xs) (copied-all (x ∷ xs))

pub plain_decode :
    (x : ℕ) (xs : Buffer)
    → sftt_buffer_decode (x ∷ xs) (length (x ∷ xs)) false false
      ≡ ok (record { ret = pos (length (x ∷ xs)); bytes = x ∷ xs })
unfolding sftt_buffer_decode
plain_decode x xs = rw (some_length x xs) (copied-all (x ∷ xs))

plain_Decoded : (x : ℕ) (xs : Buffer) → length (x ∷ xs) < 2 ^ 22 → Decoded (x ∷ xs) false false
plain_Decoded x xs short = record {
  bytes = x ∷ xs;
  encoded = plain_encode x xs;
  some_byte = omega arith;
  few = omega (arith, short);
  decoded = plain_decode x xs;
}

-- A buffer from which a `short` is read has a byte.
read_le16-some : (buf : Buffer) (n : ℕ) → read_le16 buf 0 ≡ ok n → 0 < length buf
unfolding read_le16 read_byte
read_le16-some [] n e = let bad : ⊥ = cc in absurd bad
read_le16-some (b ∷ bs) n e = omega arith

module _ (x : ℕ) (xs bytes : Buffer) (z : Zipped (x ∷ xs) bytes) where
  decode_zip_back : decode_zip bytes ≡ ok (record { ret = pos (length (x ∷ xs)); bytes = x ∷ xs })
  unfolding decode_zip
  decode_zip_back = rw (assert_count-ok bytes z.count z.starts z.used, z.back) refl

  zip_Decoded : Decoded (x ∷ xs) true false
  unfolding sftt_buffer_encode sftt_buffer_decode encode_zip
  zip_Decoded =
      let some_byte = read_le16-some bytes z.count z.starts in
      record {
        bytes = bytes;
        encoded = rw (some_length x xs, z.run, assert_count-ok bytes z.count z.starts z.used) refl;
        some_byte = some_byte;
        few = z.few;
        decoded = rw (ne→== (length bytes) 0 (omega (arith, some_byte))) decode_zip_back;
      }

  zip_crypt_Decoded : All IsByte bytes → Decoded (x ∷ xs) true true
  unfolding sftt_buffer_encode sftt_buffer_decode encode_zip decode_crypt
  zip_crypt_Decoded byte =
      let (cs, enc, size, dec) = decrypt-encrypt bytes byte in
      let some_byte = read_le16-some bytes z.count z.starts in
      record {
        bytes = cs;
        encoded =
            rw (some_length x xs, z.run, assert_count-ok bytes z.count z.starts z.used, enc, size)
              refl;
        some_byte = omega (arith, some_byte, size);
        few = omega (arith, z.few, size);
        decoded =
            rw (ne→== (length cs) 0 (omega (arith, some_byte, size)), take_bytes-all cs, dec)
              decode_zip_back;
      }

-- In every mode but encryption without compression, every buffer of bytes that is not empty and shorter than 2 ^ 22 is encoded with no fault, to at
-- least one byte and less than 2 ^ 31 bytes, and `sftt_buffer_decode` gives it back in the same mode.
pub decode-encode :
    (x : ℕ) (xs : Buffer) (zip crypt : Bool)
    → All IsByte (x ∷ xs)
    → length (x ∷ xs) < 2 ^ 22
    → (zip || not crypt) ≡ true
    → Decoded (x ∷ xs) zip crypt
decode-encode x xs false false byte short mode = plain_Decoded x xs short
decode-encode x xs false true byte short mode = let bad : ⊥ = cc in absurd bad
decode-encode x xs true false byte short mode =
    let (bytes, z) = huffman_compress-Zipped x xs byte short in zip_Decoded x xs bytes z
decode-encode x xs true true byte short mode =
    let (bytes, z) = huffman_compress-Zipped x xs byte short in
    zip_crypt_Decoded x xs bytes z z.byte

-- Encryption without compression loses the input: two inputs of one length are encoded to the same
-- output.
pub encode-crypt_blind :
    (xs ys : Buffer)
    → length xs ≡ length ys
    → sftt_buffer_encode xs (length xs) false true ≡ sftt_buffer_encode ys (length ys) false true
unfolding sftt_buffer_encode
encode-crypt_blind xs ys e = rw e refl
