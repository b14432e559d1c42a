-- ===== src/Encode.antt =====
-- src/encode.c: the two steps, compression and encryption, that a packet's content goes through.
pub mod Inverse
use sftt.Base.{
  ℕ, zero, suc, Bool, true, false, List, [], ◌∷◌, replicate, ◌==◌, if◌then◌else◌, not, Result, ok,
  ◌>>=◌, ◌>>◌, assert,
}
use sftt.Base.Int.{ℤ, pos, rounds}
use sftt.Bytes.{Buffer, read_le16, take_bytes}
use sftt.Huffman.{Output, huffman_compress, huffman_decompress}
use sftt.Crypt.{sftt_encrypt_func, sftt_decrypt_func}

-- `assert(((short *)(buf))[0] != 0)`
assert_count : Buffer → Result (Unit {0})
assert_count buf = read_le16 buf 0 >>= λ n. assert (not (n == 0))

-- Compression, and then encryption of the result where `crypt` asks for it.
encode_zip : Buffer → Bool → Result Output
unfolding assert_count
encode_zip input crypt = do
  out ← huffman_compress input
  assert_count out.bytes
  let secret =
      (sftt_encrypt_func out.bytes (rounds out.ret) >>= λ bytes.
      ok (record { ret = out.ret; bytes = bytes }))
  if crypt then secret else ok out

-- Encryption alone works on the buffer just allocated, which holds zeros; `input` is not copied.
encode_crypt : ℕ → Result Output
encode_crypt len = sftt_encrypt_func (replicate len 0) len >>= λ bytes.
    ok (record { ret = pos len; bytes = bytes })

copied : Buffer → ℕ → Result Output
copied input len = take_bytes len input >>= λ bytes. ok (record { ret = pos len; bytes = bytes })

-- `len` is the size of `input`. Without a char, `*output` is left alone.
unfoldable pub sftt_buffer_encode : Buffer → ℕ → Bool → Bool → Result Output
unfolding encode_zip encode_crypt copied
sftt_buffer_encode input len zip crypt =
    let zipped = encode_zip input crypt in
    let plain = if crypt then encode_crypt len else copied input len in
    let nothing : Result Output = ok (record { ret = pos 0; bytes = [] }) in
    if len == 0 then nothing else if zip then zipped else plain

-- The buffer that is decompressed is the decrypted copy or the input itself.
decode_zip : Buffer → Result Output
unfolding assert_count
decode_zip buf = assert_count buf >> huffman_decompress buf

decode_crypt : Buffer → ℕ → Bool → Result Output
unfolding decode_zip copied
decode_crypt input len unzip = do
  tmp ← take_bytes len input
  tmp ← sftt_decrypt_func tmp len
  if unzip then decode_zip tmp else copied tmp len

unfoldable pub sftt_buffer_decode : Buffer → ℕ → Bool → Bool → Result Output
unfolding decode_crypt decode_zip copied
sftt_buffer_decode input len unzip decrypt =
    let plain = if unzip then decode_zip input else copied input len in
    let nothing : Result Output = ok (record { ret = pos 0; bytes = [] }) in
    if len == 0 then nothing else if decrypt then decode_crypt input len unzip else plain
