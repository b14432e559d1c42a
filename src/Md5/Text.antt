-- ===== src/Md5/Text.antt =====
-- The 32 hex digits of a digest, and the calls that make them of a file or a string.
use sftt.Base.{
  ℕ, suc, ◌+◌, ◌*◌, ◌-◌, ◌/◌, ◌%◌, ◌<◌, ◌≡◌, refl, true, false, some, List, [], ◌∷◌, length, arith,
  if◌then◌else◌, ltb, leb, All, ok,
}
use sftt.Base.Int.{pos}
use sftt.Bytes.{Buffer, IsByte}
use sftt.Md5.Transform.{words, md5_encode}
use sftt.Md5.{
  start, md5_init, dec_to_hex_char, printable_from, md5_printable_str, finish, Outcome, md5_file,
  md5_str,
}
use sftt.Md5.Machine.{machine, absorb, over_blocks, padded, digest_of}
use sftt.Md5.Stream.{Fits}
use sftt.Md5.Digest.{md5_final-digest_of, update_blocks-Took}

abbrev pub hex_digit : ℕ → ℕ
hex_digit n = if ltb n 10 then b'0' + n else b'a' + (n - 10)

abbrev pub hex : Buffer → List ℕ
hex [] = []
hex (b ∷ bs) = hex_digit (b / 16) ∷ hex_digit (b % 16) ∷ hex bs

dec_to_hex_char-hex_digit : (n : ℕ) → n < 16 → dec_to_hex_char n ≡ ok (hex_digit n)
unfolding dec_to_hex_char
dec_to_hex_char-hex_digit n lt = ground arith

printable_from-hex : (bs : Buffer) → All IsByte bs → printable_from bs ≡ ok (hex bs)
unfolding printable_from
printable_from-hex [] h = refl
printable_from-hex (b ∷ bs) (h, hs) =
    rw
      (
        dec_to_hex_char-hex_digit (b / 16) (omega arith),
        dec_to_hex_char-hex_digit (b % 16) (omega arith),
        printable_from-hex bs hs,
      )
      refl

-- Hex digits, two for a byte, read as numbers.
abbrev pub hex_value : ℕ → ℕ
hex_value c = if leb b'a' c then c - b'a' + 10 else c - b'0'

abbrev pub read_hex : List ℕ → Buffer
read_hex [] = []
read_hex (h ∷ []) = []
read_hex (h ∷ l ∷ s) = (hex_value h * 16 + hex_value l) ∷ read_hex s

read_hex-hex : (bs : Buffer) → All IsByte bs → read_hex (hex bs) ≡ bs
read_hex-hex [] h = refl
read_hex-hex (b ∷ bs) (h, hs) =
    let e : hex_value (hex_digit (b / 16)) * 16 + hex_value (hex_digit (b % 16)) ≡ b =
      ground arith in
    rw (e, read_hex-hex bs hs) refl

length-hex : (bs : Buffer) → length (hex bs) ≡ 2 * length bs
length-hex [] = refl
length-hex (b ∷ bs) = omega (arith, length-hex bs)

-- `md5_printable_str` makes two chars of each byte, and they can be read back, where its memory is
-- given and the bytes are bytes.
pub md5_printable_str-reads :
    (digest : Buffer)
    → All IsByte digest
    → (str : List ℕ) × (md5_printable_str true digest ≡ ok (some str))
      × (length str ≡ 2 * length digest)
      × (read_hex str ≡ digest)
unfolding md5_printable_str
md5_printable_str-reads digest h =
    (hex digest, rw (printable_from-hex digest h) refl, length-hex digest, read_hex-hex digest h)

md5_encode-IsByte : (ws : List ℕ) → All IsByte (md5_encode ws)
md5_encode-IsByte [] = tt
md5_encode-IsByte (w ∷ ws) =
    (omega arith, (omega arith, (omega arith, (omega arith, md5_encode-IsByte ws))))

digest_of-IsByte : (message : Buffer) → All IsByte (digest_of message)
unfolding digest_of
digest_of-IsByte message =
    md5_encode-IsByte (words (over_blocks (length (padded message) / 64) start (padded message)))

abbrev pub digested : List ℕ → Outcome
digested str = record { ret = pos 0; digest = some str; file_open = false; data_held = false }

-- The digest of a string and of a file with the same bytes is the hex text of the digest as it is
-- defined, in which the whole padded message is cut into blocks; whatever the stack holds, where
-- the memory that the calls ask for is given.
pub md5_str-digest_of :
    (buffer message : Buffer)
    → length buffer ≡ 64
    → (md5_str buffer message true ≡ ok (digested (hex (digest_of message))))
      × (md5_file buffer (some message) true true ≡ ok (digested (hex (digest_of message))))
unfolding md5_str md5_file md5_init finish md5_printable_str
md5_str-digest_of buffer message size =
    let fits : Fits 0 (machine start []) buffer = record { used = refl; size = omega arith } in
    let (free, run, fits') =
      update_blocks-Took (suc (length message)) 0 (machine start []) buffer message (omega arith)
        fits in
    let zero_more : 0 + length message ≡ length message = omega arith in
    let fits2 : Fits (length message) (absorb (machine start []) message) free =
      rw zero_more at fits' in
    let last = md5_final-digest_of message free fits2 in
    let run2 = rw zero_more at run in
    let text = printable_from-hex (digest_of message) (digest_of-IsByte message) in
    (rw (run2, last, text) refl, rw (run2, last, text) refl)
