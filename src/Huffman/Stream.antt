-- ===== src/Huffman/Stream.antt =====
-- `huffman_encode` and `huffman_decode` of compress.c: the codes as bits of a buffer, and back.
pub mod Bits
pub mod Write
pub mod Read
use sftt.Base.{
  ℕ, zero, suc, ◌+◌, ◌-◌, Bool, true, false, List, [], ◌∷◌, length, set, ◌==◌, if◌then◌else◌,
  Result, ok, fault, ◌>>=◌, from_option,
}
use sftt.Base.Int.{low_byte}
use sftt.Bits.{set_bit, get_bit}
use sftt.Bytes.{Buffer, le32, read_byte, write_bytes}
use sftt.Huffman.Tree.{Tree, null, node, btree_is_leaf}
use sftt.Huffman.Codes.{Code, Codes}

-- CHAR_BIT_LEN
abbrev pub char_bit_len : ℕ
char_bit_len = 8

-- The offset of `pos`, and how many bits of its byte are left.
pub record Cursor : Type 0 where
  pub pos : ℕ
  pub index : ℕ

-- `if (index == 0) { ++pos; index = CHAR_BIT_LEN; }`
pub advance : Cursor → Cursor
advance c = if c.index == 0 then record { pos = c.pos + 1; index = char_bit_len } else c

abbrev pub back : Cursor → Cursor
back c = record c { index = c.index - 1 }

-- `tmp[j] == '0' ? 0 : 1`
abbrev pub bit_of : ℕ → ℕ
bit_of d = if d == b'0' then 0 else 1

-- The inner loop of `huffman_encode`, over the chars of one code.
pub encode_code : Code → Buffer → Cursor → Result (Buffer × Cursor)
unfolding advance
encode_code [] buf c = ok (buf, c)
encode_code (d ∷ w) buf c = do
  b ← read_byte buf ((advance c).pos)
  encode_code w (set buf ((advance c).pos) (set_bit b ((advance c).index) (bit_of d)))
      (back (advance c))

-- The outer loop. A char without a code is the assertion on `tmp`.
pub encode_chars : List ℕ → Codes → Buffer → Cursor → Result (Buffer × Cursor)
unfolding encode_code
encode_chars [] codes buf c = ok (buf, c)
encode_chars (x ∷ xs) codes buf c = do
  w ← from_option (codes x)
  (buf', c') ← encode_code w buf c
  encode_chars xs codes buf' c'

-- `head` is the offset of the argument `pos`; the number is the value returned.
unfoldable pub huffman_encode : List ℕ → Codes → Buffer → ℕ → Result (Buffer × ℕ)
unfolding encode_chars
huffman_encode input codes buf head = do
  buf ← write_bytes buf head (le32 (length input))
  (buf, c) ← encode_chars input codes buf (record { pos = head + 4; index = char_bit_len })
  ok (buf, c.pos - head + 1)

-- The `while` loop of `huffman_decode`: down to a leaf, a bit at a time. NULL is dereferenced.
pub decode_char : Tree → Buffer → Cursor → Result (ℕ × Cursor)
unfolding advance
decode_char null buf c = fault
decode_char (node a s l r) buf c =
    let down = read_byte buf ((advance c).pos) >>= λ b.
    let right = decode_char r buf (back (advance c)) in
    let left = decode_char l buf (back (advance c)) in
    if get_bit b ((advance c).index) == 0 then right else left in
    if btree_is_leaf (node a s l r) then ok (low_byte s.ch, c) else down

-- The `for` loop, over the chars that are still to be read.
pub decode_chars : ℕ → Tree → Buffer → Cursor → Result (List ℕ)
unfolding decode_char
decode_chars zero t buf c = ok []
decode_chars (suc n) t buf c = do
  (x, c') ← decode_char t buf c
  xs ← decode_chars n t buf c'
  ok (x ∷ xs)

-- The bytes that are put in `output`; their number is the value returned.
unfoldable pub huffman_decode : Tree → Buffer → ℕ → ℕ → Result (List ℕ)
unfolding decode_chars
huffman_decode null buf head n = ok []
huffman_decode (node a s l r) buf head n =
    decode_chars n (node a s l r) buf (record { pos = head; index = char_bit_len })
