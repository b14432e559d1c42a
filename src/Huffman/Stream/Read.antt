-- ===== src/Huffman/Stream/Read.antt =====
-- `huffman_decode` reads back the chars whose paths stand in the buffer.
use sftt.Base.{
  ℕ, suc, ◌+◌, ◌-◌, ◌*◌, ◌/◌, ◌%◌, ◌<◌, ◌≡◌, refl, true, false, inl, inr, some, List, [], ◌∷◌,
  length, get_elem?, arith, ◌∙◌, ap, All, ok,
}
use sftt.Base.Int.{pos}
use sftt.Bits.{get_bit}
use sftt.Bytes.{Buffer, IsByte}
use sftt.Bytes.Laws.{read_byte-ok}
use sftt.Huffman.Tree.{Tree, null, node, CharStat, btree_is_leaf, is_null}
use sftt.Huffman.Codes.{Code, Codes}
use sftt.Huffman.Codes.Paths.{HasCode, Leads, Sound}
use sftt.Huffman.Stream.{Cursor, advance, back, decode_char, decode_chars, huffman_decode}
use sftt.Huffman.Stream.Bits.{At, pos-advance, index-advance, At-back, HasBits, HasBits-append}
use sftt.Huffman.Stream.Write.{spell, spell-cons}

-- A char is read from its path and leaves the cursor behind it.
abbrev Reads : Tree → Buffer → ℕ → Code → ℕ → Cursor → Type 0
Reads t buf k w x c = (c' : Cursor) × (decode_char t buf c ≡ ok (x, c')) × At (k + length w) c'

module _ (a : ℕ) (s : CharStat) (l r : Tree) (buf : Buffer) (k b : ℕ) (c : Cursor)
    (inner : btree_is_leaf (node a s l r) ≡ false) (at : At k c)
    (here : get_elem? buf (k / 8) ≡ some b) where
  decode_left :
      get_bit b (8 - k % 8) ≡ 1
      → decode_char (node a s l r) buf c ≡ decode_char l buf (back (advance c))
  unfolding decode_char
  decode_left one =
      rw (inner, pos-advance k c at, index-advance k c at, read_byte-ok buf (k / 8) here) (rw one)

  decode_right :
      get_bit b (8 - k % 8) ≡ 0
      → decode_char (node a s l r) buf c ≡ decode_char r buf (back (advance c))
  unfolding decode_char
  decode_right clear =
      rw (inner, pos-advance k c at, index-advance k c at, read_byte-ok buf (k / 8) here) (rw clear)

decode_leaf :
    (a : ℕ) (s : CharStat) (l r : Tree) (buf : Buffer) (c : Cursor) (x : ℕ)
    → btree_is_leaf (node a s l r) ≡ true
    → s.ch ≡ pos x
    → x < 256
    → decode_char (node a s l r) buf c ≡ ok (x, c)
unfolding decode_char
decode_leaf a s l r buf c x leaf e lt = rw (leaf, e) (ap (λ y. ok (y, c)) (omega arith))

decode_char-Leads :
    (t : Tree) (buf : Buffer) (k : ℕ) (w : Code) (x : ℕ) (c : Cursor)
    → Leads t w x
    → x < 256
    → At k c
    → HasBits buf k w
    → Reads t buf k w x c
decode_char-Leads null buf k w x c path lt at bits = absurd path
decode_char-Leads (node a s l r) buf k [] x c (leaf, e) lt at bits =
    let e0 : k + 0 ≡ k = omega arith in (c, decode_leaf a s l r buf c x leaf e lt, rw e0 at)
decode_char-Leads (node a s l r) buf k (d ∷ w) x c (inner, inl (one, path)) lt at
      ((b, here, bit), bits) =
    let e : k + suc (length w) ≡ k + 1 + length w = omega arith in
    let (c', run, at') =
      decode_char-Leads l buf (k + 1) w x (back (advance c)) path lt (At-back k c at) bits in
    (c', decode_left a s l r buf k b c inner at here (rw one at bit) ∙ run, rw e at')
decode_char-Leads (node a s l r) buf k (d ∷ w) x c (inner, inr (clear, path)) lt at
      ((b, here, bit), bits) =
    let e : k + suc (length w) ≡ k + 1 + length w = omega arith in
    let (c', run, at') =
      decode_char-Leads r buf (k + 1) w x (back (advance c)) path lt (At-back k c at) bits in
    (c', decode_right a s l r buf k b c inner at here (rw clear at bit) ∙ run, rw e at')

decode_chars-spell :
    (t : Tree) (codes : Codes) (buf : Buffer) (k : ℕ) (c : Cursor) (input : List ℕ)
    → Sound t codes
    → All (HasCode codes) input
    → All IsByte input
    → At k c
    → HasBits buf k (spell codes input)
    → decode_chars (length input) t buf c ≡ ok input
unfolding decode_chars
decode_chars-spell t codes buf k c [] sound coded bytes at bits = refl
decode_chars-spell t codes buf k c (x ∷ xs) sound coded bytes at bits =
    let (w, e) = coded.0 in
    let (first, more) =
      HasBits-append buf k w (spell codes xs) (rw (spell-cons codes x xs e) at bits) in
    let (c', run, at') = decode_char-Leads t buf k w x c (sound x w e) bytes.0 at first in
    rw run (rw (decode_chars-spell t codes buf (k + length w) c' xs sound coded.1 bytes.1 at' more))

-- `huffman_decode` of a buffer that holds the codes of `input` is `input`.
pub huffman_decode-spell :
    (t : Tree) (codes : Codes) (buf : Buffer) (head : ℕ) (input : List ℕ)
    → is_null t ≡ false
    → Sound t codes
    → All (HasCode codes) input
    → All IsByte input
    → HasBits buf (8 * head) (spell codes input)
    → huffman_decode t buf head (length input) ≡ ok input
unfolding huffman_decode
huffman_decode-spell null codes buf head input nn sound coded bytes bits = unfold is_null in cc
huffman_decode-spell (node a s l r) codes buf head input nn sound coded bytes bits =
    decode_chars-spell (node a s l r) codes buf (8 * head) _ input sound coded bytes
      (record { place = omega arith; room = omega arith }) bits
