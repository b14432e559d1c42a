-- ===== src/Huffman/Stream/Write.antt =====
-- `huffman_encode` stays in its buffer and leaves the bits of all codes in it.
use sftt.Base.{
  ℕ, suc, ◌+◌, ◌-◌, ◌*◌, ◌/◌, ◌%◌, ◌≤◌, ◌<◌, ◌≡◌, refl, none, some, List, [], ◌∷◌, ◌++◌, length,
  get_elem?, arith, ◌∙◌, ap, All, get_elem?_below, get_elem?-set_ne, length-set, ok, ◌>>=◌,
  bind-cong, bind_assoc, sym,
}
use sftt.Bits.{set_bit}
use sftt.Bytes.{Buffer, IsByte, le32, read_byte}
use sftt.Bytes.Laws.{read_byte-ok, HasBytes, HasBytes-same, write_bytes-Written}
use sftt.Huffman.Codes.{Code, Codes}
use sftt.Huffman.Codes.Paths.{HasCode}
use sftt.Huffman.Stream.{
  Cursor, advance, back, bit_of, encode_code, encode_chars, huffman_encode, char_bit_len,
}
use sftt.Huffman.Stream.Bits.{
  At, pos-advance, index-advance, At-back, HasBit, HasBits, changed, HasBit-changed, All-changed,
  HasBit-changed_ne,
}

-- What writing the digits `w` from bit `k` on, at the cursor `c0`, does to a buffer.
pub record Coded (buf : Buffer) (k : ℕ) (w : Code) (c0 : Cursor) (buf' : Buffer) (c : Cursor)
    : Type 0 where
  pub at : At (k + length w) c
  pub partial : 0 < length w + (8 - c0.index) → c.index < 8
  pub size : length buf' ≡ length buf
  pub bytes : All IsByte buf'
  pub has : HasBits buf' k w
  pub low : (j e : ℕ) → j < k → HasBit buf j e → HasBit buf' j e
  pub below : (i : ℕ) → i < k / 8 → get_elem? buf' i ≡ get_elem? buf i

index_after : (k : ℕ) (c : Cursor) → At k c → (back (advance c)).index < 8
index_after k c at = omega (arith, index-advance k c at)

encode_step :
    (d b : ℕ) (w : Code) (buf : Buffer) (k : ℕ) (c : Cursor)
    → At k c
    → get_elem? buf (k / 8) ≡ some b
    → (bytes : All IsByte buf) (here : get_elem? buf (k / 8) ≡ some b)
    → encode_code (d ∷ w) buf c ≡ encode_code w (changed buf k d b bytes here) (back (advance c))
unfolding encode_code
encode_step d b w buf k c at e bytes here =
    rw (pos-advance k c at, index-advance k c at, read_byte-ok buf (k / 8) here)

Coded-step :
    (d b : ℕ) (w : Code) (buf buf' : Buffer) (k : ℕ) (c c' : Cursor)
    → At k c
    → (bytes : All IsByte buf) (here : get_elem? buf (k / 8) ≡ some b)
    → Coded (changed buf k d b bytes here) (k + 1) w (back (advance c)) buf' c'
    → Coded buf k (d ∷ w) c buf' c'
Coded-step d b w buf buf' k c c' at bytes here r =
    let size1 : length (changed buf k d b bytes here) ≡ length buf = length-set buf (k / 8) _ in
    record {
      at = let e : k + suc (length w) ≡ k + 1 + length w = omega arith in rw e r.at;
      partial = λ h. r.partial (omega (arith, index_after k c at));
      size = r.size ∙ size1;
      bytes = r.bytes;
      has = (r.low k d (omega arith) (HasBit-changed buf k d b bytes here), r.has);
      low = λ j e lt h.
          r.low j e (omega arith) (HasBit-changed_ne buf k d b bytes here j e (omega arith) h);
      below = λ i lt. r.below i (omega arith) ∙ get_elem?-set_ne buf (k / 8) i _ (omega arith);
    }

pub encode_code-Coded :
    (w : Code) (buf : Buffer) (k : ℕ) (c : Cursor)
    → At k c
    → All IsByte buf
    → k + length w ≤ 8 * length buf
    → (buf' : Buffer) × (c' : Cursor) × (encode_code w buf c ≡ ok (buf', c'))
      × Coded buf k w c buf' c'
encode_code-Coded [] buf k c at bytes fits = (
  buf,
  c,
  unfold encode_code in refl,
  record {
    at = let e : k + 0 ≡ k = omega arith in rw e at;
    partial = λ h. omega arith;
    size = refl;
    bytes = bytes;
    has = tt;
    low = λ j e lt h. h;
    below = λ i lt. refl;
  },
)
encode_code-Coded (d ∷ w) buf k c at bytes fits =
    let (b, here) = get_elem?_below buf (k / 8) (omega arith) in
    let (buf', c', run, r) =
      encode_code-Coded w (changed buf k d b bytes here) (k + 1) (back (advance c)) (At-back k c at)
        (All-changed buf k d b bytes here)
        (omega (arith, length-set buf (k / 8) (set_bit b (8 - k % 8) (bit_of d)))) in
    (
      buf',
      c',
      encode_step d b w buf k c at here bytes here ∙ run,
      Coded-step d b w buf buf' k c c' at bytes here r,
    )

-- The codes of the chars of `input`, one after the other.
pub spell : Codes → List ℕ → Code
spell codes [] = []
spell codes (x ∷ xs) = elim (codes x) [ none ↦ [] | some w ↦ w ] ++ spell codes xs

pub spell-nil : (codes : Codes) → spell codes [] ≡ []
unfolding spell
spell-nil codes = refl

pub spell-cons :
    (codes : Codes) (x : ℕ) (xs : List ℕ) {w : Code}
    → codes x ≡ some w
    → spell codes (x ∷ xs) ≡ w ++ spell codes xs
unfolding spell
spell-cons codes x xs e = rw e

encode_code-append :
    (u w : Code) (buf : Buffer) (c : Cursor)
    → encode_code (u ++ w) buf c ≡ (encode_code u buf c >>= λ (b, c'). encode_code w b c')
unfolding encode_code
encode_code-append [] w buf c = refl
encode_code-append (d ∷ u) w buf c =
    bind-cong (read_byte buf ((advance c).pos)) _ _
      (λ b. encode_code-append u w _ (back (advance c)))
    ∙ sym (bind_assoc (read_byte buf ((advance c).pos)) _ (λ (b, c'). encode_code w b c'))

encode_chars-spell :
    (codes : Codes) (input : List ℕ) (buf : Buffer) (c : Cursor)
    → All (HasCode codes) input
    → encode_chars input codes buf c ≡ encode_code (spell codes input) buf c
unfolding encode_chars spell
encode_chars-spell codes [] buf c h = refl
encode_chars-spell codes (x ∷ xs) buf c h =
    let (w, e) = h.0 in
    rw e (
      bind-cong (encode_code w buf c) _ _ (λ (b, c'). encode_chars-spell codes xs b c' h.1)
      ∙ sym (encode_code-append w (spell codes xs) buf c))

-- What `huffman_encode` leaves in a buffer: the length of the input, and then the bits.
pub record Encoded (codes : Codes) (input : List ℕ) (buf : Buffer) (head : ℕ) (buf' : Buffer)
    : Type 0 where
  pub size : length buf' ≡ length buf
  pub bytes : All IsByte buf'
  pub prefix : HasBytes buf' head (le32 (length input))
  pub has : HasBits buf' (8 * (head + 4)) (spell codes input)
  pub low : (i : ℕ) → i < head → get_elem? buf' i ≡ get_elem? buf i

-- The bytes that a number of bits takes, `ALIGN_CEIL(n, 8) >> 3`.
abbrev pub bytes_of_bits : ℕ → ℕ
bytes_of_bits n = (n + 7) / 8

-- For chars that all have codes, with at least one bit in all, and a buffer of bytes with room for
-- the length and the bits, `huffman_encode` ends with no fault and returns the bytes it took; the
-- buffer then holds the length and all the bits, and is as before in front of them.
pub huffman_encode-Encoded :
    (codes : Codes) (input : List ℕ) (buf : Buffer) (head : ℕ)
    → All (HasCode codes) input
    → All IsByte buf
    → 0 < length (spell codes input)
    → head + 4 + bytes_of_bits (length (spell codes input)) ≤ length buf
    → (buf' : Buffer) × (huffman_encode input codes buf head
        ≡ ok (buf', 4 + bytes_of_bits (length (spell codes input))))
      × Encoded codes input buf head buf'
unfolding huffman_encode
huffman_encode-Encoded codes input buf head coded bytes some_bit fits =
    let n = length input in
    let c0 : Cursor = record { pos = head + 4; index = char_bit_len } in
    let (buf1, run1, w) = write_bytes-Written buf head (le32 n) (omega arith) in
    let (buf', c, run2, r) =
      encode_code-Coded (spell codes input) buf1 (8 * (head + 4)) c0
        (record { place = omega arith; room = omega arith }) (w.bytes bytes (omega arith))
        (omega (arith, w.size)) in
    (
      buf',
      rw run1 (
          rw (encode_chars-spell codes input buf1 c0 coded, run2)
            (ap (λ m. ok (buf', m)) (omega (arith, r.at.place, r.partial (omega arith))))),
      record {
        size = r.size ∙ w.size;
        bytes = r.bytes;
        prefix = HasBytes-same buf1 buf' head (le32 n) (λ k p q. r.below k (omega arith)) w.has;
        has = r.has;
        low = λ i lt. r.below i (omega arith) ∙ w.low i lt;
      },
    )
