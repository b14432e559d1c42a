-- ===== src/Huffman/Stream/Bits.antt =====
-- The bits of a buffer in the order in which they are written and read.
use sftt.Base.{
  ℕ, suc, ◌+◌, ◌-◌, ◌*◌, ◌/◌, ◌%◌, ◌≤◌, ◌<◌, ◌≡◌, ◌≢◌, some, [], ◌∷◌, ◌++◌, length, get_elem?, set,
  arith, ◌==◌, Bool-cases, inl, inr, ◌∙◌, ap, All, get_elem?_lt, get_elem?-set_self,
  get_elem?-set_ne, ==→eq, sym, subst,
}
use sftt.Bits.{set_bit, get_bit}
use sftt.Bits.Laws.{set_bit-lt, get_bit-set_bit, get_bit-set_bit_ne}
use sftt.Bytes.{Buffer, IsByte}
use sftt.Bytes.Laws.{All-get, All-set}
use sftt.Huffman.Codes.{Code}
use sftt.Huffman.Stream.{Cursor, advance, back, bit_of}

-- The cursor stands before bit `k` of the buffer.
pub record At (k : ℕ) (c : Cursor) : Type 0 where
  pub place : 8 * c.pos + 8 ≡ k + c.index
  pub room : c.index ≤ 8

module _ (k : ℕ) (c : Cursor) (at : At k c) where
  pub pos-advance : (advance c).pos ≡ k / 8
  unfolding advance
  pos-advance = ground arith

  pub index-advance : (advance c).index ≡ 8 - k % 8
  unfolding advance
  index-advance = ground arith

  pub At-back : At (k + 1) (back (advance c))
  unfolding advance
  At-back = ground arith

-- Bit `k` of the buffer is the one that the digit `d` stands for.
abbrev pub HasBit : Buffer → ℕ → ℕ → Type 0
HasBit buf k d = (b : ℕ) × (get_elem? buf (k / 8) ≡ some b) × (get_bit b (8 - k % 8) ≡ bit_of d)

abbrev pub HasBits : Buffer → ℕ → Code → Type 0
HasBits buf k [] = Unit
HasBits buf k (d ∷ w) = HasBit buf k d × HasBits buf (k + 1) w

pub HasBits-append :
    (buf : Buffer) (k : ℕ) (u w : Code)
    → HasBits buf k (u ++ w)
    → HasBits buf k u × HasBits buf (k + length u) w
HasBits-append buf k [] w h = let e : k + 0 ≡ k = omega arith in (tt, rw e h)
HasBits-append buf k (d ∷ u) w h =
    let (one, two) = HasBits-append buf (k + 1) u w h.1 in
    let e : k + suc (length u) ≡ k + 1 + length u = omega arith in ((h.0, one), rw e two)

bit_of-lt : (d : ℕ) → bit_of d < 2
bit_of-lt d = ground arith

-- The buffer after one bit is written into the byte `b` that held it.
module _ (buf : Buffer) (k d b : ℕ) (bytes : All IsByte buf)
    (here : get_elem? buf (k / 8) ≡ some b) where
  abbrev pub changed : Buffer
  changed = set buf (k / 8) (set_bit b (8 - k % 8) (bit_of d))

  pub HasBit-changed : HasBit changed k d
  HasBit-changed = (
    set_bit b (8 - k % 8) (bit_of d),
    get_elem?-set_self buf (k / 8) _ (get_elem?_lt buf (k / 8) b here),
    get_bit-set_bit b (8 - k % 8) (bit_of d) (All-get buf (k / 8) bytes here) (omega arith)
        (omega arith) (bit_of-lt d),
  )

  pub All-changed : All IsByte changed
  All-changed =
      All-set buf (k / 8) _
        (set_bit-lt b (8 - k % 8) (bit_of d) (All-get buf (k / 8) bytes here) (omega arith)
          (omega arith) (bit_of-lt d))
        bytes

  pub HasBit-changed_ne : (j e : ℕ) → k ≢ j → HasBit buf j e → HasBit changed j e
  HasBit-changed_ne j e ne (x, at_j, bit) = elim (Bool-cases (k / 8 == j / 8)) [
    | inl same ↦
        let q : j / 8 ≡ k / 8 = omega (arith, ==→eq (k / 8) (j / 8) same) in
        let bx : some b ≡ some x = sym here ∙ ap (get_elem? buf) (sym q) ∙ at_j in
        let xb : x ≡ b = cc in
        (
          set_bit b (8 - k % 8) (bit_of d),
          ap (get_elem? changed) q
              ∙ get_elem?-set_self buf (k / 8) _ (get_elem?_lt buf (k / 8) b here),
          get_bit-set_bit_ne b (8 - k % 8) (bit_of d) (All-get buf (k / 8) bytes here) (omega arith)
                (omega arith) (bit_of-lt d) (8 - j % 8) (omega arith) (omega arith) (omega arith)
              ∙ subst (λ y. get_bit y (8 - j % 8) ≡ bit_of e) xb bit,
        )
    | inr other ↦ (x, get_elem?-set_ne buf (k / 8) (j / 8) _ (ground arith) ∙ at_j, bit)
  ]
