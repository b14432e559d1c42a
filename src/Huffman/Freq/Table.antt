-- ===== src/Huffman/Freq/Table.antt =====
-- The table that `get_char_freq` reads is the one that `copy_char_freq` wrote.
use sftt.Base.{
  ℕ, zero, suc, ◌+◌, ◌*◌, ◌%◌, ◌^◌, ◌≤◌, ◌<◌, ◌≡◌, ◌≢◌, refl, true, false, inl, inr, some, List, [],
  ◌∷◌, ◌++◌, length, get_elem?, set, replicate, arith, ◌∙◌, ap, All, ◌==◌, Bool-cases, ok, sym,
  append_assoc, length-append, ne→==, lt→ltb, ==→eq,
}
use sftt.Base.Int.{pos}
use sftt.Bytes.{Buffer, IsByte, le16, le32}
use sftt.Bytes.Laws.{
  HasBytes, HasBytes-append, HasBytes-same, read_byte-ok, read_le16-ok, read_le32-ok,
  write_bytes-Written,
}
use sftt.Huffman.Tree.{charset_size}
use sftt.Huffman.Freq.{FreqTable, used_chars, freq_pairs, copy_char_freq, read_pairs, get_char_freq}
use sftt.Huffman.Freq.Count.{IsTable}

pub used_chars-le : (fs : FreqTable) → used_chars fs ≤ length fs
unfolding used_chars
used_chars-le [] = omega arith
used_chars-le (f ∷ fs) = ground (arith, used_chars-le fs)

pub length-freq_pairs : (i : ℕ) (fs : FreqTable) → length (freq_pairs i fs) ≡ 5 * used_chars fs
unfolding freq_pairs used_chars
length-freq_pairs i [] = refl
length-freq_pairs i (f ∷ fs) = elim (Bool-cases (f == 0)) [
  | inl z ↦ rw z (length-freq_pairs (i + 1) fs)
  | inr p ↦ rw p (omega (arith, length-freq_pairs (i + 1) fs))
]

set-append : (xs ys : List ℕ) (a v : ℕ) → set (xs ++ a ∷ ys) (length xs) v ≡ xs ++ v ∷ ys
set-append [] ys a v = refl
set-append (x ∷ xs) ys a v = ap (λ t. x ∷ t) (set-append xs ys a v)

module _ (i f : ℕ) (fs : FreqTable) where
  pairs_zero : (f == 0) ≡ true → freq_pairs i (f ∷ fs) ≡ freq_pairs (i + 1) fs
  unfolding freq_pairs
  pairs_zero z = rw z

  pairs_pos :
      (f == 0) ≡ false → freq_pairs i (f ∷ fs) ≡ (i % 256) ∷ (le32 f ++ freq_pairs (i + 1) fs)
  unfolding freq_pairs
  pairs_pos p = rw p

module _ (f : ℕ) (fs : FreqTable) where
  used_zero : (f == 0) ≡ true → used_chars (f ∷ fs) ≡ used_chars fs
  unfolding used_chars
  used_zero z = rw z

  used_pos : (f == 0) ≡ false → used_chars (f ∷ fs) ≡ suc (used_chars fs)
  unfolding used_chars
  used_pos p = rw p (omega arith)

-- One round, on the pair of the char `i` and the frequency `f`.
read_pairs_step :
    (n i f at : ℕ) (buf rest : Buffer) (freq : FreqTable)
    → i < 256
    → f < 2 ^ 32
    → HasBytes buf at ((i % 256) ∷ (le32 f ++ rest))
    → read_pairs (suc n) buf at freq ≡ read_pairs n buf (at + 5) (set freq i f)
unfolding read_pairs
read_pairs_step n i f at buf rest freq hi hf (first, more) =
    let e : i % 256 ≡ i = omega arith in
    rw
      (
        read_byte-ok buf at (rw e at first),
        read_le32-ok buf (at + 1) f hf ((HasBytes-append buf (at + 1) (le32 f) rest more).0),
      )
      refl

-- Reading the pairs of `fs` fills the entries from `i` on, where `i` entries are filled already.
read_pairs-freq_pairs :
    (fs done : FreqTable) (buf : Buffer) (i at : ℕ)
    → length done ≡ i
    → i + length fs ≤ charset_size
    → IsTable fs
    → HasBytes buf at (freq_pairs i fs)
    → read_pairs (used_chars fs) buf at (done ++ replicate (length fs) 0)
      ≡ ok (done ++ fs, at + length (freq_pairs i fs))
read_pairs-freq_pairs [] done buf i at e lt table has =
    unfold used_chars read_pairs freq_pairs in ap (λ n. ok (done ++ [], n)) (omega arith)
read_pairs-freq_pairs (f ∷ fs) done buf i at e lt table has = elim (Bool-cases (f == 0)) [
  | inl z ↦
      let f0 : f ≡ 0 = ==→eq f 0 z in
      let ih =
        read_pairs-freq_pairs fs (done ++ 0 ∷ []) buf (i + 1) at
          (omega (arith, length-append done (0 ∷ []))) (omega arith) table.1
          (rw (pairs_zero i f fs z) at has) in
      rw (used_zero f fs z, pairs_zero i f fs z)
        ((simp append_assoc at ih)
          ∙ ap (λ x. ok (done ++ x ∷ fs, at + length (freq_pairs (i + 1) fs))) (sym f0))
  | inr p ↦
      let has' = rw (pairs_pos i f fs p) at has in
      let at5 : at + 1 + 4 ≡ at + 5 = omega arith in
      let after = (HasBytes-append buf (at + 1) (le32 f) (freq_pairs (i + 1) fs) has'.1).1 in
      let ih =
        read_pairs-freq_pairs fs (done ++ f ∷ []) buf (i + 1) (at + 5)
          (omega (arith, length-append done (f ∷ []))) (omega arith) table.1 (rw at5 at after) in
      rw (used_pos f fs p, pairs_pos i f fs p)
        (read_pairs_step (used_chars fs) i f at buf (freq_pairs (i + 1) fs) _ (omega arith) table.0
            has'
          ∙ ap (read_pairs (used_chars fs) buf (at + 5)) (
              ap (λ n. set (done ++ 0 ∷ replicate (length fs) 0) n f) (sym e)
              ∙ set-append done (replicate (length fs) 0) 0 f)
          ∙ (simp append_assoc at ih)
          ∙ ap (λ n. ok (done ++ f ∷ fs, n)) (omega arith))
]

-- What `copy_char_freq` leaves in a buffer.
pub record Copied (freq : FreqTable) (buf : Buffer) (head : ℕ) (buf' : Buffer) : Type 0 where
  pub size : length buf' ≡ length buf
  pub bytes : All IsByte buf → All IsByte buf'
  pub count : HasBytes buf' head (le16 (used_chars freq))
  pub pairs : HasBytes buf' (head + 2) (freq_pairs 0 freq)

freq_pairs-IsByte : (i : ℕ) (fs : FreqTable) → All IsByte (freq_pairs i fs)
freq_pairs-IsByte i [] = unfold freq_pairs in tt
freq_pairs-IsByte i (f ∷ fs) = elim (Bool-cases (f == 0)) [
  | inl z ↦ rw (pairs_zero i f fs z) (freq_pairs-IsByte (i + 1) fs)
  | inr p ↦ rw (pairs_pos i f fs p) (
    omega arith,
    (omega arith, (omega arith, (omega arith, (omega arith, freq_pairs-IsByte (i + 1) fs)))),
  )
]

-- A table with a char in it is written without a fault where it fits.
pub copy_char_freq-Copied :
    (freq : FreqTable) (buf : Buffer) (head : ℕ)
    → used_chars freq ≢ 0
    → head + 2 + 5 * used_chars freq ≤ length buf
    → (buf' : Buffer) × (copy_char_freq buf head freq ≡ ok (buf', 2 + 5 * used_chars freq))
      × Copied freq buf head buf'
unfolding copy_char_freq
copy_char_freq-Copied freq buf head ne fits =
    let size = length-freq_pairs 0 freq in
    let (buf1, run1, w1) =
      write_bytes-Written buf (head + 2) (freq_pairs 0 freq) (omega (arith, size)) in
    let (buf2, run2, w2) =
      write_bytes-Written buf1 head (le16 (used_chars freq)) (omega (arith, w1.size)) in
    (
      buf2,
      rw (run1, ne→== (used_chars freq) 0 ne, run2, size) refl,
      record {
        size = w2.size ∙ w1.size;
        bytes = λ h. w2.bytes (w1.bytes h (freq_pairs-IsByte 0 freq)) (omega arith);
        count = w2.has;
        pairs =
            HasBytes-same buf1 buf2 (head + 2) (freq_pairs 0 freq)
              (λ k p q. w2.high k (omega arith)) w1.has;
      },
    )

-- `get_char_freq` reads back the table, and finds where the bytes behind it begin.
pub get_char_freq-ok :
    (freq : FreqTable) (buf : Buffer) (head : ℕ)
    → length freq ≡ charset_size
    → IsTable freq
    → HasBytes buf head (le16 (used_chars freq))
    → HasBytes buf (head + 2) (freq_pairs 0 freq)
    → get_char_freq buf head ≡ ok (freq, head + 2 + 5 * used_chars freq, pos (used_chars freq))
unfolding get_char_freq
get_char_freq-ok freq buf head size table has_count has_pairs =
    let few : used_chars freq ≤ 256 = omega (arith, used_chars-le freq) in
    let run = read_pairs-freq_pairs freq [] buf 0 (head + 2) refl (omega arith) table has_pairs in
    rw
      (
        read_le16-ok buf head (used_chars freq) (omega arith) has_count,
        lt→ltb (used_chars freq) (2 ^ 15) (omega arith),
        rw (size, length-freq_pairs 0 freq) at run,
      )
      refl

pub used_chars_pos :
    (fs : FreqTable) (c : ℕ) {f : ℕ} → get_elem? fs c ≡ some f → f ≢ 0 → used_chars fs ≢ 0
unfolding used_chars
used_chars_pos [] c e ne = let bad : ⊥ = cc in absurd bad
used_chars_pos (g ∷ fs) zero {f} e ne =
    let same : g ≡ f = cc in rw (ne→== g 0 (λ g0. ne (sym same ∙ g0))) (omega arith)
used_chars_pos (g ∷ fs) (suc c) e ne = ground (arith, used_chars_pos fs c e ne)

-- A table of 256 entries with some char in it, written where it fits, is read back, together with
-- the offset behind it and the number of chars in it.
pub get_char_freq-copy_char_freq :
    (freq : FreqTable) (buf : Buffer) (head : ℕ)
    → length freq ≡ charset_size
    → IsTable freq
    → used_chars freq ≢ 0
    → head + 2 + 5 * used_chars freq ≤ length buf
    → (buf' : Buffer) × (n : ℕ) × (copy_char_freq buf head freq ≡ ok (buf', n))
      × (get_char_freq buf' head ≡ ok (freq, head + n, pos (used_chars freq)))
get_char_freq-copy_char_freq freq buf head size table ne fits =
    let (buf', run, c) = copy_char_freq-Copied freq buf head ne fits in
    let u = used_chars freq in
    (
      buf',
      2 + 5 * u,
      run,
      get_char_freq-ok freq buf' head size table c.count c.pairs
          ∙ ap (λ n. ok (freq, n, pos u)) (omega arith),
    )
