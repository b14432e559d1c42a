-- ===== src/Huffman/Freq/Count.antt =====
-- What the frequency table of an input holds.
use sftt.Base.{
  ℕ, zero, suc, ◌+◌, ◌%◌, ◌^◌, ◌<◌, ◌≡◌, refl, inl, inr, some, List, [], ◌∷◌, length, get_elem?,
  get_or, set, replicate, arith, ◌∙◌, ap, All, ◌==◌, Bool-cases, length-set, get_elem?-set_self,
  get_elem?-set_ne, ==→eq, sym,
}
use sftt.Base.Count.{count}
use sftt.Bytes.{IsByte}
use sftt.Huffman.Tree.{charset_size}
use sftt.Huffman.Freq.{FreqTable, no_freq, count_chars}

get_or-get_elem? : (xs : List ℕ) (i : ℕ) {a : ℕ} → get_elem? xs i ≡ some a → get_or xs i 0 ≡ a
get_or-get_elem? [] i e = let bad : ⊥ = cc in absurd bad
get_or-get_elem? (x ∷ xs) zero e = cc
get_or-get_elem? (x ∷ xs) (suc i) e = get_or-get_elem? xs i e

pub length-count_chars :
    (freq : FreqTable) (bs : List ℕ) → length (count_chars freq bs) ≡ length freq
unfolding count_chars
length-count_chars freq [] = refl
length-count_chars freq (b ∷ bs) =
    length-count_chars (set freq b ((get_or freq b 0 + 1) % 2 ^ 32)) bs ∙ length-set freq b _

-- An entry grows by the number of times its char occurs.
pub count_chars-count :
    (freq : FreqTable) (bs : List ℕ) (c n : ℕ) {f : ℕ}
    → get_elem? freq c ≡ some f
    → f + length bs < 2 ^ 32
    → length freq ≡ n
    → All (λ b. b < n) bs
    → get_elem? (count_chars freq bs) c ≡ some (f + count c bs)
unfolding count_chars
count_chars-count freq [] c n {f} e lt size h = e ∙ ap some (omega arith)
count_chars-count freq (b ∷ bs) c n {f} e lt size h = elim (Bool-cases (c == b)) [
  | inl same ↦
      let cb : c ≡ b = ==→eq c b same in
      let old : get_or freq b 0 ≡ f = get_or-get_elem? freq b (ap (get_elem? freq) (sym cb) ∙ e) in
      let stored : get_elem? (set freq b ((get_or freq b 0 + 1) % 2 ^ 32)) c ≡ some (f + 1) =
        ap (get_elem? (set freq b ((get_or freq b 0 + 1) % 2 ^ 32))) cb
        ∙ get_elem?-set_self freq b _ (omega arith)
        ∙ ap some (omega (arith, old)) in
      count_chars-count (set freq b ((get_or freq b 0 + 1) % 2 ^ 32)) bs c n stored (omega arith)
        (length-set freq b _ ∙ size) h.1
      ∙ ap some (rw same (omega arith))
  | inr other ↦
      count_chars-count (set freq b ((get_or freq b 0 + 1) % 2 ^ 32)) bs c n
        (get_elem?-set_ne freq b c _ (ground arith) ∙ e) (omega arith) (length-set freq b _ ∙ size)
        h.1
      ∙ ap some (rw other (omega arith))
]

pub get_elem?-replicate : (n i a : ℕ) → i < n → get_elem? (replicate n a) i ≡ some a
get_elem?-replicate zero i a h = absurd (omega arith)
get_elem?-replicate (suc n) zero a h = refl
get_elem?-replicate (suc n) (suc i) a h = get_elem?-replicate n i a (omega arith)

-- The entries are 32-bit patterns.
abbrev pub IsTable : FreqTable → Type 0
IsTable = All (λ f. f < 2 ^ 32)

IsTable-set : (freq : FreqTable) (i v : ℕ) → v < 2 ^ 32 → IsTable freq → IsTable (set freq i v)
IsTable-set [] i v lt h = tt
IsTable-set (x ∷ xs) zero v lt h = (lt, h.1)
IsTable-set (x ∷ xs) (suc i) v lt h = (h.0, IsTable-set xs i v lt h.1)

pub count_chars-IsTable :
    (freq : FreqTable) (bs : List ℕ) → IsTable freq → IsTable (count_chars freq bs)
unfolding count_chars
count_chars-IsTable freq [] h = h
count_chars-IsTable freq (b ∷ bs) h =
    count_chars-IsTable (set freq b ((get_or freq b 0 + 1) % 2 ^ 32)) bs
      (IsTable-set freq b _ (omega arith) h)

pub replicate-IsTable : (n : ℕ) → IsTable (replicate n 0)
replicate-IsTable zero = tt
replicate-IsTable (suc n) = (omega arith, replicate-IsTable n)

-- Of an input of fewer than 2 ^ 32 bytes, the table holds the number of times each char occurs.
pub input_freq :
    (input : List ℕ) (c : ℕ)
    → All IsByte input
    → length input < 2 ^ 32
    → c < charset_size
    → get_elem? (count_chars no_freq input) c ≡ some (count c input)
input_freq input c bytes lt hc =
    count_chars-count no_freq input c charset_size (get_elem?-replicate charset_size c 0 hc)
      (omega arith) refl bytes
    ∙ ap some (omega arith)
