-- ===== src/Bytes/Laws.antt =====
-- What stands in a buffer after a write, and what a read of it gives.
use sftt.Base.{
  ℕ, zero, suc, ◌+◌, ◌^◌, ◌≤◌, ◌<◌, ◌≡◌, refl, some, [], ◌∷◌, ◌++◌, length, get_elem?, set, arith,
  ok, ◌∙◌, ap, sym, take, drop, ltb, true, append_assoc, length-append, lt→ltb, length-set,
  get_elem?-set_self, get_elem?-set_ne, All,
}
use sftt.Bytes.{
  Buffer, IsByte, le16, le32, read_byte, read_le16, read_le32, write_bytes, take_bytes,
}

-- `bytes` stand in `buf` from offset `i` on.
abbrev pub HasBytes : Buffer → ℕ → Buffer → Type 0
HasBytes buf i [] = Unit
HasBytes buf i (b ∷ bs) = (get_elem? buf i ≡ some b) × HasBytes buf (i + 1) bs

pub HasBytes-append :
    (buf : Buffer) (i : ℕ) (xs ys : Buffer)
    → HasBytes buf i (xs ++ ys)
    → HasBytes buf i xs × HasBytes buf (i + length xs) ys
HasBytes-append buf i [] ys h = let e : i + 0 ≡ i = omega arith in (tt, rw e h)
HasBytes-append buf i (x ∷ xs) ys h =
    let (one, two) = HasBytes-append buf (i + 1) xs ys h.1 in
    let e : i + suc (length xs) ≡ i + 1 + length xs = omega arith in ((h.0, one), rw e two)

-- The two buffers agree at the offsets from `i` up to `j`.
abbrev pub SameOn : Buffer → Buffer → ℕ → ℕ → Type 0
SameOn buf buf' i j = (k : ℕ) → i ≤ k → k < j → get_elem? buf' k ≡ get_elem? buf k

pub HasBytes-same :
    (buf buf' : Buffer) (i : ℕ) (xs : Buffer)
    → SameOn buf buf' i (i + length xs)
    → HasBytes buf i xs
    → HasBytes buf' i xs
HasBytes-same buf buf' i [] same h = tt
HasBytes-same buf buf' i (x ∷ xs) same h = (
  same i (omega arith) (omega arith) ∙ h.0,
  HasBytes-same buf buf' (i + 1) xs (λ k p q. same k (omega arith) (omega arith)) h.1,
)

pub All-get : (buf : Buffer) (i : ℕ) {b : ℕ} → All IsByte buf → get_elem? buf i ≡ some b → b < 256
All-get [] i h e = let bad : ⊥ = cc in absurd bad
All-get (x ∷ buf) zero h e = ground arith
All-get (x ∷ buf) (suc i) h e = All-get buf i h.1 e

pub All-set : (buf : Buffer) (i v : ℕ) → v < 256 → All IsByte buf → All IsByte (set buf i v)
All-set [] i v lt h = tt
All-set (x ∷ buf) zero v lt h = (lt, h.1)
All-set (x ∷ buf) (suc i) v lt h = (h.0, All-set buf i v lt h.1)

-- What a write that fits does.
pub record Written (buf : Buffer) (i : ℕ) (xs buf' : Buffer) : Type 0 where
  pub size : length buf' ≡ length buf
  pub has : HasBytes buf' i xs
  pub bytes : All IsByte buf → All IsByte xs → All IsByte buf'
  pub low : (k : ℕ) → k < i → get_elem? buf' k ≡ get_elem? buf k
  pub high : (k : ℕ) → i + length xs ≤ k → get_elem? buf' k ≡ get_elem? buf k

pub write_bytes-Written :
    (buf : Buffer) (i : ℕ) (xs : Buffer)
    → i + length xs ≤ length buf
    → (buf' : Buffer) × (write_bytes buf i xs ≡ ok buf') × Written buf i xs buf'
unfolding write_bytes
write_bytes-Written buf i [] fits = (
  buf,
  refl,
  record { size = refl; has = tt; bytes = λ h _. h; low = λ k h. refl; high = λ k h. refl },
)
write_bytes-Written buf i (x ∷ xs) fits =
    let e = length-set buf i x in
    let (buf', run, w) = write_bytes-Written (set buf i x) (i + 1) xs (omega arith) in
    (
      buf',
      rw (lt→ltb i (length buf) (omega arith)) run,
      record {
        size = w.size ∙ e;
        has = (w.low i (omega arith) ∙ get_elem?-set_self buf i x (omega arith), w.has);
        bytes = λ hb hx. w.bytes (All-set buf i x hx.0 hb) hx.1;
        low = λ k h. w.low k (omega arith) ∙ get_elem?-set_ne buf i k x (omega arith);
        high = λ k h. w.high k (omega arith) ∙ get_elem?-set_ne buf i k x (omega arith);
      },
    )

pub read_byte-ok :
    (buf : Buffer) (i : ℕ) {b : ℕ} → get_elem? buf i ≡ some b → read_byte buf i ≡ ok b
unfolding read_byte
read_byte-ok buf i h = rw h

pub read_le16-ok :
    (buf : Buffer) (i n : ℕ) → n < 2 ^ 16 → HasBytes buf i (le16 n) → read_le16 buf i ≡ ok n
unfolding read_le16
read_le16-ok buf i n lt h =
    rw (read_byte-ok buf i h.0, read_byte-ok buf (i + 1) h.1.0) (ap ok (omega arith))

pub read_le32-ok :
    (buf : Buffer) (i n : ℕ) → n < 2 ^ 32 → HasBytes buf i (le32 n) → read_le32 buf i ≡ ok n
unfolding read_le32
read_le32-ok buf i n lt h =
    let e2 : i + 1 + 1 ≡ i + 2 = omega arith in
    let e3 : i + 1 + 1 + 1 ≡ i + 3 = omega arith in
    rw
      (
        read_byte-ok buf i h.0,
        read_byte-ok buf (i + 1) h.1.0,
        read_byte-ok buf (i + 2) (rw e2 at h.1.1.0),
        read_byte-ok buf (i + 3) (rw e3 at h.1.1.1.0),
      )
      (ap ok (omega arith))

pub take_bytes-all : (buf : Buffer) → take_bytes (length buf) buf ≡ ok buf
unfolding take_bytes
take_bytes-all [] = refl
take_bytes-all (b ∷ bs) = rw (take_bytes-all bs) refl

-- What is taken of a buffer that is long enough is how it begins.
pub take_bytes-ok :
    (n : ℕ) (buf : Buffer)
    → n ≤ length buf
    → (xs rest : Buffer) × (take_bytes n buf ≡ ok xs) × (length xs ≡ n) × (xs ++ rest ≡ buf)
unfolding take_bytes
take_bytes-ok zero buf fits = ([], buf, refl, refl, refl)
take_bytes-ok (suc n) [] fits = absurd (omega arith)
take_bytes-ok (suc n) (b ∷ bs) fits =
    let (xs, rest, run, size, whole) = take_bytes-ok n bs (omega arith) in
    (b ∷ xs, rest, rw run refl, ap suc size, ap (λ t. b ∷ t) whole)

pub take_bytes-take : (n : ℕ) (buf : Buffer) → n ≤ length buf → take_bytes n buf ≡ ok (take n buf)
unfolding take_bytes
take_bytes-take zero buf fits = refl
take_bytes-take (suc n) [] fits = absurd (omega arith)
take_bytes-take (suc n) (b ∷ bs) fits = rw (take_bytes-take n bs (omega arith)) refl

set-append :
    (p : Buffer) (x y : ℕ) (q : Buffer) → set (p ++ y ∷ q) (length p) x ≡ (p ++ x ∷ []) ++ q
set-append [] x y q = refl
set-append (z ∷ p) x y q = ap (λ t. z ∷ t) (set-append p x y q)

-- A write that fits, into a buffer that is split where it begins.
pub write_bytes-append :
    (xs p q : Buffer)
    → length xs ≤ length q
    → write_bytes (p ++ q) (length p) xs ≡ ok (p ++ (xs ++ drop (length xs) q))
unfolding write_bytes
write_bytes-append [] p q fits = refl
write_bytes-append (x ∷ xs) p [] fits = absurd (omega arith)
write_bytes-append (x ∷ xs) p (y ∷ q) fits =
    let l : length (p ++ x ∷ []) ≡ length p + 1 = length-append p (x ∷ []) in
    let whole : length (p ++ y ∷ q) ≡ length p + length (y ∷ q) = length-append p (y ∷ q) in
    let below : ltb (length p) (length (p ++ y ∷ q)) ≡ true = lt→ltb _ _ (omega arith) in
    rw (below, set-append p x y q, sym l)
      (write_bytes-append xs (p ++ x ∷ []) q (omega arith)
        ∙ ap ok (append_assoc p (x ∷ []) (xs ++ drop (length xs) q)))
