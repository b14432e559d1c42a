-- ===== src/Md5/Digest.antt =====
-- What `MD5Final` gives, and the digests of files and strings.
use sftt.Base.{
  ℕ, zero, suc, ◌+◌, ◌*◌, ◌-◌, ◌/◌, ◌%◌, ◌^◌, ◌<◌, ◌≤◌, ◌≡◌, refl, [], ◌∷◌, ◌++◌, length,
  length-append, length-replicate, take, replicate, arith, ap, sym, ◌∙◌, if◌then◌else◌, ltb, ltb→lt,
  Bool-cases, inl, inr, drop, length-drop, take-drop, ok,
}
use sftt.Bytes.{Buffer, le32, take_bytes}
use sftt.Bytes.Laws.{take_bytes-take}
use sftt.Md5.Transform.{md5_encode}
use sftt.Md5.{start, padding, md5_final, update_blocks, block_size}
use sftt.Md5.Machine.{
  Machine, machine, absorb, absorb-append, absorb-over_blocks, over_blocks, pad_size, pad, padded,
  digest_of,
}
use sftt.Md5.Stream.{ctx_at, Fits, md5_update-Took}

take-replicate : {A : Type 0} (n k : ℕ) (a : A) → n ≤ k → take n (replicate k a) ≡ replicate n a
take-replicate zero k a le = refl
take-replicate (suc n) zero a le = absurd (omega arith)
take-replicate (suc n) (suc k) a le = ap (λ t. a ∷ t) (take-replicate n k a (omega arith))

take-padding : (k : ℕ) → 1 ≤ k → k ≤ 64 → take k padding ≡ 0x80 ∷ replicate (k - 1) 0
take-padding zero low high = absurd (omega arith)
take-padding (suc k) low high =
    let e : suc k - 1 ≡ k = omega arith in
    rw e (ap (λ t. 0x80 ∷ t) (take-replicate k 63 0 (omega arith)))

le32_mod : (w : ℕ) → le32 (w % 2 ^ 32) ≡ le32 w
le32_mod w =
    let a : w % 2 ^ 32 % 256 ≡ w % 256 = omega arith in
    let b : w % 2 ^ 32 / 256 % 256 ≡ w / 256 % 256 = omega arith in
    let c : w % 2 ^ 32 / 65536 % 256 ≡ w / 65536 % 256 = omega arith in
    let d : w % 2 ^ 32 / 16777216 % 256 ≡ w / 16777216 % 256 = omega arith in rw (a, b, c, d) refl

bits_is :
    (n : ℕ)
    → md5_encode (n * 8 % 2 ^ 32 ∷ n / 2 ^ 29 % 2 ^ 32 ∷ []) ≡ le32 (n * 8) ++ le32 (n / 2 ^ 29)
bits_is n =
    ap (λ t. t ++ le32 (n / 2 ^ 29 % 2 ^ 32)) (le32_mod (n * 8))
    ∙ ap (λ t. le32 (n * 8) ++ t) (le32_mod (n / 2 ^ 29))

-- The size of the padding as `MD5Final` computes it.
pad_size_bounds : (n : ℕ) → (1 ≤ pad_size n) × (pad_size n ≤ 64)
pad_size_bounds n = (ground arith, ground arith)

pad_size_fills : (n : ℕ) → (n + pad_size n + 8) % 64 ≡ 0
pad_size_fills n = ground arith

length-padded :
    (message : Buffer) → length (padded message) ≡ length message + pad_size (length message) + 8
length-padded message =
    let n = length message in
    let (one, most) = pad_size_bounds n in
    let a = length-append message (pad n) in
    let b = length-append (replicate (pad_size n - 1) 0) (le32 (n * 8) ++ le32 (n / 2 ^ 29)) in
    let c : length {A = ℕ} (replicate (pad_size n - 1) 0) ≡ pad_size n - 1 =
      length-replicate (pad_size n - 1) 0 in
    omega arith

absorb-padded :
    (message : Buffer)
    → absorb (machine start []) (padded message)
      ≡ machine (over_blocks (length (padded message) / 64) start (padded message)) []
absorb-padded message =
    let l = length-padded message in
    let f = pad_size_fills (length message) in
    absorb-over_blocks (length (padded message) / 64) start (padded message) (omega arith)

-- The context that has taken a message, and `MD5Final`.
module _ (message free : Buffer)
    (fits : Fits (length message) (absorb (machine start []) message) free) where
  abbrev padlen : ℕ → ℕ
  padlen index = if ltb index 56 then 56 - index else 120 - index

  abbrev taken : Machine
  taken = absorb (machine start []) message

  pub md5_final-digest_of : md5_final (ctx_at (length message) taken free) ≡ ok (digest_of message)
  unfolding md5_final digest_of
  md5_final-digest_of =
      let n = length message in
      let index : n * 8 % 2 ^ 32 / 8 % 64 ≡ n % 64 = omega arith in
      let (one, most) = pad_size_bounds n in
      let front = 0x80 ∷ replicate (pad_size n - 1) 0 in
      let bits = le32 (n * 8) ++ le32 (n / 2 ^ 29) in
      let (free1, run1, fits1) = md5_update-Took n taken.state taken.pending free front fits in
      let m1 = absorb taken front in
      let (free2, run2, fits2) =
        md5_update-Took (n + length front) m1.state m1.pending free1 bits fits1 in
      let e : absorb m1 bits
          ≡ machine (over_blocks (length (padded message) / 64) start (padded message)) [] =
        sym (absorb-append front bits taken)
        ∙ sym (absorb-append message (pad n) (machine start []))
        ∙ absorb-padded message in
      let got : take_bytes (padlen (n * 8 % 2 ^ 32 / 8 % 64)) padding ≡ ok front =
        ap (λ i. take_bytes (padlen i) padding) index
        ∙ take_bytes-take (pad_size n) padding most
        ∙ ap ok (take-padding (pad_size n) one most) in
      rw (got, bits_is n, run1, run2, e) refl

-- The loop over the blocks of a file or a string.
take_short : (n : ℕ) (xs : Buffer) → length (take n xs) < n → take n xs ≡ xs
take_short zero xs h = absurd (omega arith)
take_short (suc n) [] h = refl
take_short (suc n) (x ∷ xs) h = ap (λ t. x ∷ t) (take_short n xs (omega arith))

pub update_blocks-Took :
    (fuel n : ℕ) (m : Machine) (free rest : Buffer)
    → length rest < fuel
    → Fits n m free
    → (free' : Buffer) × (update_blocks fuel (ctx_at n m free) rest
        ≡ ok (ctx_at (n + length rest) (absorb m rest) free'))
      × Fits (n + length rest) (absorb m rest) free'
unfolding update_blocks
update_blocks-Took zero n m free rest h fits = absurd (omega arith)
update_blocks-Took (suc fuel) n m free rest h fits =
    elim (Bool-cases (ltb (length (take block_size rest)) block_size)) [
      | inl last ↦
          let e = take_short block_size rest (ltb→lt _ _ last) in
          let last' = rw e at last in
          let (free', run, fits') = md5_update-Took n m.state m.pending free rest fits in
          (free', rw (e, run, last') refl, fits')
      | inr full ↦
          let block = take block_size rest in
          let later = drop block_size rest in
          let (free1, run1, fits1) = md5_update-Took n m.state m.pending free block fits in
          let left = length-drop block_size rest in
          let size = length-append block later in
          let whole = take-drop block_size rest in
          let size' : length (block ++ later) ≡ length rest = ap length whole in
          let some_left : 1024 ≤ length block = ground arith in
          let (free2, run2, fits2) =
            update_blocks-Took fuel (n + length block) (absorb m block) free1 later (omega arith)
              fits1 in
          let total : n + length block + length later ≡ n + length rest = omega arith in
          let e : absorb (absorb m block) later ≡ absorb m rest =
            sym (absorb-append block later m) ∙ ap (absorb m) whole in
          (free2, rw (run1, full, run2, total, e) refl, rw (total, e) at fits2)
    ]
