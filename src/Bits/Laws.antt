-- ===== src/Bits/Laws.antt =====
-- Reading a bit of a byte after writing one, from tables over all bytes and positions.
use sftt.Base.{
  ℕ, zero, suc, ◌+◌, ◌-◌, ◌<◌, ◌≤◌, ◌≡◌, refl, ◌≢◌, Bool, true, ◌&&◌, ◌||◌, arith, ltb, ltb→lt,
  ◌==◌, ==→eq, ne→==,
}
use sftt.Bits.{set_bit, get_bit}

-- The test `p` at each number under a bound, the largest one last.
passes : (ℕ → Bool) → ℕ → Bool
passes p zero = true
passes p (suc bound) = passes p bound && p bound

passes_lem : (p : ℕ → Bool) (bound k : ℕ) → k < bound → passes p bound ≡ true → p k ≡ true
unfolding passes
passes_lem p zero k below all = absurd (omega (arith, below))
passes_lem p (suc bound) k below all = ground (arith, passes_lem p bound k)

same_at : ℕ → ℕ → ℕ → ℕ → Bool
same_at b i ch j = (i == j) || (get_bit (set_bit ch (i + 1) b) (j + 1) == get_bit ch (j + 1))

-- Everything that is claimed of the byte `ch`, the position `i + 1` and the bit `b`.
holds : ℕ → ℕ → ℕ → Bool
unfolding same_at
holds b i ch =
    ltb (set_bit ch (i + 1) b) 256
    && (get_bit (set_bit ch (i + 1) b) (i + 1) == b && passes (same_at b i ch) 8)

table : passes (λ b. passes (λ i. passes (holds b i) 256) 8) 2 ≡ true
unfolding passes holds set_bit get_bit
table = refl

holds_lem : (b i ch : ℕ) → b < 2 → i < 8 → ch < 256 → holds b i ch ≡ true
holds_lem b i ch hb hi hc = passes_lem (holds b i) 256 ch hc (
    passes_lem (λ i. passes (holds b i) 256) 8 i hi
      (passes_lem (λ b. passes (λ i. passes (holds b i) 256) 8) 2 b hb table))

and_parts : (a b : Bool) → (a && b) ≡ true → (a ≡ true) × (b ≡ true)
and_parts a b h = ground arith

module _ (b i ch : ℕ) (hb : b < 2) (hi : i < 8) (hc : ch < 256) where
  claims :
      (ltb (set_bit ch (i + 1) b) 256 ≡ true)
      × ((get_bit (set_bit ch (i + 1) b) (i + 1) == b) ≡ true)
      × (passes (same_at b i ch) 8 ≡ true)
  unfolding holds
  claims =
      let (one, rest) =
        and_parts (ltb (set_bit ch (i + 1) b) 256)
          ((get_bit (set_bit ch (i + 1) b) (i + 1) == b) && passes (same_at b i ch) 8)
          (holds_lem b i ch hb hi hc) in
      let (two, three) =
        and_parts ((get_bit (set_bit ch (i + 1) b) (i + 1) == b)) (passes (same_at b i ch) 8)
          rest in
      (one, two, three)

  get_bit-set_bit_off :
      (j : ℕ) → j < 8 → i ≢ j → get_bit (set_bit ch (i + 1) b) (j + 1) ≡ get_bit ch (j + 1)
  unfolding same_at
  get_bit-set_bit_off j hj ne =
      ==→eq _ _ (rw (ne→== i j ne) at (passes_lem (same_at b i ch) 8 j hj (claims.2)))

module _ (ch pos b : ℕ) (hc : ch < 256) (hp : 0 < pos) (hp8 : pos ≤ 8) (hb : b < 2) where
  back : pos - 1 + 1 ≡ pos
  back = omega arith

  pub set_bit-lt : set_bit ch pos b < 256
  set_bit-lt = rw back at (ltb→lt _ _ ((claims b (pos - 1) ch hb (omega arith) hc).0))

  -- The bit that is stored at a position from 1 to 8 of a byte is read there.
  pub get_bit-set_bit : get_bit (set_bit ch pos b) pos ≡ b
  get_bit-set_bit = rw back at (==→eq _ _ ((claims b (pos - 1) ch hb (omega arith) hc).1))

  pub get_bit-set_bit_ne :
      (q : ℕ) → 0 < q → q ≤ 8 → pos ≢ q → get_bit (set_bit ch pos b) q ≡ get_bit ch q
  get_bit-set_bit_ne q hq hq8 ne =
      let e : q - 1 + 1 ≡ q = omega arith in
      rw (back, e) at
        (get_bit-set_bit_off b (pos - 1) ch hb (omega arith) hc (q - 1) (omega arith) (omega arith))
