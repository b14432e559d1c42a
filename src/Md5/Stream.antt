-- ===== src/Md5/Stream.antt =====
-- `MD5Update` and `MD5Final` as steps of the machine that takes one byte at a time.
use sftt.Base.{
  ℕ, zero, suc, ◌+◌, ◌*◌, ◌-◌, ◌/◌, ◌%◌, ◌^◌, ◌<◌, ◌≤◌, ◌≡◌, refl, inl, inr, [], ◌++◌, append_assoc,
  append-nil, length, length-append, take, drop, drop_all, take-drop, length-take, length-drop,
  drop-drop, arith, ap, sym, ◌∙◌, ltb, leb, if◌then◌else◌, Bool-cases, Result, ok,
}
use sftt.Bytes.{Buffer, write_bytes}
use sftt.Bytes.Laws.{take_bytes-take, write_bytes-append}
use sftt.Md5.Transform.{State, md5_transform}
use sftt.Md5.{Md5Ctx, whole_blocks, index_of, add_count, keep_rest, fill_buffer, md5_update}
use sftt.Md5.Machine.{Machine, machine, absorb, absorb-append, absorb_few, absorb_block}

-- What is left of the input at `j` where the loop over whole blocks ends.
record Ended (s : State) (input : Buffer) (i : ℕ) (t : State) (j : ℕ) : Type 0 where
  bound : j ≤ length input
  few : length input < j + 64
  blocks : (q : ℕ) × (j ≡ i + 64 * q)
  same : absorb (machine s []) (drop i input) ≡ absorb (machine t []) (drop j input)

whole_blocks-Ended :
    (fuel : ℕ) (s : State) (input : Buffer) (i : ℕ)
    → i ≤ length input
    → length input < fuel + i
    → (t : State) × (j : ℕ) × (whole_blocks fuel s input i ≡ ok (t, j)) × Ended s input i t j
unfolding whole_blocks
whole_blocks-Ended zero s input i le h = absurd (omega arith)
whole_blocks-Ended (suc fuel) s input i le h = elim (Bool-cases (leb (i + 64) (length input))) [
  | inl more ↦
      let here = drop i input in
      let fits : i + 64 ≤ length input = ground arith in
      let size = length-drop i input in
      let (t, j, run, ended) =
        whole_blocks-Ended fuel (md5_transform s (take 64 here)) input (i + 64) fits
          (omega arith) in
      let block = length-take 64 here (omega arith) in
      (
        t,
        j,
        rw (more, take_bytes-take 64 here (omega arith)) run,
        record {
          bound = ended.bound;
          few = ended.few;
          blocks = let (q, e) = ended.blocks in (suc q, omega arith);
          same =
              ap (absorb (machine s [])) (sym (take-drop 64 here))
              ∙ absorb-append (take 64 here) (drop 64 here) (machine s [])
              ∙ ap (λ m. absorb m (drop 64 here))
                  (absorb_block (take 64 here) s [] (omega arith) (omega arith))
              ∙ ap (absorb (machine (md5_transform s (take 64 here)) [])) (drop-drop i 64 input)
              ∙ ended.same;
        },
      )
  | inr over ↦ (
    s,
    i,
    rw over refl,
    record { bound = le; few = ground arith; blocks = (0, omega arith); same = refl },
  )
]

-- The context that has taken `n` bytes and stands where the machine stands; `free` is the part of
-- the buffer that is not in use.
abbrev pub ctx_at : ℕ → Machine → Buffer → Md5Ctx
ctx_at n m free = record {
  count0 = n * 8 % 2 ^ 32;
  count1 = n / 2 ^ 29 % 2 ^ 32;
  state = m.state;
  buffer = m.pending ++ free;
}

pub record Fits (n : ℕ) (m : Machine) (free : Buffer) : Type 0 where
  pub used : length m.pending ≡ n % 64
  pub size : length m.pending + length free ≡ 64

add_count-ctx_at :
    (n k : ℕ) (m m' : Machine) (free free' : Buffer)
    → record (add_count (ctx_at n m free) k) { state = m'.state; buffer = m'.pending ++ free' }
      ≡ ctx_at (n + k) m' free'
unfolding add_count
add_count-ctx_at n k m m' free free' =
    let low : (n * 8 % 2 ^ 32 + k * 8 % 2 ^ 32) % 2 ^ 32 ≡ (n + k) * 8 % 2 ^ 32 = omega arith in
    let high : (n / 2 ^ 29 % 2 ^ 32
            + (if ltb ((n * 8 % 2 ^ 32 + k * 8 % 2 ^ 32) % 2 ^ 32) (k * 8 % 2 ^ 32) then 1 else 0)
            + k / 2 ^ 29)
          % 2 ^ 32
        ≡ (n + k) / 2 ^ 29 % 2 ^ 32 =
      ground arith in
    let go : (a b : ℕ)
        → a ≡ (n + k) * 8 % 2 ^ 32
        → b ≡ (n + k) / 2 ^ 29 % 2 ^ 32
        → ◌≡◌ {A = Md5Ctx}
            (record { count0 = a; count1 = b; state = m'.state; buffer = m'.pending ++ free' })
            (ctx_at (n + k) m' free') =
      λ a b x y. rw (x, y) refl in
    go _ _ low high

module _ (n : ℕ) (s : State) (p free xs : Buffer) (fits : Fits n (machine s p) free) where
  -- What a run that takes `xs` leaves.
  abbrev pub Took : Result Md5Ctx → Type 0
  Took run =
      (free' : Buffer) × (run ≡ ok (ctx_at (n + length xs) (absorb (machine s p) xs) free'))
      × Fits (n + length xs) (absorb (machine s p) xs) free'

  abbrev counted : Md5Ctx
  counted = add_count (ctx_at n (machine s p) free) (length xs)

  index_is : index_of (ctx_at n (machine s p) free) ≡ length p
  index_is = let used = fits.used in omega arith

  keep_rest-Took : length p + length xs < 64 → Took (keep_rest counted s (length p) xs)
  unfolding keep_rest add_count
  keep_rest-Took few =
      let free' = drop (length xs) free in
      let size = fits.size in
      let used = fits.used in
      let left = length-drop (length xs) free in
      let longer = length-append p xs in
      let e = absorb_few xs s p few in
      (
        free',
        rw (write_bytes-append xs p free (omega arith), e, sym (append_assoc p xs free'))
            (ap ok (add_count-ctx_at n (length xs) (machine s p) (machine s (p ++ xs)) free free')),
        rw e (record { used = omega arith; size = omega arith }),
      )

  fill_buffer-Took : 64 ≤ length p + length xs → Took (fill_buffer counted (length p) xs)
  unfolding fill_buffer keep_rest add_count
  fill_buffer-Took enough =
      let used = fits.used in
      let size = fits.size in
      let k = 64 - length p in
      let part = take k xs in
      let len = length-take k xs (omega arith) in
      let none_left = drop_all (length part) free (omega arith) in
      let written : write_bytes (p ++ free) (length p) part ≡ ok (p ++ part) =
        write_bytes-append part p free (omega arith)
        ∙ ap (λ t. ok (p ++ (part ++ t))) none_left
        ∙ ap (λ t. ok (p ++ t)) (append-nil part) in
      let (t, j, run, ended) =
        whole_blocks-Ended (suc (length xs)) (md5_transform s (p ++ part)) xs k (omega arith)
          (omega arith) in
      let (q, at) = ended.blocks in
      let bound = ended.bound in
      let few = ended.few in
      let rest = drop j xs in
      let left = length-drop j xs in
      let both = length-append p part in
      let free' = drop (length rest) (p ++ part) in
      let left' = length-drop (length rest) (p ++ part) in
      let kept : write_bytes (p ++ part) 0 rest ≡ ok (rest ++ free') =
        write_bytes-append rest [] (p ++ part) (omega arith) in
      let e : absorb (machine s p) xs ≡ machine t rest =
        ap (absorb (machine s p)) (sym (take-drop k xs))
        ∙ absorb-append part (drop k xs) (machine s p)
        ∙ ap (λ m. absorb m (drop k xs)) (absorb_block part s p (omega arith) (omega arith))
        ∙ ended.same
        ∙ absorb_few rest t [] (omega arith) in
      (
        free',
        rw (take_bytes-take k xs (omega arith), written, run, kept, e)
            (ap ok (add_count-ctx_at n (length xs) (machine s p) (machine t rest) free free')),
        rw e (record { used = omega arith; size = omega arith }),
      )

  -- A call of `MD5Update` stays inside its arrays, and takes the input as the machine does.
  pub md5_update-Took : Took (md5_update (ctx_at n (machine s p) free) xs)
  unfolding md5_update
  md5_update-Took = elim (Bool-cases (leb (64 - length p) (length xs))) [
    | inl full ↦ rw (index_is, full) (fill_buffer-Took (let size = fits.size in ground arith))
    | inr less ↦ rw (index_is, less) (keep_rest-Took (ground arith))
  ]
