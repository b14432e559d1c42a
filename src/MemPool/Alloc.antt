-- ===== src/MemPool/Alloc.antt =====
-- What a caller gets from `mp_malloc`, and which nodes it leaves alone.
use sftt.Base.{
  ℕ, zero, suc, ◌≤◌, ◌≡◌, ◌≢◌, refl, true, false, inl, inr, Option, some, List, [], ◌∷◌, length,
  replicate, length-replicate, arith, ◌∙◌, sym, subst, ne→==, eq_refl,
}
use sftt.Bytes.{Buffer}
use sftt.MemPool.{
  MemNode, MemPool, grab, bzero, fits, reuse, enlarge, mp_malloc, malloc_found, mem_node_create,
  node_at,
}
use sftt.MemPool.Nodes.{
  In, node_at-In, node_at-set_node, node_at-set_node_ne, All_In, node_at-total,
}
use sftt.MemPool.Fit.{BestFit, best_fit-BestFit, true_not_false}
use sftt.MemPool.Invariant.{IsValid, IsFresh, idle_of_fits}

-- The first `n` bytes are there, and are 0.
abbrev pub IsZeroed : ℕ → Buffer → Type 0
IsZeroed zero bs = Unit
IsZeroed (suc n) [] = ⊥
IsZeroed (suc n) (b ∷ bs) = (b ≡ 0) × IsZeroed n bs

bzero-IsZeroed : (n : ℕ) (bs : Buffer) → n ≤ length bs → IsZeroed n (bzero n bs)
unfolding bzero
bzero-IsZeroed zero bs h = tt
bzero-IsZeroed (suc n) [] h = absurd (omega arith)
bzero-IsZeroed (suc n) (b ∷ bs) h = (refl, bzero-IsZeroed n bs (omega arith))

-- The memory at the address `a`, which nobody had before, belongs to `purpose`.
pub record Given (mp : MemPool) (purpose : List ℕ) (n : ℕ) (mp' : MemPool) (a : ℕ) : Type 0 where
  pub not_null : a ≢ 0
  pub node : MemNode
  pub found : node_at a mp'.nodes ≡ some node
  pub in_use : node.is_using ≡ true
  pub purposed : node.purpose ≡ purpose
  pub room : n ≤ node.size
  pub zeroed : IsZeroed n node.bytes
  pub was_free : (p : MemNode) → node_at a mp.nodes ≡ some p → p.is_using ≡ false
  pub others : (b : ℕ) → a ≢ b → node_at b mp'.nodes ≡ node_at b mp.nodes

reuse-Given :
    (mp : MemPool) (purpose : List ℕ) (n : ℕ) (m : MemNode)
    → IsValid mp
    → BestFit n mp.nodes m
    → Given mp purpose n (reuse mp purpose n m) m.address
unfolding reuse grab
reuse-Given mp purpose n m v b =
    let here = node_at-In m mp.nodes b.among (v.distinct m.address) in
    let fit = b.fit in
    let room : n ≤ m.size = ground arith in
    let size : length m.bytes ≡ m.size =
      All_In (λ p. length p.bytes ≡ p.size) mp.nodes m v.filled b.among in
    record {
      not_null = All_In (λ p. p.address ≢ 0) mp.nodes m v.not_null b.among;
      node = grab purpose n m;
      found = node_at-set_node m.address (grab purpose n) (λ p. refl) mp.nodes m here;
      in_use = refl;
      purposed = refl;
      room = room;
      zeroed = bzero-IsZeroed n m.bytes (omega (arith, room, size));
      was_free = λ p e.
          let same : m ≡ p = cc in subst (λ q. q.is_using ≡ false) same (idle_of_fits n m b.fit);
      others = λ b ne. node_at-set_node_ne m.address (grab purpose n) (λ p. refl) mp.nodes b ne;
    }

enlarge-Given :
    (mp : MemPool) (purpose : List ℕ) (n a : ℕ)
    → IsFresh a mp
    → Given mp purpose n (enlarge mp purpose n a) a
unfolding enlarge grab mem_node_create node_at
enlarge-Given mp purpose n a fresh = record {
  not_null = fresh.not_null;
  node = grab purpose n (mem_node_create n a);
  found = rw (eq_refl a) refl;
  in_use = refl;
  purposed = refl;
  room = omega arith;
  zeroed = bzero-IsZeroed n (replicate n 0) (omega (arith, length-replicate {A = ℕ} n 0));
  was_free = λ p e. absurd (node_at-total a mp.nodes p e fresh.unused);
  others = λ b ne. rw (ne→== a b ne) refl;
}

-- In a valid pool, a request of at least one byte, where the system's `malloc` gives a fresh address, is met: the
-- memory returned was not in use, is marked as in use, has room for the bytes asked for, which are
-- 0, and every other node is as before.
pub mp_malloc-Given :
    (mp : MemPool) (purpose : List ℕ) (n fresh : ℕ)
    → IsValid mp
    → n ≢ 0
    → IsFresh fresh mp
    → Given mp purpose n
        (mp_malloc mp purpose n (some fresh)).0
        (mp_malloc mp purpose n (some fresh)).1
unfolding mp_malloc malloc_found
mp_malloc-Given mp purpose n fresh v ne new =
    rw (ne→== n 0 ne) (elim (best_fit-BestFit n mp.nodes) [
      | inl (nothing, _) ↦ rw nothing (enlarge-Given mp purpose n fresh new)
      | inr (m, found, b) ↦ rw found (reuse-Given mp purpose n m v b)
    ])

-- For a request of at least one byte, a node that is free and has room is enough for `mp_malloc` not to enlarge the pool; the node taken
-- is one of the smallest that are free and have room.
pub mp_malloc-reuses :
    (mp : MemPool) (purpose : List ℕ) (n : ℕ) (fresh : Option ℕ) (p : MemNode)
    → n ≢ 0
    → In p mp.nodes
    → fits n p ≡ true
    → (m : MemNode) × BestFit n mp.nodes m
      × (mp_malloc mp purpose n fresh ≡ (reuse mp purpose n m, m.address))
unfolding mp_malloc malloc_found
mp_malloc-reuses mp purpose n fresh p ne among fit = elim (best_fit-BestFit n mp.nodes) [
  | inl (nothing, others) ↦ let unfit = others p among in absurd (true_not_false (sym fit ∙ unfit))
  | inr (m, found, b) ↦ (m, b, rw (ne→== n 0 ne, found) refl)
]
