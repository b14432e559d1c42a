-- ===== src/MemPool/Free.antt =====
-- What `mp_free` does to the pool.
use sftt.Base.{
  ℕ, ◌+◌, ◌<◌, ◌≡◌, ◌≢◌, refl, true, false, inl, inr, some, List, [], ◌∷◌, arith, ap, ◌∙◌, sym,
  subst, All, ◌==◌, Bool-cases, Option-cases, ok, ne→==, ==→eq,
}
use sftt.MemPool.{
  MemNode, PurposeNode, MemPool, set_node, release, node_at, free_found, give_back, mp_free,
}
use sftt.MemPool.Nodes.{
  total, at, total-set_node, length-set_node, All-set_node, node_at-address, node_at-set_node,
  node_at-set_node_ne,
}
use sftt.MemPool.Purpose.{tally, sub_purpose-ok, same_string_refl}
use sftt.MemPool.Invariant.{IsValid, using, using_for, size_of}

-- A free of the node `m`, which is in use.
module _ (mp : MemPool) (v : IsValid mp) (m : MemNode) (in_use : m.is_using ≡ true)
    (found : node_at m.address mp.nodes ≡ some m) where
  sum_release :
      (f : MemNode → ℕ)
      → total f (set_node m.address release mp.nodes) + f m ≡ total f mp.nodes + f (release m)
  sum_release f = total-set_node m.address release f mp.nodes m found

  is_tallied : 0 < tally m.purpose mp.purposes
  is_tallied =
      let one : using_for m.purpose m ≡ 1 = rw (in_use, same_string_refl m.purpose) refl in
      omega (arith, v.tallied m.purpose, sum_release (using_for m.purpose), one)

  release-IsValid :
      (qs : List PurposeNode) × (free_found mp (some m) ≡ ok (give_back mp m qs))
      × IsValid (give_back mp m qs)
  unfolding free_found give_back
  release-IsValid =
      let (qs, run, counted, tallied) = sub_purpose-ok mp.purposes m.purpose v.counted is_tallied in
      let size = length-set_node m.address release mp.nodes in
      let uses : total using (set_node m.address release mp.nodes) + 1 ≡ total using mp.nodes =
        omega (arith, rw in_use at sum_release using) in
      (
        qs,
        rw (in_use, run) refl,
        record {
          nodes_counted = v.nodes_counted ∙ sym size;
          sizes_added = omega (arith, v.sizes_added, sum_release size_of);
          using_counted = omega (arith, v.using_counted, uses);
          others_free = omega (arith, v.others_free, v.using_counted, uses);
          distinct = λ a. omega (arith, v.distinct a, sum_release (at a));
          not_null = All-set_node m.address release mp.nodes (λ p h. h) v.not_null;
          filled = All-set_node m.address release mp.nodes (λ p h. h) v.filled;
          tallied =
              λ s. omega (arith, tallied s, v.tallied s, rw in_use at sum_release (using_for s));
          counted = counted;
        },
      )

-- What a free of the address `a` leaves: the pool is valid, no other node is changed, and a node at
-- `a` is not in use.
pub record Freed (mp : MemPool) (a : ℕ) (mp' : MemPool) : Type 0 where
  pub valid : IsValid mp'
  pub elsewhere : (b : ℕ) → a ≢ b → node_at b mp'.nodes ≡ node_at b mp.nodes
  pub idle : (p : MemNode) → node_at a mp'.nodes ≡ some p → p.is_using ≡ false

nothing-Freed :
    (mp : MemPool) (a : ℕ)
    → IsValid mp
    → ((p : MemNode) → node_at a mp.nodes ≡ some p → p.is_using ≡ false)
    → Freed mp a mp
nothing-Freed mp a v idle = record { valid = v; elsewhere = λ b ne. refl; idle = idle }

released-Freed :
    (mp : MemPool) (m : MemNode) (qs : List PurposeNode)
    → node_at m.address mp.nodes ≡ some m
    → IsValid (give_back mp m qs)
    → Freed mp m.address (give_back mp m qs)
unfolding give_back
released-Freed mp m qs found v = record {
  valid = v;
  elsewhere = λ b ne. node_at-set_node_ne m.address release (λ p. refl) mp.nodes b ne;
  idle = λ p e.
      let at_m = node_at-set_node m.address release (λ q. refl) mp.nodes m found in
      let same : release m ≡ p = cc in ap (λ q. q.is_using) (sym same);
}

null_missing :
    (ps : List MemNode) (p : MemNode) → All (λ q. q.address ≢ 0) ps → node_at 0 ps ≡ some p → ⊥
unfolding node_at
null_missing [] p h e = let bad : ⊥ = cc in bad
null_missing (q ∷ ps) p h e = null_missing ps p h.1 (rw (ne→== q.address 0 h.0) at e)

-- In a valid pool, `mp_free` of any address, also of NULL, of one that the pool does not have and of
-- one that is free already, ends with no failed assertion and leaves a valid pool, in which no node
-- at another address is changed and no node at this address is in use.
pub mp_free-Freed :
    (mp : MemPool) (a : ℕ) → IsValid mp → (mp' : MemPool) × (mp_free mp a ≡ ok mp') × Freed mp a mp'
unfolding mp_free free_found
mp_free-Freed mp a v = elim (Bool-cases (a == 0)) [
  | inl null ↦ (
    mp,
    rw null refl,
    nothing-Freed mp a v λ p e. absurd (
        null_missing mp.nodes p v.not_null
          (subst (λ x. node_at x mp.nodes ≡ some p) (==→eq a 0 null) e)),
  )
  | inr some_address ↦ rw some_address (elim (Option-cases (node_at a mp.nodes)) [
    | inl missing ↦
        (mp, rw missing refl, nothing-Freed mp a v λ p e. let bad : ⊥ = cc in absurd bad)
    | inr (m, found) ↦ elim (Bool-cases m.is_using) [
      | inl in_use ↦
          let e = node_at-address a mp.nodes m found in
          let here : node_at m.address mp.nodes ≡ some m = rw (sym e) at found in
          let (qs, run, v') = release-IsValid mp v m in_use here in
          (
            give_back mp m qs,
            rw (found, free_found) run,
            subst (λ x. Freed mp x (give_back mp m qs)) e (released-Freed mp m qs here v'),
          )
      | inr idle ↦ (
        mp,
        rw (found, idle) refl,
        nothing-Freed mp a v
            λ p e. let same : m ≡ p = cc in subst (λ q. q.is_using ≡ false) same idle,
      )
    ]
  ])
]
