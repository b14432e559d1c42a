-- ===== src/MemPool/Invariant.antt =====
-- What holds of the pool between the calls, and that `mp_malloc` keeps it.
use sftt.Base.{
  ℕ, zero, suc, ◌+◌, ◌≤◌, ◌<◌, ◌≡◌, ◌≢◌, refl, true, false, inl, inr, Option, some, List, [], ◌∷◌,
  length, replicate, length-replicate, arith, ap, ◌∙◌, sym, subst, All, ◌==◌, if◌then◌else◌,
  Bool-cases, Option-cases, ==→eq,
}
use sftt.Bytes.{Buffer}
use sftt.MemPool.{
  MemNode, MemPool, mp_create, set_node, grab, bzero, fits, reuse, enlarge, mp_malloc, malloc_found,
  mem_node_create, node_at,
}
use sftt.MemPool.Nodes.{total, at, total-set_node, length-set_node, All-set_node, node_at-In}
use sftt.MemPool.Fit.{best_fit-BestFit}
use sftt.MemPool.Purpose.{named, tally, IsCounted, tally-add_purpose, add_purpose-IsCounted}

abbrev pub using : MemNode → ℕ
using p = if p.is_using then 1 else 0

-- 1 for a node in use for the purpose `s`.
abbrev pub using_for : List ℕ → MemNode → ℕ
using_for s p = if p.is_using then named p.purpose s else 0

abbrev pub size_of : MemNode → ℕ
size_of p = p.size

-- The statistics and the purposes are those of the nodes, whose addresses are all different.
pub record IsValid (mp : MemPool) : Type 0 where
  pub nodes_counted : mp.stat.total_nodes ≡ length mp.nodes
  pub sizes_added : mp.stat.total_size ≡ total size_of mp.nodes
  pub using_counted : mp.stat.using_nodes ≡ total using mp.nodes
  pub others_free : mp.stat.free_nodes + mp.stat.using_nodes ≡ mp.stat.total_nodes
  pub distinct : (a : ℕ) → total (at a) mp.nodes < 2
  pub not_null : All (λ p. p.address ≢ 0) mp.nodes
  pub filled : All (λ p. length p.bytes ≡ p.size) mp.nodes
  pub tallied : (s : List ℕ) → tally s mp.purposes ≡ total (using_for s) mp.nodes
  pub counted : IsCounted mp.purposes

pub mp_create-IsValid : IsValid mp_create
unfolding mp_create
mp_create-IsValid = record {
  nodes_counted = refl;
  sizes_added = refl;
  using_counted = refl;
  others_free = refl;
  distinct = λ a. omega arith;
  not_null = tt;
  filled = tt;
  tallied = λ s. refl;
  counted = tt;
}

length-bzero : (n : ℕ) (bs : Buffer) → length (bzero n bs) ≡ length bs
unfolding bzero
length-bzero zero bs = refl
length-bzero (suc n) [] = refl
length-bzero (suc n) (b ∷ bs) = ap suc (length-bzero n bs)

using_le : (ps : List MemNode) → total using ps ≤ length ps
using_le [] = omega arith
using_le (p ∷ ps) = ground (arith, using_le ps)

pub idle_of_fits : (n : ℕ) (m : MemNode) → fits n m ≡ true → m.is_using ≡ false
idle_of_fits n m fit = ground arith

-- A node that is not in use is taken for `purpose`.
module _ (purpose : List ℕ) (n : ℕ) (m : MemNode) (idle : m.is_using ≡ false) where
  grab-IsValid :
      (mp : MemPool)
      → IsValid mp
      → node_at m.address mp.nodes ≡ some m
      → IsValid (reuse mp purpose n m)
  unfolding reuse grab
  grab-IsValid mp v found =
      let sum : (f : MemNode → ℕ) → _ =
        λ f. total-set_node m.address (grab purpose n) f mp.nodes m found in
      let size = length-set_node m.address (grab purpose n) mp.nodes in
      let uses : total using (set_node m.address (grab purpose n) mp.nodes)
          ≡ total using mp.nodes + 1 =
        omega (arith, rw idle at sum using) in
      let le = using_le (set_node m.address (grab purpose n) mp.nodes) in
      record {
        nodes_counted = v.nodes_counted ∙ sym size;
        sizes_added = omega (arith, v.sizes_added, sum size_of);
        using_counted = omega (arith, v.using_counted, uses);
        others_free =
            omega (arith, v.others_free, v.using_counted, v.nodes_counted, uses, le, size);
        distinct = λ a. omega (arith, v.distinct a, sum (at a));
        not_null = All-set_node m.address (grab purpose n) mp.nodes (λ p h. h) v.not_null;
        filled =
            All-set_node m.address (grab purpose n) mp.nodes (λ p h. length-bzero n p.bytes ∙ h)
              v.filled;
        tallied = λ s. omega (
          arith,
          tally-add_purpose mp.purposes purpose s,
          v.tallied s,
          rw idle at sum (using_for s),
        );
        counted = add_purpose-IsCounted mp.purposes purpose v.counted;
      }

-- An address that the system gives is not NULL and not that of a node.
pub record IsFresh (address : ℕ) (mp : MemPool) : Type 0 where
  pub not_null : address ≢ 0
  pub unused : total (at address) mp.nodes ≡ 0

enlarge-IsValid :
    (purpose : List ℕ) (n address : ℕ) (mp : MemPool)
    → IsFresh address mp
    → IsValid mp
    → IsValid (enlarge mp purpose n address)
unfolding enlarge grab mem_node_create
enlarge-IsValid purpose n address mp fresh v = record {
  nodes_counted = omega (arith, v.nodes_counted);
  sizes_added = omega (arith, v.sizes_added);
  using_counted = omega (arith, v.using_counted);
  others_free = omega (arith, v.others_free);
  distinct = λ a. elim (Bool-cases (address == a)) [
    | inl here ↦
        let z : total (at a) mp.nodes ≡ 0 =
          subst (λ x. total (at x) mp.nodes ≡ 0) (==→eq address a here) fresh.unused in
        rw here (omega (arith, z))
    | inr other ↦ rw other (omega (arith, v.distinct a))
  ];
  not_null = (fresh.not_null, v.not_null);
  filled = (length-bzero n (replicate n 0) ∙ length-replicate n 0, v.filled);
  tallied = λ s. omega (arith, tally-add_purpose mp.purposes purpose s, v.tallied s);
  counted = add_purpose-IsCounted mp.purposes purpose v.counted;
}

-- Whatever `mp_malloc` finds, the pool it leaves is valid.
pub mp_malloc-IsValid :
    (mp : MemPool) (purpose : List ℕ) (n : ℕ) (fresh : Option ℕ)
    → IsValid mp
    → ((a : ℕ) → fresh ≡ some a → IsFresh a mp)
    → IsValid (mp_malloc mp purpose n fresh).0
unfolding mp_malloc malloc_found
mp_malloc-IsValid mp purpose n fresh v new = elim (Bool-cases (n == 0)) [
  | inl none_wanted ↦ rw none_wanted v
  | inr some_wanted ↦ rw some_wanted (elim (best_fit-BestFit n mp.nodes) [
    | inl (nothing, _) ↦ rw nothing (elim (Option-cases fresh) [
      | inl failed ↦ rw failed v
      | inr (a, given) ↦ rw given (enlarge-IsValid purpose n a mp (new a given) v)
    ])
    | inr (m, found, b) ↦ rw found (
        grab-IsValid purpose n m (idle_of_fits n m b.fit) mp v
          (node_at-In m mp.nodes b.among (v.distinct m.address)))
  ])
]
