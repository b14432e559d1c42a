-- ===== src/MemPool/Reach.antt =====
-- The pools that a sequence of calls leads to, and what the statistics say of them.
use sftt.Base.{
  ℕ, ◌+◌, ◌%◌, ◌^◌, ◌<◌, ap, ◌≡◌, Option, some, List, [], ◌∷◌, length, ok, arith, ◌∙◌, sym, subst,
  refl,
}
use sftt.Base.Int.{int_of}
use sftt.MemPool.{
  MemNode, MemPool, mp_create, mp_malloc, mp_free, mp_node_cnt, add_sizes, mp_size, get_mp_stat,
}
use sftt.MemPool.Nodes.{total}
use sftt.MemPool.Invariant.{IsValid, IsFresh, mp_create-IsValid, mp_malloc-IsValid, size_of, using}
use sftt.MemPool.Free.{mp_free-Freed}

-- A call of the pool: an allocation, with what the system's `malloc` would give, or a free.
pub data Step : MemPool → MemPool → Type 0 where
  allocated :
      (mp : MemPool) (purpose : List ℕ) (n : ℕ) (fresh : Option ℕ)
      → ((a : ℕ) → fresh ≡ some a → IsFresh a mp)
      → Step mp (mp_malloc mp purpose n fresh).0
  freed : (mp mp' : MemPool) (a : ℕ) → mp_free mp a ≡ ok mp' → Step mp mp'

pub data IsReachable : MemPool → Type 0 where
  created : IsReachable mp_create
  stepped : (mp mp' : MemPool) → IsReachable mp → Step mp mp' → IsReachable mp'

-- Every pool that the calls lead to is valid.
pub reachable-IsValid : (mp : MemPool) → IsReachable mp → IsValid mp
reachable-IsValid _ created = mp_create-IsValid
reachable-IsValid _ (stepped mp mp' before (allocated _ purpose n fresh new)) =
    mp_malloc-IsValid mp purpose n fresh (reachable-IsValid mp before) new
reachable-IsValid _ (stepped mp mp' before (freed _ _ a run)) =
    let (mp1, run1, f) = mp_free-Freed mp a (reachable-IsValid mp before) in
    let same : mp1 ≡ mp' = cc in subst IsValid same f.valid

mp_node_cnt-length : (ps : List MemNode) → mp_node_cnt ps ≡ length ps
unfolding mp_node_cnt
mp_node_cnt-length [] = refl
mp_node_cnt-length (p ∷ ps) = omega (arith, mp_node_cnt-length ps)

add_sizes-total :
    (sum : ℕ) (ps : List MemNode)
    → sum < 2 ^ 32
    → add_sizes sum ps ≡ (sum + total size_of ps) % 2 ^ 32
unfolding add_sizes
add_sizes-total sum [] small = omega (arith, small)
add_sizes-total sum (p ∷ ps) small =
    add_sizes-total ((sum + p.size) % 2 ^ 32) ps (omega arith) ∙ omega arith

-- After any calls, the statistics are what a walk over the nodes counts: their number, the nodes in
-- use, beside which the free ones make up the rest, and the sum of their sizes, of which `mp_size`,
-- an `int`, gives the low 32 bits.
pub get_mp_stat-exact :
    (mp : MemPool)
    → IsReachable mp
    → ((get_mp_stat mp).total_nodes ≡ mp_node_cnt mp.nodes)
      × ((get_mp_stat mp).total_size ≡ total size_of mp.nodes)
      × (mp_size mp.nodes ≡ int_of ((get_mp_stat mp).total_size % 2 ^ 32))
      × ((get_mp_stat mp).using_nodes ≡ total using mp.nodes)
      × ((get_mp_stat mp).free_nodes + (get_mp_stat mp).using_nodes ≡ mp_node_cnt mp.nodes)
unfolding get_mp_stat mp_size
get_mp_stat-exact mp r =
    let v = reachable-IsValid mp r in
    let c = mp_node_cnt-length mp.nodes in
    (
      v.nodes_counted ∙ sym c,
      v.sizes_added,
      ap int_of (add_sizes-total 0 mp.nodes (omega arith) ∙ omega (arith, v.sizes_added)),
      v.using_counted,
      omega (arith, v.others_free, v.nodes_counted, c),
    )
