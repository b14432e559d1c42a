-- ===== src/Tests/Pool.antt =====
-- The memory pool after a few calls.
use sftt.Base.Int.{int_of}
use sftt.Base.{ℕ, ◌+◌, ◌%◌, ◌^◌, ◌≡◌, refl, true, false, some, List, [], ◌∷◌, arith, ok, subst}
use sftt.MemPool.{
  MemNode, MemPool, mp_create, mp_malloc, mp_free, node_at, mp_node_cnt, mp_size, get_mp_stat,
}
use sftt.MemPool.Nodes.{total}
use sftt.MemPool.Invariant.{IsValid, IsFresh, mp_create-IsValid, size_of, using}
use sftt.MemPool.Free.{Freed, mp_free-Freed}
use sftt.MemPool.Alloc.{Given, mp_malloc-Given}
use sftt.MemPool.Resize.{Moved, mp_realloc, mp_realloc-Moved}
use sftt.MemPool.Reach.{
  IsReachable, allocated, created, stepped, reachable-IsValid, get_mp_stat-exact,
}

abbrev purpose : List ℕ
purpose = b'x' ∷ []

IsFresh-first : IsFresh 9 mp_create
unfolding mp_create
IsFresh-first = record { not_null = λ e. absurd (omega (arith, e)); unused = refl }

abbrev first : MemPool
first = (mp_malloc mp_create purpose 3 (some 9)).0

given_nine : (a : ℕ) → some 9 ≡ some a → IsFresh a mp_create
given_nine a e = let same : 9 ≡ a = cc in subst (λ x. IsFresh x mp_create) same IsFresh-first

IsReachable-first : IsReachable first
IsReachable-first =
    stepped mp_create first created (allocated mp_create purpose 3 (some 9) given_nine)

first-IsValid : IsValid first
first-IsValid = reachable-IsValid first IsReachable-first

get_mp_stat-exact_example :
    ((get_mp_stat first).total_nodes ≡ mp_node_cnt first.nodes)
    × ((get_mp_stat first).total_size ≡ total size_of first.nodes)
    × (mp_size first.nodes ≡ int_of ((get_mp_stat first).total_size % 2 ^ 32))
    × ((get_mp_stat first).using_nodes ≡ total using first.nodes)
    × ((get_mp_stat first).free_nodes + (get_mp_stat first).using_nodes ≡ mp_node_cnt first.nodes)
get_mp_stat-exact_example = get_mp_stat-exact first IsReachable-first

mp_malloc-Given_example :
    Given mp_create purpose 3
      (mp_malloc mp_create purpose 3 (some 9)).0
      (mp_malloc mp_create purpose 3 (some 9)).1
mp_malloc-Given_example =
    mp_malloc-Given mp_create purpose 3 9 mp_create-IsValid (λ e. absurd (omega (arith, e)))
      IsFresh-first

mp_free-Freed_example : (mp : MemPool) × (mp_free first 9 ≡ ok mp) × Freed first 9 mp
mp_free-Freed_example = mp_free-Freed first 9 first-IsValid

-- The node that is in use at 9.
abbrev nine : MemNode
nine = record {
  size = 3;
  is_using = true;
  address = 9;
  bytes = 0 ∷ 0 ∷ 0 ∷ [];
  purpose = purpose;
  used_cnt = 1;
}

first_nine : node_at 9 first.nodes ≡ some nine
unfolding mp_malloc mp_create node_at
first_nine = refl

IsFresh-second : IsFresh 17 first
unfolding mp_malloc mp_create
IsFresh-second = record { not_null = λ e. absurd (omega (arith, e)); unused = refl }

mp_realloc-Moved_example :
    (mp : MemPool) × (tmp : ℕ) × (mp_realloc first 9 2 (some 17) ≡ ok (mp, tmp))
    × Moved 9 nine 2 mp tmp
mp_realloc-Moved_example =
    mp_realloc-Moved first 9 2 17 nine first-IsValid first_nine refl
      (λ e. absurd (omega (arith, e))) IsFresh-second

-- A pool of two free nodes.
abbrev idle : ℕ → ℕ → MemNode
idle size a = record {
  size = size;
  is_using = false;
  address = a;
  bytes = [];
  purpose = [];
  used_cnt = 1;
}

abbrev two : MemPool
two = record {
  nodes = idle 8 9 ∷ idle 4 17 ∷ [];
  purposes = [];
  stat = record { total_size = 12; total_nodes = 2; using_nodes = 0; free_nodes = 2 };
}
