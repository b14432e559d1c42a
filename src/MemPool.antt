-- ===== src/MemPool.antt =====
-- src/mem_pool.c: the pool of memory nodes that the whole program allocates from. An address is a
-- number, NULL is 0, and a string is the list of its chars. The mutex is taken on every call.
pub mod Nodes
pub mod Fit
pub mod Purpose
pub mod Invariant
pub mod Free
pub mod Alloc
pub mod Resize
pub mod Reach
use sftt.Base.{
  ℕ, zero, suc, ◌+◌, ◌-◌, ◌%◌, ◌^◌, Bool, true, false, Option, none, some, List, [], ◌∷◌, ◌++◌,
  length, replicate, ltb, ◌==◌, ◌||◌, ◌&&◌, if◌then◌else◌, not, Result, ok, fault, ◌>>=◌, ◌>>◌,
  assert, from_option,
}
use sftt.Base.Int.{ℤ, int_of}
use sftt.Bytes.{Buffer, take_bytes, write_bytes}

-- `strcmp(a, b) == 0`
pub same_string : List ℕ → List ℕ → Bool
same_string [] [] = true
same_string [] (d ∷ t) = false
same_string (c ∷ s) [] = false
same_string (c ∷ s) (d ∷ t) = (c == d) && same_string s t

-- `struct mem_node`; `bytes` is the memory at `address`.
pub record MemNode : Type 0 where
  pub size : ℕ
  pub is_using : Bool
  pub address : ℕ
  pub bytes : Buffer
  pub purpose : List ℕ
  pub used_cnt : ℕ

pub record PurposeNode : Type 0 where
  pub purpose : List ℕ
  pub count : ℕ

pub record MemPoolStat : Type 0 where
  pub total_size : ℕ
  pub total_nodes : ℕ
  pub using_nodes : ℕ
  pub free_nodes : ℕ

-- `mem_nodes`, `purposes` and `g_mp->stat`.
pub record MemPool : Type 0 where
  pub nodes : List MemNode
  pub purposes : List PurposeNode
  pub stat : MemPoolStat

unfoldable pub mp_create : MemPool
mp_create = record {
  nodes = [];
  purposes = [];
  stat = record { total_size = 0; total_nodes = 0; using_nodes = 0; free_nodes = 0 };
}

-- `malloc` fills no memory that is read before `bzero`.
pub mem_node_create : ℕ → ℕ → MemNode
mem_node_create size address = record {
  size = size;
  is_using = false;
  address = address;
  bytes = replicate size 0;
  purpose = [];
  used_cnt = 0;
}

-- Whether a node is found.
pub find_purpose : List PurposeNode → List ℕ → Bool
find_purpose [] purpose = false
find_purpose (p ∷ ps) purpose = same_string p.purpose purpose || find_purpose ps purpose

-- `p->count += 1` on the node that `find_purpose` returns.
pub count_up : List PurposeNode → List ℕ → List PurposeNode
count_up [] purpose = []
count_up (p ∷ ps) purpose =
    let rest = count_up ps purpose in
    if same_string p.purpose purpose then record p { count = p.count + 1 } ∷ ps else p ∷ rest

pub add_purpose : List PurposeNode → List ℕ → List PurposeNode
unfolding find_purpose count_up
add_purpose ps purpose =
    if find_purpose ps purpose
    then count_up ps purpose
    else record { purpose = purpose; count = 1 } ∷ ps

-- A purpose that is not found is only reported.
pub sub_purpose : List PurposeNode → List ℕ → Result (List PurposeNode)
sub_purpose [] purpose = ok []
sub_purpose (p ∷ ps) purpose =
    let rest = (sub_purpose ps purpose >>= λ qs. ok (p ∷ qs)) in
    let left = if p.count - 1 == 0 then ps else record p { count = p.count - 1 } ∷ ps in
    if same_string p.purpose purpose then assert (ltb 0 p.count) >> ok left else rest

-- The test that the loop of `mp_malloc` makes before it looks at the size.
abbrev pub fits : ℕ → MemNode → Bool
fits n p = not (p.is_using || ltb p.size n)

-- The candidate after one more node.
pub better : ℕ → Option MemNode → MemNode → Option MemNode
better n none p = if fits n p then some p else none
better n (some m) p = if fits n p then if ltb p.size m.size then some p else some m else some m

pub best_fit : ℕ → Option MemNode → List MemNode → Option MemNode
unfolding better
best_fit n m [] = m
best_fit n m (p ∷ ps) = best_fit n (better n m p) ps

-- What is done to the node at an address.
pub set_node : ℕ → (MemNode → MemNode) → List MemNode → List MemNode
set_node a f [] = []
set_node a f (p ∷ ps) = let rest = set_node a f ps in if p.address == a then f p ∷ ps else p ∷ rest

-- `bzero(address, n)`
pub bzero : ℕ → Buffer → Buffer
bzero zero bs = bs
bzero (suc n) [] = []
bzero (suc n) (b ∷ bs) = 0 ∷ bzero n bs

pub grab : List ℕ → ℕ → MemNode → MemNode
unfolding bzero
grab purpose n p = record p {
  is_using = true;
  used_cnt = p.used_cnt + 1;
  purpose = purpose;
  bytes = bzero n p.bytes;
}

-- A node of the pool is used again.
pub reuse : MemPool → List ℕ → ℕ → MemNode → MemPool
unfolding set_node grab add_purpose
reuse mp purpose n m = record {
  nodes = set_node m.address (grab purpose n) mp.nodes;
  purposes = add_purpose mp.purposes purpose;
  stat = record (mp.stat) {
    free_nodes = mp.stat.free_nodes - 1;
    using_nodes = mp.stat.using_nodes + 1;
  };
}

-- A new node is put in front of the list.
pub enlarge : MemPool → List ℕ → ℕ → ℕ → MemPool
unfolding grab add_purpose mem_node_create
enlarge mp purpose n address = record {
  nodes = grab purpose n (mem_node_create n address) ∷ mp.nodes;
  purposes = add_purpose mp.purposes purpose;
  stat = record (mp.stat) {
    total_nodes = mp.stat.total_nodes + 1;
    total_size = mp.stat.total_size + n;
    using_nodes = mp.stat.using_nodes + 1;
  };
}

-- With the candidate of the loop, and the address that the system's `malloc` gives, if it does.
malloc_found : MemPool → List ℕ → ℕ → Option ℕ → Option MemNode → MemPool × ℕ
unfolding reuse enlarge
malloc_found mp purpose n fresh (some m) = (reuse mp purpose n m, m.address)
malloc_found mp purpose n (some address) none = (enlarge mp purpose n address, address)
malloc_found mp purpose n none none = (mp, 0)

-- The pool and the address returned.
unfoldable pub mp_malloc : MemPool → List ℕ → ℕ → Option ℕ → MemPool × ℕ
unfolding malloc_found best_fit
mp_malloc mp purpose n fresh =
    if n == 0 then (mp, 0) else malloc_found mp purpose n fresh (best_fit n none mp.nodes)

-- The node that the loop of `mp_free` and of `mp_realloc` stops at.
unfoldable pub node_at : ℕ → List MemNode → Option MemNode
node_at a [] = none
node_at a (p ∷ ps) = let rest = node_at a ps in if p.address == a then some p else rest

abbrev pub release : MemNode → MemNode
release p = record p { is_using = false }

-- The pool after the free of a node, with the purposes that are left.
give_back : MemPool → MemNode → List PurposeNode → MemPool
unfolding set_node
give_back mp m ps = record {
  nodes = set_node m.address release mp.nodes;
  purposes = ps;
  stat = record (mp.stat) {
    free_nodes = mp.stat.free_nodes + 1;
    using_nodes = mp.stat.using_nodes - 1;
  };
}

-- With the node that is found. A second free changes nothing.
free_found : MemPool → Option MemNode → Result MemPool
unfolding give_back sub_purpose
free_found mp none = ok mp
free_found mp (some m) =
    let freed = (sub_purpose mp.purposes m.purpose >>= λ ps. ok (give_back mp m ps)) in
    if m.is_using then freed else ok mp

pub mp_free : MemPool → ℕ → Result MemPool
unfolding free_found node_at
mp_free mp a = if a == 0 then ok mp else free_found mp (node_at a mp.nodes)

-- The loops that count and add up the nodes. The number of nodes stays below 2 ^ 31; the sum of the
-- sizes is an `int`, which wraps.
pub mp_node_cnt : List MemNode → ℕ
mp_node_cnt [] = 0
mp_node_cnt (p ∷ ps) = mp_node_cnt ps + 1

pub add_sizes : ℕ → List MemNode → ℕ
add_sizes sum [] = sum
add_sizes sum (p ∷ ps) = add_sizes ((sum + p.size) % 2 ^ 32) ps

pub mp_size : List MemNode → ℤ
unfolding add_sizes
mp_size nodes = int_of (add_sizes 0 nodes)

pub get_purpose_count : List PurposeNode → ℕ
get_purpose_count [] = 0
get_purpose_count (p ∷ ps) = get_purpose_count ps + 1

pub get_mp_stat : MemPool → MemPoolStat
get_mp_stat mp = mp.stat
