-- ===== src/Huffman/Tree.antt =====
-- The nodes of src/btree.c as compress.c uses them, and the construction of the Huffman tree.
pub mod Pick
pub mod Build
pub mod Leaves
pub mod Depth
use sftt.Base.{
  ℕ, zero, suc, ◌+◌, ◌%◌, ◌^◌, Bool, true, false, ◌&&◌, Option, none, some, List, [], ◌∷◌, ◌++◌,
  ◌==◌, if◌then◌else◌, length, Result, ok, fault, out_of_fuel,
}
use sftt.Base.Int.{ℤ, pos, negsuc, slt32}

-- CHARSET_SIZE
abbrev pub charset_size : ℕ
charset_size = 256

-- `freq` is the 32-bit pattern of an `int`.
pub record CharStat : Type 0 where
  pub ch : ℤ
  pub freq : ℕ

-- A `struct btree_node *` with what it leads to. The number names the node as its address does:
-- the program frees no node while it builds or reads a tree.
pub data Tree : Type 0 where
  null : Tree
  node : ℕ → CharStat → Tree → Tree → Tree

unfoldable pub is_null : Tree → Bool
is_null null = true
is_null (node a s l r) = false

unfoldable pub btree_is_leaf : Tree → Bool
unfolding is_null
btree_is_leaf null = false
btree_is_leaf (node a s l r) = is_null l && is_null r

unfoldable pub btree_node_count : Tree → ℕ
btree_node_count null = 0
btree_node_count (node a s l r) = btree_node_count l + btree_node_count r + 1

btree_node_gen_parent : ℕ → CharStat → Tree → Tree → Tree
btree_node_gen_parent a s left right = node a s left right

-- `((struct char_stat_node *)t->data)->freq`; the list that is searched holds no NULL.
pub freq_of : Tree → ℕ
freq_of null = 0
freq_of (node a s l r) = s.freq

-- The loop of `fetch_min_btree_node`: the smallest tree so far and its index, the index of the
-- next tree, and the trees still to be seen.
min_from : Tree → ℕ → ℕ → List Tree → Tree × ℕ
min_from best at i [] = (best, at)
min_from best at i (t ∷ ts) =
    let less = slt32 (freq_of t) (freq_of best) in
    min_from (if less then t else best) (if less then i else at) (i + 1) ts

remove_at : ℕ → List Tree → List Tree
remove_at i [] = []
remove_at zero (t ∷ ts) = ts
remove_at (suc i) (t ∷ ts) = t ∷ remove_at i ts

pub fetch_min_btree_node : List Tree → Option (Tree × List Tree)
unfolding min_from remove_at
fetch_min_btree_node [] = none
fetch_min_btree_node (t ∷ ts) =
    let (best, at) = min_from t 0 1 ts in some (best, remove_at at (t ∷ ts))

-- A leaf for each char that occurs, in the order of the chars from `i` on.
pub leaf_nodes : ℕ → List ℕ → List Tree
leaf_nodes i [] = []
leaf_nodes i (f ∷ fs) =
    let rest = leaf_nodes (i + 1) fs in
    if f == 0 then rest else node i (record { ch = pos i; freq = f }) null null ∷ rest

pub sum_stat : ℕ → CharStat
sum_stat f = record { ch = negsuc 0; freq = f % 2 ^ 32 }

-- The `for (;;)` loop. The first failed fetch is the assertion on `t_node1`.
pub merge_nodes : ℕ → ℕ → List Tree → Result Tree
unfolding btree_is_leaf btree_node_gen_parent freq_of fetch_min_btree_node sum_stat
merge_nodes zero next ts = out_of_fuel
merge_nodes (suc k) next ts = elim (fetch_min_btree_node ts) [
  | none ↦ fault
  | some (t1, rest) ↦ elim (fetch_min_btree_node rest) [
    | none ↦ ok (
        if btree_is_leaf t1 then btree_node_gen_parent next (sum_stat (freq_of t1)) t1 null else t1)
    | some (t2, rest') ↦
        merge_nodes k (next + 1)
          (rest' ++ btree_node_gen_parent next (sum_stat (freq_of t1 + freq_of t2)) t1 t2 ∷ [])
  ]
]

-- NULL where no char occurs. Each round takes a tree off the list, so its length is enough fuel.
merge_list : List Tree → Result Tree
unfolding merge_nodes
merge_list [] = ok null
merge_list (t ∷ ts) = merge_nodes (length (t ∷ ts)) charset_size (t ∷ ts)

unfoldable pub generate_huffman_tree : List ℕ → Result Tree
unfolding leaf_nodes merge_list
generate_huffman_tree char_freq = merge_list (leaf_nodes 0 char_freq)
