-- ===== src/Huffman/Tree/Depth.antt =====
-- How large the tree of src/compress.c is, and so how long a code.
use sftt.Base.{
  ℕ, zero, suc, ◌+◌, ◌≤◌, ◌≡◌, none, List, [], ◌∷◌, ◌++◌, arith, length, if◌then◌else◌,
  Option-cases, Bool-cases, inl, inr, ok, ◌==◌, Result, fault, out_of_fuel, refl, subst,
}
use sftt.Base.Int.{pos}
use sftt.Huffman.Tree.{
  Tree, null, node, charset_size, btree_is_leaf, btree_node_count, leaf_nodes, merge_nodes,
  merge_list, generate_huffman_tree, fetch_min_btree_node, sum_stat, freq_of,
}
use sftt.Huffman.Tree.Pick.{weigh, weigh-append, Pick-weigh, fetch_min-Pick}
use sftt.Huffman.Tree.Build.{merge_end, merge_round}
use sftt.Huffman.Tree.Leaves.{leaf_nodes-zero, leaf_nodes-pos}

-- Where the merging ends with a tree, that has at most `n` nodes.
AtMost : ℕ → Result Tree → Type 0
AtMost n (ok t) = btree_node_count t ≤ n
AtMost n fault = Unit
AtMost n out_of_fuel = Unit

AtMost-more : (m n : ℕ) (r : Result Tree) → m ≤ n → AtMost m r → AtMost n r
unfolding AtMost
AtMost-more m n (ok t) le h = omega (arith, le, h)
AtMost-more m n fault le h = tt
AtMost-more m n out_of_fuel le h = tt

one_parent :
    (next : ℕ) (t : Tree)
    → AtMost
        (btree_node_count t + 1)
        (ok (if btree_is_leaf t then node next (sum_stat (freq_of t)) t null else t))
unfolding AtMost btree_node_count
one_parent next t = elim (Bool-cases (btree_is_leaf t)) [
  | inl leaf ↦ rw leaf (omega arith)
  | inr inner ↦ rw inner (omega arith)
]

merge_fault :
    (k next : ℕ) (ts : List Tree)
    → fetch_min_btree_node ts ≡ none
    → merge_nodes (suc k) next ts ≡ fault
unfolding merge_nodes
merge_fault k next ts e = rw (e, merge_nodes) refl

joined_count :
    (next : ℕ) (t1 t2 : Tree) (ts : List Tree)
    → weigh btree_node_count (ts ++ node next (sum_stat (freq_of t1 + freq_of t2)) t1 t2 ∷ [])
      ≡ btree_node_count t1 + (btree_node_count t2 + weigh btree_node_count ts) + 1
unfolding btree_node_count
joined_count next t1 t2 ts =
    let t = node next (sum_stat (freq_of t1 + freq_of t2)) t1 t2 in
    omega (arith, weigh-append btree_node_count ts (t ∷ []))

-- Each round adds at most one node.
merge_nodes-AtMost :
    (k next : ℕ) (ts : List Tree) → AtMost (weigh btree_node_count ts + k) (merge_nodes k next ts)
merge_nodes-AtMost zero next ts = unfold merge_nodes AtMost in tt
merge_nodes-AtMost (suc k) next ts = elim (Option-cases (fetch_min_btree_node ts)) [
  | inl e ↦ rw (merge_fault k next ts e) (unfold AtMost in tt)
  | inr ((t1, rest), e) ↦
      let w1 = Pick-weigh btree_node_count (fetch_min-Pick ts e) in
      elim (Option-cases (fetch_min_btree_node rest)) [
        | inl e' ↦ rw (merge_end k next ts e e') (
            AtMost-more (btree_node_count t1 + 1) (weigh btree_node_count ts + suc k) _
              (omega (arith, w1)) (one_parent next t1))
        | inr ((t2, rest'), e') ↦
            let w2 = Pick-weigh btree_node_count (fetch_min-Pick rest e') in
            let all = rest' ++ node next (sum_stat (freq_of t1 + freq_of t2)) t1 t2 ∷ [] in
            rw (merge_round k next ts e e') (
              AtMost-more (weigh btree_node_count all + k) (weigh btree_node_count ts + suc k) _
                (omega (arith, w1, w2, joined_count next t1 t2 rest'))
                (merge_nodes-AtMost k (next + 1) all))
      ]
]

leaf-count : (i f : ℕ) → btree_node_count (node i (record { ch = pos i; freq = f }) null null) ≡ 1
unfolding btree_node_count
leaf-count i f = refl

leaf_nodes-count :
    (i : ℕ) (fs : List ℕ)
    → (weigh btree_node_count (leaf_nodes i fs) ≤ length fs)
      × (length (leaf_nodes i fs) ≤ length fs)
leaf_nodes-count i [] = unfold leaf_nodes in (omega arith, omega arith)
leaf_nodes-count i (f ∷ fs) =
    let (nodes, trees) = leaf_nodes-count (i + 1) fs in
    elim (Bool-cases (f == 0)) [
      | inl z ↦ rw (leaf_nodes-zero i fs f z) (omega (arith, nodes), omega (arith, trees))
      | inr p ↦
          rw (leaf_nodes-pos i fs f p) (omega (arith, nodes, leaf-count i f), omega (arith, trees))
    ]

merge_list-AtMost :
    (ts : List Tree) → AtMost (weigh btree_node_count ts + length ts) (merge_list ts)
unfolding merge_list
merge_list-AtMost [] = unfold AtMost btree_node_count in omega arith
merge_list-AtMost (t ∷ ts) = merge_nodes-AtMost (length (t ∷ ts)) charset_size (t ∷ ts)

-- The tree has at most two nodes for each entry of the array.
pub generate_huffman_tree-count :
    (fs : List ℕ) (t : Tree)
    → generate_huffman_tree fs ≡ ok t
    → btree_node_count t ≤ length fs + length fs
unfolding generate_huffman_tree
generate_huffman_tree-count fs t e =
    let (nodes, trees) = leaf_nodes-count 0 fs in
    let h = merge_list-AtMost (leaf_nodes 0 fs) in
    let h' : AtMost (weigh btree_node_count (leaf_nodes 0 fs) + length (leaf_nodes 0 fs)) (ok t) =
      subst (AtMost _) e h in
    let g : btree_node_count t
        ≤ weigh btree_node_count (leaf_nodes 0 fs) + length (leaf_nodes 0 fs) =
      (unfold AtMost in h') in
    omega (arith, g, nodes, trees)
