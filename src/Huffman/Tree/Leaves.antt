-- ===== src/Huffman/Tree/Leaves.antt =====
-- The leaves that the construction starts from, and the tree that it ends with.
use sftt.Base.{
  ℕ, zero, suc, ◌+◌, ◌≤◌, ◌<◌, ◌≡◌, ◌≢◌, refl, true, false, some, List, [], ◌∷◌, arith, length, All,
  ◌==◌, Bool-cases, inl, inr, ok, get_elem?, ◌∙◌, ne→==, sym,
}
use sftt.Base.Int.{pos}
use sftt.Huffman.Tree.{
  Tree, null, node, charset_size, btree_is_leaf, leaf_nodes, merge_nodes, merge_list,
  generate_huffman_tree, is_null,
}
use sftt.Huffman.Codes.Shape.{IsCoded}
use sftt.Huffman.Tree.Pick.{weigh}
use sftt.Huffman.Tree.Build.{names, leaves, NotNull, IsForest, IsBuilt, merge_nodes-IsBuilt}

abbrev leaf : ℕ → ℕ → Tree
leaf i f = node i (record { ch = pos i; freq = f }) null null

pub leaf_nodes-zero :
    (i : ℕ) (fs : List ℕ) (f : ℕ) → (f == 0) ≡ true → leaf_nodes i (f ∷ fs) ≡ leaf_nodes (i + 1) fs
unfolding leaf_nodes
leaf_nodes-zero i fs f h = rw h

pub leaf_nodes-pos :
    (i : ℕ) (fs : List ℕ) (f : ℕ)
    → (f == 0) ≡ false
    → leaf_nodes i (f ∷ fs) ≡ leaf i f ∷ leaf_nodes (i + 1) fs
unfolding leaf_nodes
leaf_nodes-pos i fs f h = rw h

leaf_nodes-NotNull : (i : ℕ) (fs : List ℕ) → All NotNull (leaf_nodes i fs)
unfolding is_null
leaf_nodes-NotNull i [] = unfold leaf_nodes in tt
leaf_nodes-NotNull i (f ∷ fs) = elim (Bool-cases (f == 0)) [
  | inl z ↦ rw (leaf_nodes-zero i fs f z) (leaf_nodes-NotNull (i + 1) fs)
  | inr p ↦ rw (leaf_nodes-pos i fs f p) (refl, leaf_nodes-NotNull (i + 1) fs)
]

leaf_nodes-IsCoded :
    (i : ℕ) (fs : List ℕ) → i + length fs ≤ charset_size → All IsCoded (leaf_nodes i fs)
leaf_nodes-IsCoded i [] h = unfold leaf_nodes in tt
leaf_nodes-IsCoded i (f ∷ fs) h = elim (Bool-cases (f == 0)) [
  | inl z ↦ rw (leaf_nodes-zero i fs f z) (leaf_nodes-IsCoded (i + 1) fs (omega arith))
  | inr p ↦
      rw (leaf_nodes-pos i fs f p)
        (((λ _. omega arith), tt, tt), leaf_nodes-IsCoded (i + 1) fs (omega arith))
]

-- The names are the chars, from `i` on, each at most once.
leaf_nodes-names :
    (x i : ℕ) (fs : List ℕ)
    → (weigh (names x) (leaf_nodes i fs) < 2)
      × (x < i → weigh (names x) (leaf_nodes i fs) ≡ 0)
      × (i + length fs ≤ x → weigh (names x) (leaf_nodes i fs) ≡ 0)
leaf_nodes-names x i [] = unfold leaf_nodes in (omega arith, (λ _. refl), λ _. refl)
leaf_nodes-names x i (f ∷ fs) =
    let (few, low, high) = leaf_nodes-names x (i + 1) fs in
    elim (Bool-cases (f == 0)) [
      | inl z ↦
          rw (leaf_nodes-zero i fs f z) (few, (λ h. low (omega arith)), λ h. high (omega arith))
      | inr p ↦
          rw (leaf_nodes-pos i fs f p)
            (ground arith, (λ h. ground (arith, low)), λ h. ground (arith, high))
    ]

leaves-leaf : (c f : ℕ) → leaves c (leaf c f) ≡ 1
unfolding leaves btree_is_leaf
leaves-leaf c f = ground arith

-- A char that occurs has a leaf.
leaf_nodes-leaves :
    (i : ℕ) (fs : List ℕ) (j : ℕ) {f : ℕ}
    → get_elem? fs j ≡ some f
    → f ≢ 0
    → 0 < weigh (leaves (j + i)) (leaf_nodes i fs)
leaf_nodes-leaves i [] j h ne = let bad : ⊥ = cc in absurd bad
leaf_nodes-leaves i (g ∷ fs) zero {f} h ne =
    let e : g ≡ f = cc in
    let z : zero + i ≡ i = omega arith in
    rw (leaf_nodes-pos i fs g (ne→== g 0 (λ e0. ne (sym e ∙ e0))), z)
      (omega (arith, leaves-leaf i g))
leaf_nodes-leaves i (g ∷ fs) (suc j) h ne =
    let e : suc j + i ≡ j + (i + 1) = omega arith in
    let ih = leaf_nodes-leaves (i + 1) fs j h ne in
    rw e (elim (Bool-cases (g == 0)) [
      | inl z ↦ rw (leaf_nodes-zero i fs g z) ih
      | inr p ↦ rw (leaf_nodes-pos i fs g p) (omega arith)
    ])

leaf_nodes-IsForest :
    (fs : List ℕ) → length fs ≤ charset_size → IsForest charset_size (leaf_nodes 0 fs)
leaf_nodes-IsForest fs h = record {
  nodes = leaf_nodes-NotNull 0 fs;
  coded = leaf_nodes-IsCoded 0 fs (omega arith);
  distinct = λ x. (leaf_nodes-names x 0 fs).0;
  unused = λ x hx. (leaf_nodes-names x 0 fs).2 (omega arith);
}

merge_list_pos :
    (ts : List Tree) → 0 < length ts → merge_list ts ≡ merge_nodes (length ts) charset_size ts
unfolding merge_list
merge_list_pos [] h = absurd (omega arith)
merge_list_pos (t ∷ ts) h = refl

generate_lem : (fs : List ℕ) → generate_huffman_tree fs ≡ merge_list (leaf_nodes 0 fs)
unfolding generate_huffman_tree
generate_lem fs = refl

weigh_nonempty : (w : Tree → ℕ) (ts : List Tree) → 0 < weigh w ts → 0 < length ts
weigh_nonempty w [] h = h
weigh_nonempty w (t ∷ ts) h = omega arith

-- `generate_huffman_tree` of an array in which some char occurs: no assertion fails, and the tree
-- has distinct nodes, a root that is no leaf, and a leaf for each char that occurs.
pub generate_huffman_tree-IsBuilt :
    (fs : List ℕ) (i : ℕ) {f : ℕ}
    → length fs ≤ charset_size
    → get_elem? fs i ≡ some f
    → f ≢ 0
    → (t : Tree) × (generate_huffman_tree fs ≡ ok t)
      × IsBuilt t
      × ((c g : ℕ) → get_elem? fs c ≡ some g → g ≢ 0 → 0 < leaves c t)
generate_huffman_tree-IsBuilt fs i h e ne =
    let some_leaf =
      weigh_nonempty (leaves (i + 0)) (leaf_nodes 0 fs) (leaf_nodes-leaves 0 fs i e ne) in
    let (t, run, built, same) =
      merge_nodes-IsBuilt (length (leaf_nodes 0 fs)) charset_size (leaf_nodes 0 fs)
        (leaf_nodes-IsForest fs h) some_leaf (omega arith) in
    (
      t,
      generate_lem fs ∙ merge_list_pos (leaf_nodes 0 fs) some_leaf ∙ run,
      built,
      λ c g eg ng.
          let z : c + 0 ≡ c = omega arith in
          omega (arith, same c, rw z at (leaf_nodes-leaves 0 fs c eg ng)),
    )
