-- ===== src/Huffman/Tree/Build.antt =====
-- `generate_huffman_tree` ends, and its tree has distinct nodes and a leaf for each char.
use sftt.Base.{
  ℕ, zero, suc, ◌+◌, ◌≤◌, ◌<◌, ◌≡◌, refl, false, none, some, List, [], ◌∷◌, ◌++◌, arith, length,
  length-append, All, if◌then◌else◌, Option-cases, Bool-cases, inl, inr, ok, ap, ◌∙◌, sym, subst,
}
use sftt.Base.Int.{ℤ, pos, negsuc}
use sftt.Base.Count.{count, count-append, hit}
use sftt.Huffman.Tree.{
  Tree, null, node, CharStat, is_null, btree_is_leaf, merge_nodes, fetch_min_btree_node,
  btree_node_gen_parent, sum_stat, freq_of,
}
use sftt.Huffman.Codes.Shape.{ids, IsCoded}
use sftt.Huffman.Tree.Pick.{
  Pick, weigh, weigh-append, All-append, Pick-weigh, Pick-length, Pick-All, fetch_min-Pick,
  fetch_min-none,
}

abbrev pub is_char : ℕ → ℤ → ℕ
is_char c (pos d) = hit c d
is_char c (negsuc n) = 0

-- How many leaves stand for the char `c`.
unfoldable pub leaves : ℕ → Tree → ℕ
leaves c null = 0
leaves c (node a s l r) =
    if btree_is_leaf (node a s l r) then is_char c s.ch else leaves c l + leaves c r

abbrev pub names : ℕ → Tree → ℕ
names x t = count x (ids t)

abbrev pub NotNull : Tree → Type 0
NotNull t = is_null t ≡ false

-- What holds of the list of trees between two rounds; `next` is the first name not in use.
pub record IsForest (next : ℕ) (ts : List Tree) : Type 0 where
  pub nodes : All NotNull ts
  pub coded : All IsCoded ts
  pub distinct : (x : ℕ) → weigh (names x) ts < 2
  pub unused : (x : ℕ) → next ≤ x → weigh (names x) ts ≡ 0

-- What holds of the tree that a forest is merged into.
pub record IsBuilt (t : Tree) : Type 0 where
  pub not_null : is_null t ≡ false
  pub not_leaf : btree_is_leaf t ≡ false
  pub coded : IsCoded t
  pub distinct : (x : ℕ) → count x (ids t) < 2

inner_node :
    (a : ℕ) (s : CharStat) (l r : Tree) → is_null l ≡ false → btree_is_leaf (node a s l r) ≡ false
unfolding btree_is_leaf
inner_node a s l r h = rw h

leaves_inner :
    (c a : ℕ) (s : CharStat) (l r : Tree)
    → is_null l ≡ false
    → leaves c (node a s l r) ≡ leaves c l + leaves c r
unfolding leaves
leaves_inner c a s l r h = rw (inner_node a s l r h)

IsCoded-inner :
    (a : ℕ) (s : CharStat) (l r : Tree)
    → is_null l ≡ false
    → IsCoded l
    → IsCoded r
    → IsCoded (node a s l r)
IsCoded-inner a s l r h cl cr = ((λ leaf. ground (arith, inner_node a s l r h, leaf)), cl, cr)

names_parent :
    (x a : ℕ) (s : CharStat) (l r : Tree)
    → names x (node a s l r) ≡ hit x a + (names x l + names x r)
names_parent x a s l r = omega (arith, count-append x (ids l) (ids r))

-- What `merge_nodes` returns on a forest.
abbrev pub Merged : ℕ → ℕ → List Tree → Type 0
Merged k next ts =
    (t : Tree) × (merge_nodes k next ts ≡ ok t)
    × IsBuilt t
    × ((c : ℕ) → leaves c t ≡ weigh (leaves c) ts)

names_null : (t : Tree) (x : ℕ) → names x t + names x null ≡ names x t
names_null t x = omega arith

module _ (k next : ℕ) (ts : List Tree) {t : Tree} {rest : List Tree}
    (e : fetch_min_btree_node ts ≡ some (t, rest)) where
  pub merge_end :
      fetch_min_btree_node rest ≡ none
      → merge_nodes (suc k) next ts
        ≡ ok (if btree_is_leaf t then node next (sum_stat (freq_of t)) t null else t)
  unfolding merge_nodes btree_node_gen_parent
  merge_end e' = rw (e, merge_nodes) (rw (e', merge_nodes))

  pub merge_round :
      {t2 : Tree} {rest' : List Tree}
      → fetch_min_btree_node rest ≡ some (t2, rest')
      → merge_nodes (suc k) next ts
        ≡ merge_nodes k
            (next + 1)
            (rest' ++ node next (sum_stat (freq_of t + freq_of t2)) t t2 ∷ [])
  unfolding merge_nodes btree_node_gen_parent
  merge_round e' = rw (e, merge_nodes) (rw (e', merge_nodes))

-- The last round: a lone leaf gets a parent.
merge_last :
    (k next : ℕ) (ts : List Tree) (t : Tree)
    → IsForest next ts
    → Pick t [] ts
    → fetch_min_btree_node ts ≡ some (t, [])
    → Merged (suc k) next ts
merge_last k next ts t f p e =
    let (nn, _) = Pick-All NotNull p f.nodes in
    let (co, _) = Pick-All IsCoded p f.coded in
    let same : (x : ℕ) → weigh (names x) ts ≡ names x t + 0 = λ x. Pick-weigh (names x) p in
    elim (Bool-cases (btree_is_leaf t)) [
      | inl leaf ↦ (
        node next (sum_stat (freq_of t)) t null,
        merge_end k next ts e (unfold fetch_min_btree_node in refl) ∙ rw leaf,
        record {
          not_null = unfold is_null in refl;
          not_leaf = inner_node _ _ t null nn;
          coded = IsCoded-inner next (sum_stat (freq_of t)) t null nn co tt;
          distinct = λ x. grind (
            arith,
            names_parent x next (sum_stat (freq_of t)) t null,
            same x,
            f.unused x,
            f.distinct x,
          );
        },
        λ c.
            leaves_inner c next (sum_stat (freq_of t)) t null nn
            ∙ unfold leaves in sym (Pick-weigh (leaves c) p),
      )
      | inr inner ↦ (
        t,
        merge_end k next ts e (unfold fetch_min_btree_node in refl) ∙ rw inner,
        record {
          not_null = nn;
          not_leaf = inner;
          coded = co;
          distinct = λ x. omega (arith, same x, f.distinct x);
        },
        λ c. omega (arith, Pick-weigh (leaves c) p),
      )
    ]

-- The forest after a round that joins `t1` and `t2`.
IsForest-joined :
    (next : ℕ) (s : CharStat) (t1 t2 : Tree) {rest rest' ts : List Tree}
    → IsForest next ts
    → Pick t1 rest ts
    → Pick t2 rest' rest
    → IsForest (next + 1) (rest' ++ node next s t1 t2 ∷ [])
IsForest-joined next s t1 t2 {rest'} {ts} f p q =
    let (n1, nr) = Pick-All NotNull p f.nodes in
    let (n2, nr') = Pick-All NotNull q nr in
    let (c1, cr) = Pick-All IsCoded p f.coded in
    let (c2, cr') = Pick-All IsCoded q cr in
    let t = node next s t1 t2 in
    let total : (x : ℕ) → weigh (names x) (rest' ++ t ∷ []) ≡ hit x next + weigh (names x) ts = λ x.
      omega (
        arith,
        weigh-append (names x) rest' (t ∷ []),
        names_parent x next s t1 t2,
        Pick-weigh (names x) p,
        Pick-weigh (names x) q,
      ) in
    record {
      nodes = All-append NotNull rest' (t ∷ []) nr' (unfold is_null in refl, tt);
      coded = All-append IsCoded rest' (t ∷ []) cr' (IsCoded-inner next s t1 t2 n1 c1 c2, tt);
      distinct = λ x. grind (arith, total x, f.unused x, f.distinct x);
      unused = λ x h. ground (arith, total x, f.unused x (omega arith));
    }

leaves_joined :
    (c next : ℕ) (s : CharStat) (t1 t2 : Tree) {rest rest' ts : List Tree}
    → is_null t1 ≡ false
    → Pick t1 rest ts
    → Pick t2 rest' rest
    → weigh (leaves c) (rest' ++ node next s t1 t2 ∷ []) ≡ weigh (leaves c) ts
leaves_joined c next s t1 t2 {rest'} nn p q = omega (
  arith,
  weigh-append (leaves c) rest' (node next s t1 t2 ∷ []),
  leaves_inner c next s t1 t2 nn,
  Pick-weigh (leaves c) p,
  Pick-weigh (leaves c) q,
)

pub merge_nodes-IsBuilt :
    (k next : ℕ) (ts : List Tree)
    → IsForest next ts
    → 0 < length ts
    → length ts ≤ k
    → Merged k next ts
merge_nodes-IsBuilt zero next ts f some_tree fuel = absurd (omega arith)
merge_nodes-IsBuilt (suc k) next ts f some_tree fuel =
    elim (Option-cases (fetch_min_btree_node ts)) [
      | inl e ↦ absurd (omega (arith, ap length (fetch_min-none ts e)))
      | inr ((t1, rest), e) ↦ elim (Option-cases (fetch_min_btree_node rest)) [
        | inl e' ↦
            let nil = fetch_min-none rest e' in
            merge_last k next ts t1 f (subst (λ r. Pick t1 r ts) nil (fetch_min-Pick ts e))
              (subst (λ r. fetch_min_btree_node ts ≡ some (t1, r)) nil e)
        | inr ((t2, rest'), e') ↦
            let p = fetch_min-Pick ts e in
            let q = fetch_min-Pick rest e' in
            let s = sum_stat (freq_of t1 + freq_of t2) in
            let nn = (Pick-All NotNull p f.nodes).0 in
            let (t, run, built, same) =
              merge_nodes-IsBuilt k (next + 1) (rest' ++ node next s t1 t2 ∷ [])
                (IsForest-joined next s t1 t2 f p q)
                (omega (arith, length-append rest' (node next s t1 t2 ∷ [])))
                (omega (
                  arith,
                  length-append rest' (node next s t1 t2 ∷ []),
                  Pick-length p,
                  Pick-length q,
                )) in
            (
              t,
              merge_round k next ts e e' ∙ run,
              built,
              λ c. same c ∙ leaves_joined c next s t1 t2 nn p q,
            )
      ]
    ]
