-- ===== src/Huffman/Tree/Pick.antt =====
-- `fetch_min_btree_node` takes one tree off the list and leaves the others.
use sftt.Base.{
  ℕ, zero, suc, ◌+◌, ◌≡◌, refl, none, some, List, [], ◌∷◌, ◌++◌, arith, length, get_elem?, All,
  if◌then◌else◌, Bool, true, false, ◌∙◌, sym, ap,
}
use sftt.Base.Int.{slt32}
use sftt.Huffman.Tree.{Tree, freq_of, min_from, remove_at, fetch_min_btree_node}

pub data Pick (t : Tree) : List Tree → List Tree → Type 0 where
  here : {ts : List Tree} → Pick t ts (t ∷ ts)
  there : {u : Tree} {rest ts : List Tree} → Pick t rest ts → Pick t (u ∷ rest) (u ∷ ts)

abbrev pub weigh : (Tree → ℕ) → List Tree → ℕ
weigh w [] = 0
weigh w (t ∷ ts) = w t + weigh w ts

pub weigh-append : (w : Tree → ℕ) (xs ys : List Tree) → weigh w (xs ++ ys) ≡ weigh w xs + weigh w ys
weigh-append w [] ys = omega arith
weigh-append w (x ∷ xs) ys = omega (arith, weigh-append w xs ys)

pub All-append : (P : Tree → Type 0) (xs ys : List Tree) → All P xs → All P ys → All P (xs ++ ys)
All-append P [] ys hx hy = hy
All-append P (x ∷ xs) ys hx hy = (hx.0, All-append P xs ys hx.1 hy)

module _ {t : Tree} where
  pub Pick-weigh :
      (w : Tree → ℕ) {rest ts : List Tree} → Pick t rest ts → weigh w ts ≡ w t + weigh w rest
  Pick-weigh w here = refl
  Pick-weigh w (there p) = omega (arith, Pick-weigh w p)

  pub Pick-length : {rest ts : List Tree} → Pick t rest ts → length ts ≡ suc (length rest)
  Pick-length here = refl
  Pick-length (there p) = omega (arith, Pick-length p)

  pub Pick-All :
      (P : Tree → Type 0) {rest ts : List Tree} → Pick t rest ts → All P ts → P t × All P rest
  Pick-All P here h = h
  Pick-All P (there p) h = let (one, more) = Pick-All P p h.1 in (one, (h.0, more))

Pick_at : (ts : List Tree) (n : ℕ) {t : Tree} → get_elem? ts n ≡ some t → Pick t (remove_at n ts) ts
unfolding remove_at
Pick_at [] n h = let bad : ⊥ = cc in absurd bad
Pick_at (u ∷ ts) zero {t} h = let e : u ≡ t = cc in rw e here
Pick_at (u ∷ ts) (suc n) h = there (Pick_at ts n h)

-- The smallest tree stands at the index that is kept with it.
min_from-get_elem? :
    (all : List Tree) (best : Tree) (at i : ℕ) (ts : List Tree)
    → get_elem? all at ≡ some best
    → ((j : ℕ) → get_elem? ts j ≡ get_elem? all (j + i))
    → get_elem? all ((min_from best at i ts).1) ≡ some ((min_from best at i ts).0)
unfolding min_from
min_from-get_elem? all best at i [] h same = h
min_from-get_elem? all best at i (t ∷ ts) h same =
    let less = slt32 (freq_of t) (freq_of best) in
    min_from-get_elem? all (if less then t else best) (if less then i else at) (i + 1) ts
      (either less) next
  where
    either : (b : Bool) → get_elem? all (if b then i else at) ≡ some (if b then t else best)
    either true = ap (get_elem? all) (omega arith) ∙ sym (same 0)
    either false = h

    next : (j : ℕ) → get_elem? ts j ≡ get_elem? all (j + (i + 1))
    next j = same (suc j) ∙ ap (get_elem? all) (omega arith)

pub fetch_min-Pick :
    (ts : List Tree) {t : Tree} {rest : List Tree}
    → fetch_min_btree_node ts ≡ some (t, rest)
    → Pick t rest ts
unfolding fetch_min_btree_node
fetch_min-Pick [] h = let bad : ⊥ = cc in absurd bad
fetch_min-Pick (u ∷ ts) {t} {rest} h =
    let found =
      min_from-get_elem? (u ∷ ts) u 0 1 ts refl
        λ j. ap (get_elem? (u ∷ ts)) {x = suc j} (omega arith) in
    let p = Pick_at (u ∷ ts) ((min_from u 0 1 ts).1) found in
    let et : (min_from u 0 1 ts).0 ≡ t = cc in
    let er : remove_at ((min_from u 0 1 ts).1) (u ∷ ts) ≡ rest = cc in rw (et, er) at p

pub fetch_min-none : (ts : List Tree) → fetch_min_btree_node ts ≡ none → ts ≡ []
unfolding fetch_min_btree_node
fetch_min-none [] h = refl
fetch_min-none (u ∷ ts) h = cc
