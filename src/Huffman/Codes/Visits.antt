-- ===== src/Huffman/Codes/Visits.antt =====
-- `get_char_codes` ends, and gives each leaf the path that leads to it.
use sftt.Base.{
  ℕ, zero, suc, ◌+◌, ◌*◌, ◌≡◌, refl, true, false, some, List, [], ◌∷◌, ◌++◌, arith, append_assoc,
  append-nil, tail, ok, ◌∙◌, ap, lt→ltb,
}
use sftt.Base.Int.{ℤ, pos, negsuc}
use sftt.Base.Count.{has}
use sftt.Huffman.Tree.{Tree, null, node, CharStat, btree_is_leaf, btree_node_count, is_null}
use sftt.Huffman.Codes.{
  Code, Codes, Walk, unseen, visit, walk, enter, leave, save_code, get_char_codes, get_char_code,
}
use sftt.Huffman.Codes.Shape.{
  ids, ids_below, Fresh, IsCoded, IsIndex, put_codes, put_code, path_code, Fresh-append,
}

abbrev at : Code → List Tree → List ℕ → Codes → Walk
at sc stn m codes = record { sc = sc; stn = stn; seen = m; codes = codes }

-- The rounds that enter a tree, walk it and leave it.
cost : Tree → ℕ
cost null = 0
cost (node a s l r) = 2 + (cost l + cost r)

cost_lem : (t : Tree) → cost t ≡ 2 * btree_node_count t
unfolding cost btree_node_count
cost_lem null = refl
cost_lem (node a s l r) = omega (arith, cost_lem l, cost_lem r)

has-append : (x : ℕ) (xs ys : List ℕ) → has x xs ≡ true → has x (xs ++ ys) ≡ true
has-append x [] ys h = cc
has-append x (y ∷ xs) ys h = ground (arith, has-append x xs ys)

has-append_right : (x : ℕ) (xs ys : List ℕ) → has x ys ≡ true → has x (xs ++ ys) ≡ true
has-append_right x [] ys h = h
has-append_right x (y ∷ xs) ys h = ground (arith, has-append_right x xs ys)

unseen-ids : (t : Tree) (m : List ℕ) → unseen t (m ++ ids t) ≡ false
unfolding unseen
unseen-ids null m = refl
unseen-ids (node a s l r) m = ground (arith, has-append_right a m (a ∷ (ids l ++ ids r)))

unseen-append : (t : Tree) (m ms : List ℕ) → unseen t m ≡ false → unseen t (m ++ ms) ≡ false
unfolding unseen
unseen-append null m ms h = refl
unseen-append (node a s l r) m ms h = ground (arith, has-append a m ms)

get_char_code-path : (sc : Code) → get_char_code sc ≡ path_code sc
unfolding get_char_code
get_char_code-path [] = refl
get_char_code-path (d ∷ sc) = refl

save_code_lem :
    (c : ℤ) (w : Walk)
    → IsIndex c
    → save_code c w ≡ ok (record w { codes = put_code c (path_code w.sc) w.codes })
unfolding save_code
save_code_lem (pos c) w h = rw (lt→ltb _ _ h, get_char_code-path w.sc)
save_code_lem (negsuc n) w h = absurd h

-- From `t` on top of the stack the walk goes through everything under `t` and leaves it.
abbrev Visits : Tree → Type 0
Visits t =
    (f k : ℕ) (sc : Code) (stn : List Tree) (m : List ℕ) (codes : Codes)
    → suc f ≡ cost t + k
    → Fresh m (ids_below t)
    → walk f (at sc (t ∷ stn) m codes)
      ≡ walk k (at (tail sc) stn (m ++ ids_below t) (put_codes t sc codes))

module _ (a : ℕ) (s : CharStat) (l r : Tree) (sc : Code) (stn : List Tree) where
  abbrev here : List ℕ → Codes → Walk
  here m codes = at sc (node a s l r ∷ stn) m codes

  visit_leaf :
      (m : List ℕ) (codes : Codes)
      → btree_is_leaf (node a s l r) ≡ true
      → IsIndex s.ch
      → visit (node a s l r) (here m codes)
        ≡ ok (at (tail sc) stn m (put_code s.ch (path_code sc) codes))
  unfolding visit
  visit_leaf m codes leaf ix = rw (leaf, save_code_lem s.ch (here m codes) ix)

  module _ (inner : btree_is_leaf (node a s l r) ≡ false) where
    visit_left :
        (m : List ℕ) (codes : Codes)
        → unseen l m ≡ true
        → visit (node a s l r) (here m codes) ≡ ok (enter b'1' l (here m codes))
    unfolding visit
    visit_left m codes new = rw (inner, new)

    visit_right :
        (m : List ℕ) (codes : Codes)
        → unseen l m ≡ false
        → unseen r m ≡ true
        → visit (node a s l r) (here m codes) ≡ ok (enter b'0' r (here m codes))
    unfolding visit
    visit_right m codes old new = rw (inner, old, new)

    visit_done :
        (m : List ℕ) (codes : Codes)
        → unseen l m ≡ false
        → unseen r m ≡ false
        → visit (node a s l r) (here m codes) ≡ ok (at (tail sc) stn m codes)
    unfolding visit leave
    visit_done m codes old old' = rw (inner, old, old')

walk_step :
    (k : ℕ) (sc : Code) (t : Tree) (stn : List Tree) (m : List ℕ) (codes : Codes) {w : Walk}
    → visit t (at sc (t ∷ stn) m codes) ≡ ok w
    → walk (suc k) (at sc (t ∷ stn) m codes) ≡ walk k w
unfolding walk
walk_step k sc t stn m codes e = rw e

enter_new :
    (d : ℕ) (a : ℕ) (s : CharStat) (l r : Tree) (sc : Code) (stn : List Tree) (m : List ℕ)
    (codes : Codes)
    → has a m ≡ false
    → enter d (node a s l r) (at sc stn m codes)
      ≡ at (d ∷ sc) (node a s l r ∷ stn) (m ++ a ∷ []) codes
unfolding enter
enter_new d a s l r sc stn m codes new = rw (new)

-- A child `c` of the node `t`, if it is not NULL, is entered by the digit `d` and walked.
walk_child :
    (c : Tree) (d : ℕ) (t : Tree) (f k : ℕ) (sc : Code) (stn : List Tree) (m : List ℕ)
    (codes : Codes)
    → (is_null c ≡ false → Visits c)
    → f ≡ cost c + k
    → Fresh m (ids c)
    → (unseen c m ≡ true
        → visit t (at sc (t ∷ stn) m codes) ≡ ok (enter d c (at sc (t ∷ stn) m codes)))
    → walk f (at sc (t ∷ stn) m codes)
      ≡ walk k (at sc (t ∷ stn) (m ++ ids c) (put_codes c (d ∷ sc) codes))
unfolding cost unseen is_null
walk_child null d t f k sc stn m codes ih e fresh go =
    let e' : f ≡ k = omega arith in unfold put_codes in rw (append-nil, e')
walk_child (node a s l r) d t zero k sc stn m codes ih e fresh go = absurd (omega arith)
walk_child (node a s l r) d t (suc f) k sc stn m codes ih e fresh go =
    walk_step f sc t stn m codes
      (go (rw fresh.0) ∙ ap ok (enter_new d a s l r sc (t ∷ stn) m codes fresh.0))
    ∙ ih refl f k (d ∷ sc) (t ∷ stn) (m ++ a ∷ []) codes (omega arith) fresh.1
    ∙ ap (λ x. walk k (at sc (t ∷ stn) x (put_codes (node a s l r) (d ∷ sc) codes)))
        (append_assoc m (a ∷ []) (ids l ++ ids r))

Visits-inner :
    (a : ℕ) (s : CharStat) (l r : Tree)
    → btree_is_leaf (node a s l r) ≡ false
    → (is_null l ≡ false → Visits l)
    → (is_null r ≡ false → Visits r)
    → Visits (node a s l r)
unfolding cost
Visits-inner a s l r inner ihl ihr f k sc stn m codes e fresh =
    let t = node a s l r in
    let cl = put_codes l (b'1' ∷ sc) codes in
    let cr = put_codes r (b'0' ∷ sc) cl in
    let (fl, fr) = Fresh-append m (ids l) (ids r) fresh in
    let old = unseen-ids l m in
    walk_child l b'1' t f (cost r + suc k) sc stn m codes ihl (omega arith) fl
      (visit_left a s l r sc stn inner m codes)
    ∙ walk_child r b'0' t (cost r + suc k) (suc k) sc stn (m ++ ids l) cl ihr refl fr
        (visit_right a s l r sc stn inner (m ++ ids l) cl old)
    ∙ walk_step k sc t stn ((m ++ ids l) ++ ids r) cr (
        visit_done a s l r sc stn inner ((m ++ ids l) ++ ids r) cr
          (unseen-append l (m ++ ids l) (ids r) old) (unseen-ids r (m ++ ids l)))
    ∙ unfold put_codes in rw (inner, append_assoc m (ids l) (ids r))

Visits-leaf : (a : ℕ) (s : CharStat) → IsIndex s.ch → Visits (node a s null null)
unfolding cost put_codes btree_is_leaf
Visits-leaf a s ix zero k sc stn m codes e fresh = absurd (omega arith)
Visits-leaf a s ix (suc f) k sc stn m codes e fresh =
    let e' : f ≡ k = omega arith in
    walk_step f sc (node a s null null) stn m codes
      (visit_leaf a s null null sc stn m codes refl ix)
    ∙ rw (append-nil, e')

Visits_lem : (t : Tree) → is_null t ≡ false → IsCoded t → Visits t
unfolding btree_is_leaf
Visits_lem null h c = let bad : ⊥ = cc in absurd bad
Visits_lem (node a s null null) h c = Visits-leaf a s (c.0 refl)
Visits_lem (node a s (node a' s' l' r') r) h c =
    Visits-inner a s (node a' s' l' r') r refl (λ n. Visits_lem (node a' s' l' r') n c.1)
      (λ n. Visits_lem r n c.2)
Visits_lem (node a s null (node a' s' l' r')) h c =
    Visits-inner a s null (node a' s' l' r') refl (λ n. cc)
      (λ n. Visits_lem (node a' s' l' r') n c.2)

-- On a tree that is not NULL, whose leaves are chars and whose nodes below the root are all
-- different, `get_char_codes` ends, with no fault, and stores for each leaf its path from the root;
-- for a root that is itself a leaf it stores NULL.
pub get_char_codes_lem :
    (t : Tree) (codes : Codes)
    → is_null t ≡ false
    → IsCoded t
    → Fresh [] (ids_below t)
    → get_char_codes t codes ≡ ok (some (put_codes t [] codes))
unfolding get_char_codes walk cost is_null
get_char_codes_lem null codes h c fresh = cc
get_char_codes_lem (node a s l r) codes h c fresh =
    let t = node a s l r in
    rw
      (Visits_lem t h c (2 * btree_node_count t) 1 [] [] [] codes (omega (arith, cost_lem t)) fresh)
