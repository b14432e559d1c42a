-- ===== src/Dlist/Sort/Loop.antt =====
-- The loop of `dlist_sort` (src/dlist.c).
use sftt.Base.{
  ℕ, suc, ◌+◌, ◌<◌, ◌≡◌, ◌≢◌, refl, Bool, true, false, some, [], ◌∷◌, ◌++◌, arith, ◌∙◌, sym,
  if◌then◌else◌, ne→==, Result, ok,
}
use sftt.Base.Count.{hit}
use sftt.Base.Int.{ℤ, is_pos, is_neg}
use sftt.Dlist.{dnode, Store, write, Dlist}
use sftt.Dlist.Cells.{
  Cells, occ, first, last, Chain, Distinct, IsList, Chain-frame, Chain-append, hit_zero, occ-append,
  last-append,
}
use sftt.Dlist.Link.{write_same, write_other, ne_of, set_next-last, set_prev-some}
use sftt.Dlist.Walk.{Sorting, dlist_get_min, dlist_get_max, pick, chain_node}
use sftt.Dlist.Sort.{IsOrder, Sorted}
use sftt.Dlist.Sort.Scan.{Found, scan_lem}
use sftt.Dlist.Sort.Order.{Below}
use mathlib.Core.List.{Perm}

-- `node = p` is run for the data `b` after the data `a` of the node so far.
abbrev pub replaces : (ℕ → ℕ → ℤ) → Bool → ℕ → ℕ → Bool
replaces cmp asc a b = if asc then is_pos (cmp a b) else is_neg (cmp a b)

pub pick_lem :
    (cmp : ℕ → ℕ → ℤ) (asc : Bool) (h : Store) (l : Dlist) (x d : ℕ) (xs : Cells)
    → IsOrder (replaces cmp asc)
    → IsList h l ((x, d) ∷ xs)
    → Found (replaces cmp asc) ((x, d) ∷ xs) (pick cmp asc h l)
unfolding pick dlist_get_min dlist_get_max
pick_lem cmp true h l x d xs ord is =
    rw is.head
      (scan_lem h (replaces cmp true) ord (suc l.size) x d xs (omega (arith, is.size)) is.chain)
pick_lem cmp false h l x d xs ord is =
    rw is.head
      (scan_lem h (replaces cmp false) ord (suc l.size) x d xs (omega (arith, is.size)) is.chain)

module _ (cmp : ℕ → ℕ → ℤ) (asc : Bool) (ord : IsOrder (replaces cmp asc)) where
  -- The new list so far is sorted, and nothing of the rest belongs before it.
  pub record Mid (s : Sorting) (done rest : Cells) : Type 0 where
    pub is_rest : IsList s.store s.list rest
    pub chain : Chain s.store 0 done 0
    pub head : s.new_head ≡ first done 0
    pub tail : s.new_tail ≡ last 0 done
    pub apart : (a : ℕ) → occ a done + occ a rest < 2
    pub sorted : Sorted (replaces cmp asc) done
    pub below : Below (replaces cmp asc) ord done rest

  -- What an iteration, or the loop, comes to.
  pub record Onward (s : Sorting) (cells : Cells) (run : Result Sorting) (rest : Cells)
      : Type 0 where
    pub sorting : Sorting
    pub runs : run ≡ ok sorting
    pub done : Cells
    pub mid : Mid sorting done rest
    pub perm : Perm cells (done ++ rest)
    pub same : (a : ℕ) → occ a cells ≡ 0 → sorting.store a ≡ s.store a

-- What `chain_node` leaves of the chain that it makes longer.
pub record Longer (g : Store) (l : Dlist) (n d : ℕ) (done : Cells) (run : Result Sorting)
    : Type 0 where
  pub sorting : Sorting
  pub runs : run ≡ ok sorting
  pub list : sorting.list ≡ l
  pub chain : Chain sorting.store 0 (done ++ (n, d) ∷ []) 0
  pub head : sorting.new_head ≡ first (done ++ (n, d) ∷ []) 0
  pub tail : sorting.new_tail ≡ last 0 (done ++ (n, d) ∷ [])
  pub same : (a : ℕ) → occ a (done ++ (n, d) ∷ []) ≡ 0 → sorting.store a ≡ g a

pub chain_node_lem :
    (g : Store) (l : Dlist) (n d new_head new_tail : ℕ) (done : Cells)
    → Chain g 0 done 0
    → Distinct done
    → occ n done ≡ 0
    → n ≢ 0
    → g n ≡ some (dnode d 0 0)
    → new_head ≡ first done 0
    → new_tail ≡ last 0 done
    → Longer g l n d done (chain_node g l new_head new_tail n)
unfolding chain_node
chain_node_lem g l n d new_head new_tail [] c u far ne at eh et = record {
  sorting = record { store = g; list = l; new_head = n; new_tail = n };
  runs = rw eh refl;
  list = refl;
  chain = (ne, at, tt);
  head = refl;
  tail = refl;
  same = λ a o. refl;
}
chain_node_lem g l n d new_head new_tail ((x, e) ∷ done) (xne, xhere, c) u far ne at eh et =
    let it = set_next-last g 0 x e done 0 n (xne, xhere, c) u in
    let t = last x done in
    let k = write it.after n (some (dnode d t 0)) in
    let n_at : it.after n ≡ some (dnode d 0 0) = it.same n far ∙ at in
    record {
      sorting = record { store = k; list = l; new_head = new_head; new_tail = n };
      runs = rw (eh, et, ne→== x 0 xne, it.runs, set_prev-some it.after n t d 0 0 ne n_at) refl;
      list = refl;
      chain =
          Chain-append k 0 ((x, e) ∷ done) ((n, d) ∷ []) 0
            (Chain-frame it.after k 0 ((x, e) ∷ done) n
              (λ y lt.
                write_other it.after n (some (dnode d t 0)) y (ne_of y n ((x, e) ∷ done) lt far))
              it.chain)
            (ne, write_same it.after n (some (dnode d t 0)), tt);
      head = eh;
      tail = sym (last-append 0 ((x, e) ∷ done) ((n, d) ∷ []));
      same = λ a o.
          let o' : occ a ((x, e) ∷ done) + (hit a n + 0) ≡ 0 =
            omega (arith, o, occ-append a ((x, e) ∷ done) ((n, d) ∷ [])) in
          write_other it.after n (some (dnode d t 0)) a (hit_zero a n (omega (arith, o')))
          ∙ it.same a (omega (arith, o'));
    }
