-- ===== src/Dlist/Sort/Rounds.antt =====
-- `dlist_sort` (src/dlist.c).
use sftt.Base.{
  ℕ, zero, suc, ◌+◌, ◌<◌, ◌≡◌, ◌≢◌, refl, Bool, false, [], ◌∷◌, ◌++◌, append-nil, length,
  length-append, arith, ap, ◌∙◌, sym, subst, ◌==◌, ne→==, eq→==, Result, ok,
}
use sftt.Base.Count.{hit}
use sftt.Base.Int.{ℤ}
use sftt.Dlist.{Store, Dlist, Removed, dlist_remove}
use sftt.Dlist.Cells.{
  Cells, occ, IsList, IsList-frame, Chain-frame, Chain-split, hit_self, occ-append,
}
use sftt.Dlist.Link.{if_true}
use sftt.Dlist.Remove.{dlist_remove_lem}
use sftt.Dlist.Walk.{Sorting, pick, chain_node, sort_loop, dlist_sort}
use sftt.Dlist.Sort.{IsOrder, Best, Sorted}
use sftt.Dlist.Sort.Order.{Below-drop, Sorted-snoc, perm_move}
use mathlib.Core.Nat
use mathlib.Core.List
use mathlib.Core.List.Perm
use mathlib.Core.List.{Perm}
use sftt.Dlist.Sort.Loop.{replaces, pick_lem, Mid, Onward, chain_node_lem}

-- The library's length stands on another ℕ.
native_of : Nat.ℕ → ℕ
native_of Nat.zero = 0
native_of (Nat.suc n) = suc (native_of n)

length_native : (xs : Cells) → length xs ≡ native_of (List.length xs)
unfolding native_of
length_native [] = refl
length_native (c ∷ xs) = ap suc (length_native xs)

length-perm : (xs ys : Cells) → Perm xs ys → length xs ≡ length ys
length-perm xs ys p = length_native xs ∙ ap native_of (Perm.length-eq p) ∙ sym (length_native ys)

module _ (cmp : ℕ → ℕ → ℤ) (asc : Bool) (ord : IsOrder (replaces cmp asc)) where
  one_round :
      (fuel n : ℕ) (s s' : Sorting) (r : Removed)
      → s.list.size ≢ 0
      → pick cmp asc s.store s.list ≡ ok n
      → dlist_remove s.store s.list n false ≡ ok r
      → chain_node r.store r.list s.new_head s.new_tail n ≡ ok s'
      → sort_loop (suc fuel) cmp asc s ≡ sort_loop fuel cmp asc s'
  unfolding sort_loop
  one_round fuel n s s' r ne e1 e2 e3 = rw (ne→== s.list.size 0 ne, e1, e2, e3) refl

  -- An iteration takes one node of the rest to the end of the sorted part.
  iterate :
      (fuel : ℕ) (s : Sorting) (done pre : Cells) (n d : ℕ) (post : Cells)
      → Mid cmp asc ord s done (pre ++ (n, d) ∷ post)
      → Best (replaces cmp asc) d (pre ++ (n, d) ∷ post)
      → pick cmp asc s.store s.list ≡ ok n
      → (s' : Sorting) × (sort_loop (suc fuel) cmp asc s ≡ sort_loop fuel cmp asc s')
        × Mid cmp asc ord s' (done ++ (n, d) ∷ []) (pre ++ post)
        × ((a : ℕ) → occ a (done ++ (pre ++ (n, d) ∷ post)) ≡ 0 → s'.store a ≡ s.store a)
  iterate fuel s done pre n d post mid best picked =
      let rest = pre ++ (n, d) ∷ post in
      let rest' = pre ++ post in
      let is = mid.is_rest in
      let total : (a : ℕ) → occ a done + (occ a pre + (hit a n + occ a post)) < 2 =
        λ a. omega (arith, mid.apart a, occ-append a pre ((n, d) ∷ post)) in
      let (c1, (ne, here, c2)) = Chain-split s.store 0 pre ((n, d) ∷ post) 0 is.chain in
      let n_done : occ n done ≡ 0 = omega (arith, total n, hit_self n) in
      let out = dlist_remove_lem s.store s.list pre n d post false is in
      let r = out.gone in
      let kept : (y : ℕ) → 0 < occ y done → r.store y ≡ s.store y =
        λ y lt. out.same y (omega (arith, mid.apart y, lt)) in
      let it =
        chain_node_lem r.store r.list n d s.new_head s.new_tail done
          (Chain-frame s.store r.store 0 done 0 kept mid.chain) (λ a. omega (arith, total a)) n_done
          ne out.freed mid.head mid.tail in
      let s' = it.sorting in
      let left : (y : ℕ) → 0 < occ y rest' → occ y (done ++ (n, d) ∷ []) ≡ 0 = λ y lt.
        omega (arith, total y, lt, occ-append y pre post, occ-append y done ((n, d) ∷ [])) in
      (
        s',
        one_round fuel n s s' r
            (λ e. absurd (omega (arith, e, is.size, length-append pre ((n, d) ∷ post)))) picked
            out.runs it.runs,
        record {
          is_rest =
              subst (λ l. IsList s'.store l rest') (sym it.list)
                (IsList-frame r.store s'.store r.list rest' (λ y lt. it.same y (left y lt))
                  out.is_list);
          chain = it.chain;
          head = it.head;
          tail = it.tail;
          apart =
              λ a. omega (arith, total a, occ-append a pre post, occ-append a done ((n, d) ∷ []));
          sorted = Sorted-snoc (replaces cmp asc) ord done pre post (n, d) mid.below mid.sorted;
          below = Below-drop (replaces cmp asc) ord done pre post (n, d) mid.below best;
        },
        λ a o.
            let o' : occ a done + (occ a pre + (hit a n + occ a post)) ≡ 0 =
              omega (arith, o, occ-append a done rest, occ-append a pre ((n, d) ∷ post)) in
            it.same a (omega (arith, o', occ-append a done ((n, d) ∷ [])))
            ∙ out.same a (omega (arith, o', occ-append a pre ((n, d) ∷ post))),
      )

  loop_lem :
      (fuel : ℕ) (s : Sorting) (done rest : Cells)
      → length rest < fuel
      → Mid cmp asc ord s done rest
      → Onward cmp asc ord s (done ++ rest) (sort_loop fuel cmp asc s) []
  unfolding sort_loop
  loop_lem zero s done rest lt mid = absurd (omega (arith, lt))
  loop_lem (suc fuel) s done [] lt mid = record {
    sorting = s;
    runs = if_true (s.list.size == 0) (ok s) _ (eq→== s.list.size 0 mid.is_rest.size);
    done = done;
    mid = mid;
    perm = rw (append-nil done) (Perm.refl done);
    same = λ a o. refl;
  }
  loop_lem (suc fuel) s done ((x, e) ∷ xs) lt mid =
      let found = pick_lem cmp asc s.store s.list x e xs ord mid.is_rest in
      let n = found.node in
      let d = found.data_of in
      let pre = found.place.pre in
      let post = found.place.post in
      let eq = found.place.split in
      let (s', runs, mid', same) =
        iterate fuel s done pre n d post (subst (λ r. Mid cmp asc ord s done r) eq mid)
          (subst (λ r. Best (replaces cmp asc) d r) eq found.best) found.runs in
      let fewer : length (pre ++ post) < fuel = omega (
        arith,
        lt,
        ap (length {A = ℕ × ℕ}) eq,
        length-append pre ((n, d) ∷ post),
        length-append pre post,
      ) in
      let it = loop_lem fuel s' (done ++ (n, d) ∷ []) (pre ++ post) fewer mid' in
      record {
        sorting = it.sorting;
        runs = runs ∙ it.runs;
        done = it.done;
        mid = it.mid;
        perm = rw eq (Perm.trans (perm_move done pre post (n, d)) it.perm);
        same = λ a o.
            let o' : occ a (done ++ (pre ++ (n, d) ∷ post)) ≡ 0 = rw eq at o in
            let o2 : occ a done + (occ a pre + (hit a n + occ a post)) ≡ 0 = omega (
              arith,
              o',
              occ-append a done (pre ++ (n, d) ∷ post),
              occ-append a pre ((n, d) ∷ post),
            ) in
            it.same a (
              omega (
                arith,
                o2,
                occ-append a (done ++ (n, d) ∷ []) (pre ++ post),
                occ-append a done ((n, d) ∷ []),
                occ-append a pre post,
              ))
            ∙ same a o';
      }

-- What sorting leaves.
pub record SortedTo (better : ℕ → ℕ → Bool) (h : Store) (xs : Cells) (run : Result (Store × Dlist))
    : Type 0 where
  pub store : Store
  pub list : Dlist
  pub runs : run ≡ ok (store, list)
  pub cells : Cells
  pub is_list : IsList store list cells
  pub sorted : Sorted better cells
  pub perm : Perm xs cells
  pub same : (a : ℕ) → occ a xs ≡ 0 → store a ≡ h a

-- For a comparison of which at most one of two data replaces the other and whose negation is
-- transitive, `dlist_sort` of a list that is linked both ways and has distinct nodes ends without
-- a fault, and leaves a list whose nodes are a permutation of the old ones with their data, in
-- ascending or descending order as asked; no other address changes.
pub dlist_sort_lem :
    (cmp : ℕ → ℕ → ℤ) (asc : Bool) (h : Store) (l : Dlist) (xs : Cells)
    → IsOrder (replaces cmp asc)
    → IsList h l xs
    → SortedTo (replaces cmp asc) h xs (dlist_sort cmp asc h l)
unfolding dlist_sort
dlist_sort_lem cmp asc h l xs ord is =
    let start : Sorting = record { store = h; list = l; new_head = 0; new_tail = 0 } in
    let it = loop_lem cmp asc ord (suc l.size) start [] xs (omega (arith, is.size)) (record {
      is_rest = is;
      chain = tt;
      head = refl;
      tail = refl;
      apart = λ a. omega (arith, is.distinct a);
      sorted = tt;
      below = tt;
    }) in
    let s = it.sorting in
    let ys = it.done in
    let perm : Perm xs ys = rw (append-nil ys) at it.perm in
    record {
      store = s.store;
      list = record { size = l.size; head = s.new_head; tail = s.new_tail };
      runs = rw it.runs (rw (it.mid.is_rest.head, it.mid.is_rest.tail) refl);
      cells = ys;
      is_list = record {
        chain = it.mid.chain;
        distinct = λ a. omega (arith, it.mid.apart a);
        head = it.mid.head;
        tail = it.mid.tail;
        size = is.size ∙ length-perm xs ys perm;
      };
      sorted = it.mid.sorted;
      perm = perm;
      same = it.same;
    }
