-- ===== src/Dlist/Merge.antt =====
-- `dlist_merge` (src/dlist.c).
use sftt.Base.{
  ℕ, ◌+◌, ◌<◌, ◌≡◌, refl, [], ◌∷◌, ◌++◌, append-nil, length-append, arith, ◌∙◌, sym, ne→==, Result,
  ok,
}
use sftt.Dlist.{Store, Dlist, dlist_empty}
use sftt.Dlist.Cells.{
  Cells, occ, last, Distinct, IsList, Chain-frame, Chain-append, occ-append, last-append,
}
use sftt.Dlist.Link.{set_next-last, last_ne_zero, link_prev-first, link_prev_some}
use sftt.Dlist.Walk.{dlist_merge, join}

-- What a merge leaves.
pub record Merged (h : Store) (zs : Cells) (run : Result (Store × Dlist)) : Type 0 where
  pub store : Store
  pub list : Dlist
  pub runs : run ≡ ok (store, list)
  pub is_list : IsList store list zs
  pub same : (a : ℕ) → occ a zs ≡ 0 → store a ≡ h a

pub empty_yes : (h : Store) (l : Dlist) → IsList h l [] → dlist_empty l ≡ ok 1
unfolding dlist_empty
empty_yes h l is = rw (is.size, is.head, is.tail) refl

pub empty_no :
    (h : Store) (l : Dlist) (x d : ℕ) (xs : Cells) → IsList h l ((x, d) ∷ xs) → dlist_empty l ≡ ok 0
unfolding dlist_empty
empty_no h l x d xs is =
    rw
      (
        ne→== l.size 0 (λ e. absurd (omega (arith, e, is.size))),
        ne→== l.head 0 (λ e. (is.chain).0 (sym is.head ∙ e)),
        ne→== l.tail 0 (λ e. last_ne_zero h 0 x d xs 0 is.chain (sym is.tail ∙ e)),
      )
      refl

join_lem :
    (h : Store) (a b : Dlist) (x d y e : ℕ) (xs ys : Cells)
    → IsList h a ((x, d) ∷ xs)
    → IsList h b ((y, e) ∷ ys)
    → Distinct (((x, d) ∷ xs) ++ (y, e) ∷ ys)
    → Merged h (((x, d) ∷ xs) ++ (y, e) ∷ ys) (join h a b)
unfolding join
join_lem h a b x d y e xs ys ia ib u =
    let us = (x, d) ∷ xs in
    let ws = (y, e) ∷ ys in
    let total : (z : ℕ) → occ z us + occ z ws < 2 = λ z. omega (arith, u z, occ-append z us ws) in
    let it = set_next-last h 0 x d xs 0 y ia.chain ia.distinct in
    let on =
      link_prev-first it.after 0 ws (last x xs)
        (Chain-frame h it.after 0 ws 0 (λ z lt. it.same z (omega (arith, total z, lt))) ib.chain)
        ib.distinct in
    record {
      store = on.after;
      list = record { size = a.size + b.size; head = a.head; tail = b.tail };
      runs =
          rw
            (
              ia.tail,
              ib.head,
              it.runs,
              sym (link_prev_some it.after y (last x xs) (ib.chain).0),
              on.runs,
            )
            refl;
      is_list = record {
        chain =
            Chain-append on.after 0 us ws 0
              (Chain-frame it.after on.after 0 us y (λ z lt. on.same z (omega (arith, total z, lt)))
                it.chain)
              on.chain;
        distinct = u;
        head = ia.head;
        tail = ib.tail ∙ sym (last-append 0 us ws);
        size = omega (arith, ia.size, ib.size, length-append us ws);
      };
      same = λ z o.
          let o' : occ z us + occ z ws ≡ 0 = omega (arith, o, occ-append z us ws) in
          on.same z (omega (arith, o')) ∙ it.same z (omega (arith, o'));
    }

-- For two lists that are linked both ways and have no node in common, either of which may be
-- empty, `dlist_merge` does not fault and returns a list of the nodes of the first and then those
-- of the second, its head, tail and size right; no other address changes.
pub dlist_merge_lem :
    (h : Store) (a b : Dlist) (xs ys : Cells)
    → IsList h a xs
    → IsList h b ys
    → Distinct (xs ++ ys)
    → Merged h (xs ++ ys) (dlist_merge h a b)
unfolding dlist_merge
dlist_merge_lem h a b [] ys ia ib u = record {
  store = h;
  list = b;
  runs = rw (empty_yes h a ia) refl;
  is_list = ib;
  same = λ z o. refl;
}
dlist_merge_lem h a b ((x, d) ∷ xs) [] ia ib u = record {
  store = h;
  list = a;
  runs = rw (empty_no h a x d xs ia, empty_yes h b ib) refl;
  is_list = rw (append-nil xs) ia;
  same = λ z o. refl;
}
dlist_merge_lem h a b ((x, d) ∷ xs) ((y, e) ∷ ys) ia ib u =
    rw (empty_no h a x d xs ia, empty_no h b y e ys ib) (join_lem h a b x d y e xs ys ia ib u)
