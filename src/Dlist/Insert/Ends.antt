-- ===== src/Dlist/Insert/Ends.antt =====
-- `dlist_append` and `dlist_prepend` (src/dlist.c).
use sftt.Base.{
  ℕ, ◌+◌, ◌≡◌, ◌≢◌, refl, none, some, append_assoc, [], ◌∷◌, ◌++◌, arith, ap, ◌∙◌, sym, subst, ◌==◌,
  if◌then◌else◌, ne→==, eq→==,
}
use sftt.Base.Int.{pos}
use sftt.Dlist.{
  dnode, Store, Dlist, refused, dlist_ins_next, dlist_ins_prev, dlist_append, dlist_prepend,
  ins_only, ins_next_at, ins_prev_at, dlist_node_create,
}
use sftt.Dlist.Cells.{Cells, Chain-split, IsList, last-append}
use sftt.Dlist.Link.{if_true, if_false, write_same, write_other}
use sftt.Dlist.Insert.{Inserted}
use sftt.Dlist.Insert.Next.{dlist_ins_next_lem}
use sftt.Dlist.Insert.Prev.{dlist_ins_prev_lem}
use sftt.Dlist.Cells.{snoc_view}

-- The first node of an empty list.
ins_only_lem :
    (h : Store) (fresh : ℕ) (l : Dlist) (v : ℕ)
    → IsList h l []
    → fresh ≢ 0
    → Inserted h fresh [] (ins_only h fresh l v) ((fresh, v) ∷ [])
unfolding ins_only dlist_node_create
ins_only_lem h fresh l v is ne = record {
  done = record {
    store = dlist_node_create h fresh v;
    list = record { size = l.size + 1; head = fresh; tail = fresh };
    ret = pos (l.size + 1);
  };
  runs = rw (is.head, is.tail, ne→== fresh 0 ne) refl;
  is_list = record {
    chain = (ne, write_same h fresh (some (dnode v 0 0)), tt);
    distinct = λ a. ground arith;
    head = refl;
    tail = refl;
    size = omega (arith, is.size);
  };
  ret = ap pos (omega (arith, is.size));
  same = λ a n o. write_other h fresh (some (dnode v 0 0)) a n;
}

-- A field and the call that is chosen by it.
append_empty :
    (h : Store) (fresh : ℕ) (l : Dlist) (v : ℕ)
    → l.tail ≡ 0
    → dlist_append h fresh l v ≡ ins_only h fresh l v
unfolding dlist_append
append_empty h fresh l v e =
    if_true (l.tail == 0) (ins_only h fresh l v) (dlist_ins_next h fresh l l.tail v)
      (eq→== l.tail 0 e)

append_full :
    (h : Store) (fresh : ℕ) (l : Dlist) (x v : ℕ)
    → l.tail ≡ x
    → x ≢ 0
    → dlist_append h fresh l v ≡ dlist_ins_next h fresh l x v
unfolding dlist_append
append_full h fresh l x v e ne =
    if_false (l.tail == 0) (ins_only h fresh l v) (dlist_ins_next h fresh l l.tail v)
      (ne→== l.tail 0 (λ z. ne (sym e ∙ z)))
    ∙ ap (λ t. dlist_ins_next h fresh l t v) e

prepend_empty :
    (h : Store) (fresh : ℕ) (l : Dlist) (v : ℕ)
    → l.head ≡ 0
    → dlist_prepend h fresh l v ≡ ins_only h fresh l v
unfolding dlist_prepend
prepend_empty h fresh l v e =
    if_true (l.head == 0) (ins_only h fresh l v) (dlist_ins_prev h fresh l l.head v)
      (eq→== l.head 0 e)

prepend_full :
    (h : Store) (fresh : ℕ) (l : Dlist) (x v : ℕ)
    → l.head ≡ x
    → x ≢ 0
    → dlist_prepend h fresh l v ≡ dlist_ins_prev h fresh l x v
unfolding dlist_prepend
prepend_full h fresh l x v e ne =
    if_false (l.head == 0) (ins_only h fresh l v) (dlist_ins_prev h fresh l l.head v)
      (ne→== l.head 0 (λ z. ne (sym e ∙ z)))
    ∙ ap (λ t. dlist_ins_prev h fresh l t v) e

append_to :
    (h : Store) (fresh : ℕ) (l : Dlist) (pre : Cells) (x d v : ℕ)
    → IsList h l (pre ++ (x, d) ∷ [])
    → h fresh ≡ none
    → fresh ≢ 0
    → Inserted h fresh
        (pre ++ (x, d) ∷ [])
        (dlist_append h fresh l v)
        ((pre ++ (x, d) ∷ []) ++ (fresh, v) ∷ [])
append_to h fresh l pre x d v is free ne =
    let (c1, (xne, here, rest)) = Chain-split h 0 pre ((x, d) ∷ []) 0 is.chain in
    let t : l.tail ≡ x = is.tail ∙ last-append 0 pre ((x, d) ∷ []) in
    rw (append_assoc pre ((x, d) ∷ []) ((fresh, v) ∷ []), append_full h fresh l x v t xne)
      (dlist_ins_next_lem h fresh l pre x d [] v is free ne)

-- `dlist_append` puts the new node at the end of any list, an empty one too.
pub dlist_append_lem :
    (h : Store) (fresh : ℕ) (l : Dlist) (xs : Cells) (v : ℕ)
    → IsList h l xs
    → h fresh ≡ none
    → fresh ≢ 0
    → Inserted h fresh xs (dlist_append h fresh l v) (xs ++ (fresh, v) ∷ [])
dlist_append_lem h fresh l [] v is free ne =
    rw (append_empty h fresh l v is.tail) (ins_only_lem h fresh l v is ne)
dlist_append_lem h fresh l (c ∷ xs) v is free ne =
    let (pre, x, d, e) = snoc_view c xs in
    subst
      (λ ys. IsList h l ys → Inserted h fresh ys (dlist_append h fresh l v) (ys ++ (fresh, v) ∷ []))
      (sym e) (λ is'. append_to h fresh l pre x d v is' free ne) is

-- `dlist_prepend` puts the new node at the front of any list, an empty one too.
pub dlist_prepend_lem :
    (h : Store) (fresh : ℕ) (l : Dlist) (xs : Cells) (v : ℕ)
    → IsList h l xs
    → h fresh ≡ none
    → fresh ≢ 0
    → Inserted h fresh xs (dlist_prepend h fresh l v) ((fresh, v) ∷ xs)
dlist_prepend_lem h fresh l [] v is free ne =
    rw (prepend_empty h fresh l v is.head) (ins_only_lem h fresh l v is ne)
dlist_prepend_lem h fresh l ((x, d) ∷ xs) v is free ne =
    rw (prepend_full h fresh l x v is.head (is.chain).0)
      (dlist_ins_prev_lem h fresh l [] x d xs v is free ne)

-- Without memory for a node both calls return -1 and change nothing.
pub append_refused :
    (h : Store) (l : Dlist) (xs : Cells) (v : ℕ)
    → IsList h l xs
    → dlist_append h 0 l v ≡ refused h l
unfolding ins_only dlist_ins_next
append_refused h l [] v is = append_empty h 0 l v is.tail ∙ rw (is.head, is.tail) refl
append_refused h l (c ∷ xs) v is =
    let (pre, x, d, e) = snoc_view c xs in
    let is' = subst (λ ys. IsList h l ys) e is in
    let (c1, (xne, here, rest)) = Chain-split h 0 pre ((x, d) ∷ []) 0 is'.chain in
    append_full h 0 l x v (is'.tail ∙ last-append 0 pre ((x, d) ∷ [])) xne
    ∙ if_false (x == 0) (refused h l) (if 0 == 0 then refused h l else ins_next_at h 0 l x v)
        (ne→== x 0 xne)

pub prepend_refused :
    (h : Store) (l : Dlist) (xs : Cells) (v : ℕ)
    → IsList h l xs
    → dlist_prepend h 0 l v ≡ refused h l
unfolding ins_only dlist_ins_prev
prepend_refused h l [] v is = prepend_empty h 0 l v is.head ∙ rw (is.head, is.tail) refl
prepend_refused h l ((x, d) ∷ xs) v is =
    prepend_full h 0 l x v is.head (is.chain).0
    ∙ if_false (x == 0) (refused h l) (if 0 == 0 then refused h l else ins_prev_at h 0 l x v)
        (ne→== x 0 (is.chain).0)
