-- ===== src/Dlist/Remove.antt =====
-- `dlist_remove`, `dlist_pop_front` and `dlist_pop_back` (src/dlist.c).
use sftt.Base.{
  ℕ, ◌+◌, ◌-◌, ◌<◌, ◌≡◌, ◌≢◌, refl, Bool, true, none, some, [], ◌∷◌, ◌++◌, length, length-append,
  arith, ap, ◌∙◌, sym, append-nil, ◌==◌, if◌then◌else◌, ne→==, eq→==, Result, ok,
}
use sftt.Base.Int.{pos}
use sftt.Base.Count.{hit}
use sftt.Dlist.{
  DlistNode, dnode, Store, write, load, link_next, link_prev, Dlist, Removed, dlist_remove,
  remove_at, give_up, dlist_pop_front, dlist_pop_back, nothing_popped,
}
use sftt.Dlist.Cells.{
  Cells, occ, first, last, Chain-frame, Chain-append, Chain-split, IsList, hit_self, hit_zero,
  occ-append, last-append, first-append, occ-last,
}
use sftt.Dlist.Link.{
  if_false, write_same, write_other, load-some, link_prev-first, link_next-last, ne_of,
}

-- The call takes the node `x` with the data `d` out of the cells `xs`, of which `ys` are left.
pub record TakenOut (h : Store) (x d : ℕ) (need_free : Bool) (xs : Cells) (run : Result Removed)
    (ys : Cells) : Type 0 where
  pub gone : Removed
  pub runs : run ≡ ok gone
  pub is_list : IsList gone.store gone.list ys
  pub value : gone.value ≡ some d
  pub ret : gone.ret ≡ pos (length ys)
  pub freed : gone.store x ≡ (if need_free then none else some (dnode d 0 0))
  pub same : (a : ℕ) → occ a xs ≡ 0 → gone.store a ≡ h a

abbrev shrunk : Dlist → ℕ → ℕ → ℕ → Dlist
shrunk l x a q = record {
  size = l.size - 1;
  head = if x == l.head then q else l.head;
  tail = if x == l.tail then a else l.tail;
}

run_remove :
    (h : Store) (l : Dlist) (x : ℕ) (need_free : Bool) (e e' : DlistNode) (h1 h2 : Store)
    → x ≢ 0
    → load h x ≡ ok e
    → link_next h e.prev e.next ≡ ok h1
    → link_prev h1 e.next e.prev ≡ ok h2
    → load h2 x ≡ ok e'
    → dlist_remove h l x need_free
      ≡ ok (record {
        store = give_up h2 x e' need_free;
        list = shrunk l x e.prev e.next;
        value = some e'.value;
        ret = pos (l.size - 1);
      })
unfolding dlist_remove remove_at
run_remove h l x need_free e e' h1 h2 xne e0 e1 e2 e3 = rw (ne→== x 0 xne, e0, e1, e2, e3) refl

-- The new head and the new tail.
head_behind :
    (pre : Cells) (x q : ℕ)
    → occ x pre ≡ 0
    → (if x == first pre x then q else first pre x) ≡ first pre q
head_behind [] x q o = rw (eq→== x x refl) refl
head_behind ((y, e) ∷ ys) x q o = rw (ne→== x y (hit_zero x y (omega (arith, o)))) refl

tail_before :
    (x a : ℕ) (post : Cells)
    → occ x post ≡ 0
    → (if x == last x post then a else last x post) ≡ last a post
tail_before x a [] o = rw (eq→== x x refl) refl
tail_before x a ((y, e) ∷ ys) o =
    rw (ne→== x (last y ys) (λ p. ne_of (last y ys) x ((y, e) ∷ ys) (occ-last y e ys) o (sym p)))
      refl

-- In a list that is linked both ways and has distinct nodes, `dlist_remove` of any node does not
-- fault, gives its data and returns the new length, and leaves the list of the other nodes in
-- their order, its head, tail and size right; the node is freed or, if it is to be kept, has no
-- neighbours, and no address outside the list changes.
pub dlist_remove_lem :
    (h : Store) (l : Dlist) (pre : Cells) (x d : ℕ) (post : Cells) (need_free : Bool)
    → IsList h l (pre ++ (x, d) ∷ post)
    → TakenOut h x d need_free (pre ++ (x, d) ∷ post) (dlist_remove h l x need_free) (pre ++ post)
unfolding give_up
dlist_remove_lem h l pre x d post need_free is =
    let (c1, (xne, here, c2)) = Chain-split h 0 pre ((x, d) ∷ post) 0 is.chain in
    let total : (a : ℕ) → occ a pre + (hit a x + occ a post) < 2 =
      λ a. omega (arith, is.distinct a, occ-append a pre ((x, d) ∷ post)) in
    let x_pre : occ x pre ≡ 0 = omega (arith, total x, hit_self x) in
    let x_post : occ x post ≡ 0 = omega (arith, total x, hit_self x) in
    let a = last 0 pre in
    let q = first post 0 in
    let it = link_next-last h pre x q c1 (λ b. omega (arith, total b)) in
    let h1 = it.after in
    let it2 =
      link_prev-first h1 x post a
        (Chain-frame h h1 x post 0 (λ y lt. it.same y (omega (arith, total y, lt))) c2)
        (λ b. omega (arith, total b)) in
    let h2 = it2.after in
    let still : h2 x ≡ some (dnode d a q) = it2.same x x_post ∙ it.same x x_pre ∙ here in
    let c = if need_free then none else some (dnode d 0 0) in
    let g = write h2 x c in
    let size : l.size - 1 ≡ length (pre ++ post) =
      omega (arith, is.size, length-append pre ((x, d) ∷ post), length-append pre post) in
    record {
      gone = record { store = g; list = shrunk l x a q; value = some d; ret = pos (l.size - 1) };
      runs =
          run_remove h l x need_free (dnode d a q) (dnode d a q) h1 h2 xne
            (load-some h x (dnode d a q) xne here) it.runs it2.runs
            (load-some h2 x (dnode d a q) xne still);
      is_list = record {
        chain =
            Chain-append g 0 pre post 0
              (Chain-frame h1 g 0 pre q
                (λ y lt.
                  write_other h2 x c y (ne_of y x pre lt x_pre)
                  ∙ it2.same y (omega (arith, total y, lt)))
                it.chain)
              (Chain-frame h2 g a post 0 (λ y lt. write_other h2 x c y (ne_of y x post lt x_post))
                it2.chain);
        distinct = λ b. omega (arith, total b, occ-append b pre post);
        head =
            rw (is.head, first-append pre ((x, d) ∷ post) 0, first-append pre post 0)
              (head_behind pre x q x_pre);
        tail =
            rw (is.tail, last-append 0 pre ((x, d) ∷ post), last-append 0 pre post)
              (tail_before x a post x_post);
        size = size;
      };
      value = refl;
      ret = ap pos size;
      freed = write_same h2 x c;
      same = λ y o.
          let o' : occ y pre + (hit y x + occ y post) ≡ 0 =
            omega (arith, o, occ-append y pre ((x, d) ∷ post)) in
          write_other h2 x c y (hit_zero y x (omega (arith, o')))
          ∙ it2.same y (omega (arith, o'))
          ∙ it.same y (omega (arith, o'));
    }

pop_front_full :
    (h : Store) (l : Dlist) (x : ℕ)
    → l.head ≡ x
    → x ≢ 0
    → dlist_pop_front h l ≡ dlist_remove h l x true
unfolding dlist_pop_front
pop_front_full h l x e ne =
    if_false (l.head == 0) (nothing_popped h l) (dlist_remove h l l.head true)
      (ne→== l.head 0 (λ z. ne (sym e ∙ z)))
    ∙ ap (λ t. dlist_remove h l t true) e

pop_back_full :
    (h : Store) (l : Dlist) (x : ℕ)
    → l.tail ≡ x
    → x ≢ 0
    → dlist_pop_back h l ≡ dlist_remove h l x true
unfolding dlist_pop_back
pop_back_full h l x e ne =
    if_false (l.tail == 0) (nothing_popped h l) (dlist_remove h l l.tail true)
      (ne→== l.tail 0 (λ z. ne (sym e ∙ z)))
    ∙ ap (λ t. dlist_remove h l t true) e

-- The first node, and the last one.
pub dlist_pop_front_lem :
    (h : Store) (l : Dlist) (x d : ℕ) (post : Cells)
    → IsList h l ((x, d) ∷ post)
    → TakenOut h x d true ((x, d) ∷ post) (dlist_pop_front h l) post
dlist_pop_front_lem h l x d post is =
    rw (pop_front_full h l x is.head (is.chain).0) (dlist_remove_lem h l [] x d post true is)

pub dlist_pop_back_lem :
    (h : Store) (l : Dlist) (pre : Cells) (x d : ℕ)
    → IsList h l (pre ++ (x, d) ∷ [])
    → TakenOut h x d true (pre ++ (x, d) ∷ []) (dlist_pop_back h l) pre
dlist_pop_back_lem h l pre x d is =
    let t : l.tail ≡ x = is.tail ∙ last-append 0 pre ((x, d) ∷ []) in
    let (c1, (xne, here, rest)) = Chain-split h 0 pre ((x, d) ∷ []) 0 is.chain in
    let out = dlist_remove_lem h l pre x d [] true is in
    rw (pop_back_full h l x t xne) (rw (append-nil pre) at out)

-- An empty list gives nothing, and the call returns 0.
pub pop_front_empty :
    (h : Store) (l : Dlist)
    → IsList h l []
    → dlist_pop_front h l ≡ ok (record { store = h; list = l; value = none; ret = pos 0 })
unfolding dlist_pop_front nothing_popped
pop_front_empty h l is = rw (is.head, is.tail, is.size) refl

pub pop_back_empty :
    (h : Store) (l : Dlist)
    → IsList h l []
    → dlist_pop_back h l ≡ ok (record { store = h; list = l; value = none; ret = pos 0 })
unfolding dlist_pop_back nothing_popped
pop_back_empty h l is = rw (is.head, is.tail, is.size) refl
