-- ===== src/Dlist/Insert/Next.antt =====
-- `dlist_ins_next` (src/dlist.c).
use sftt.Base.{
  ℕ, ◌+◌, ◌≡◌, ◌≢◌, refl, none, some, [], ◌∷◌, ◌++◌, length, length-append, arith, ap, ◌∙◌, sym,
  ◌==◌, if◌then◌else◌, ne→==, eq→==, ok,
}
use sftt.Base.Int.{pos}
use sftt.Base.Count.{hit}
use sftt.Dlist.{
  DlistNode, dnode, Store, write, load, set_next, set_prev, link_prev, Dlist, dlist_ins_next,
  ins_next_at, dlist_node_create,
}
use sftt.Dlist.Cells.{
  Cells, occ, first, last, Chain, Chain-frame, Chain-append, Chain-split, IsList, hit_self,
  occ-last, hit_zero, occ-append, last-append, first-append,
}
use sftt.Dlist.Link.{
  ne_of, write_same, write_other, load-some, set_next-some, set_prev-some, link_prev-first,
}
use sftt.Dlist.Insert.{Inserted, Apart, Apart-free, Apart-more}

-- The list after an insertion behind, and before, a node.
abbrev grown_next : Dlist → ℕ → ℕ → Dlist
grown_next l x fresh = record l { size = l.size + 1; tail = if l.tail == x then fresh else l.tail }

module _ (h : Store) (fresh : ℕ) (l : Dlist) (x v : ℕ) (ne : fresh ≢ 0) (xne : x ≢ 0)
    (e : DlistNode) (h1 h2 h3 h4 : Store) where
  run_next :
      load (dlist_node_create h fresh v) x ≡ ok e
      → set_next (dlist_node_create h fresh v) fresh e.next ≡ ok h1
      → link_prev h1 e.next fresh ≡ ok h2
      → set_prev h2 fresh x ≡ ok h3
      → set_next h3 x fresh ≡ ok h4
      → dlist_ins_next h fresh l x v
        ≡ ok (record { store = h4; list = grown_next l x fresh; ret = pos (l.size + 1) })
  unfolding dlist_ins_next ins_next_at
  run_next e0 e1 e2 e3 e4 = rw (ne→== x 0 xne, ne→== fresh 0 ne, e0, e1, e2, e3, e4) refl

module _ (h : Store) (fresh : ℕ) (l : Dlist) (pre : Cells) (x d : ℕ) (post : Cells) (v : ℕ) where
  abbrev Grown : Type 0
  Grown =
      (g : Store) × (dlist_ins_next h fresh l x v
        ≡ ok (record { store = g; list = grown_next l x fresh; ret = pos (l.size + 1) }))
      × Chain g 0 (pre ++ (x, d) ∷ (fresh, v) ∷ post) 0
      × ((a : ℕ) → a ≢ fresh → occ a (pre ++ (x, d) ∷ post) ≡ 0 → g a ≡ h a)

  grow_next :
      fresh ≢ 0
      → x ≢ 0
      → fresh ≢ x
      → Apart h fresh pre x d post
      → Chain h 0 pre x
      → h x ≡ some (dnode d (last 0 pre) (first post 0))
      → Chain h x post 0
      → Grown
  unfolding dlist_node_create
  grow_next ne xne fx apart c1 here c2 =
      let total = apart.total in
      let out = apart.out in
      let h0 = write h fresh (some (dnode v 0 0)) in
      let q = first post 0 in
      let a = last 0 pre in
      let h1 = write h0 fresh (some (dnode v 0 q)) in
      let h1_h : (y : ℕ) → y ≢ fresh → h1 y ≡ h y = λ y n.
        write_other h0 fresh (some (dnode v 0 q)) y n
        ∙ write_other h fresh (some (dnode v 0 0)) y n in
      let out_post : occ fresh post ≡ 0 = omega (arith, out) in
      let it =
        link_prev-first h1 x post fresh
          (Chain-frame h h1 x post 0 (λ y lt. h1_h y (ne_of y fresh post lt out_post)) c2)
          (λ b. omega (arith, total b)) in
      let h2 = it.after in
      let h3 = write h2 fresh (some (dnode v x q)) in
      let h4 = write h3 x (some (dnode d a fresh)) in
      let xf : x ≢ fresh = λ e. fx (sym e) in
      let x_post : occ x post ≡ 0 = omega (arith, total x, hit_self x) in
      let h3_x : h3 x ≡ some (dnode d a q) =
        write_other h2 fresh (some (dnode v x q)) x xf ∙ it.same x x_post ∙ h1_h x xf ∙ here in
      let h2_f : h2 fresh ≡ some (dnode v 0 q) =
        it.same fresh out_post ∙ write_same h0 fresh (some (dnode v 0 q)) in
      let h4_h2 : (y : ℕ) → y ≢ fresh → y ≢ x → h4 y ≡ h2 y = λ y nf nx.
        write_other h3 x (some (dnode d a fresh)) y nx
        ∙ write_other h2 fresh (some (dnode v x q)) y nf in
      let h4_h : (y : ℕ) → y ≢ fresh → y ≢ x → occ y post ≡ 0 → h4 y ≡ h y =
        λ y nf nx o. h4_h2 y nf nx ∙ it.same y o ∙ h1_h y nf in
      (
        h4,
        run_next h fresh l x v ne xne (dnode d a q) h1 h2 h3 h4
            (load-some h0 x (dnode d a q) xne
              (write_other h fresh (some (dnode v 0 0)) x xf ∙ here))
            (set_next-some h0 fresh q v 0 0 ne (write_same h fresh (some (dnode v 0 0)))) it.runs
            (set_prev-some h2 fresh x v 0 q ne h2_f) (set_next-some h3 x fresh d a q xne h3_x),
        Chain-append h4 0 pre ((x, d) ∷ (fresh, v) ∷ post) 0
            (Chain-frame h h4 0 pre x
              (λ y lt.
                h4_h y (ne_of y fresh pre lt (omega (arith, out)))
                  (ne_of y x pre lt (omega (arith, total x, hit_self x)))
                  (omega (arith, total y, lt)))
              c1)
            (
              xne,
              write_same h3 x (some (dnode d a fresh)),
              (
                ne,
                write_other h3 x (some (dnode d a fresh)) fresh fx
                    ∙ write_same h2 fresh (some (dnode v x q)),
                (Chain-frame h2 h4 fresh post 0
                    (λ y lt. h4_h2 y (ne_of y fresh post lt out_post) (ne_of y x post lt x_post))
                    it.chain),
              ),
            ),
        λ y nf o.
            let o' : occ y pre + (hit y x + occ y post) ≡ 0 =
              omega (arith, o, occ-append y pre ((x, d) ∷ post)) in
            h4_h y nf (hit_zero y x (omega (arith, o'))) (omega (arith, o')),
      )

-- The new tail.
last_behind :
    (x fresh : ℕ) (post : Cells)
    → occ x post ≡ 0
    → (if last x post == x then fresh else last x post) ≡ last fresh post
last_behind x fresh [] o = rw (eq→== x x refl) refl
last_behind x fresh ((y, e) ∷ ys) o =
    rw (ne→== (last y ys) x (ne_of (last y ys) x ((y, e) ∷ ys) (occ-last y e ys) o)) refl

-- In a list that is linked both ways and has distinct nodes, `dlist_ins_next` behind any node,
-- with a new node at an address that is free and not NULL, does not fault, returns the new length,
-- and leaves a list with the new node behind that one, its head, tail and size right; no other
-- address of the store changes.
pub dlist_ins_next_lem :
    (h : Store) (fresh : ℕ) (l : Dlist) (pre : Cells) (x d : ℕ) (post : Cells) (v : ℕ)
    → IsList h l (pre ++ (x, d) ∷ post)
    → h fresh ≡ none
    → fresh ≢ 0
    → Inserted h fresh
        (pre ++ (x, d) ∷ post)
        (dlist_ins_next h fresh l x v)
        (pre ++ (x, d) ∷ (fresh, v) ∷ post)
dlist_ins_next_lem h fresh l pre x d post v is free ne =
    let (c1, (xne, here, c2)) = Chain-split h 0 pre ((x, d) ∷ post) 0 is.chain in
    let apart = Apart-free h fresh pre x d post is.chain is.distinct free in
    let fx : fresh ≢ x = hit_zero fresh x (omega (arith, apart.out)) in
    let (g, runs, chain, same) = grow_next h fresh l pre x d post v ne xne fx apart c1 here c2 in
    let size : l.size + 1 ≡ length (pre ++ (x, d) ∷ (fresh, v) ∷ post) = omega (
      arith,
      is.size,
      length-append pre ((x, d) ∷ post),
      length-append pre ((x, d) ∷ (fresh, v) ∷ post),
    ) in
    record {
      done = record { store = g; list = grown_next l x fresh; ret = pos (l.size + 1) };
      runs = runs;
      is_list = record {
        chain = chain;
        distinct = λ a. omega (
          arith,
          Apart-more h fresh pre x d post apart a,
          occ-append a pre ((x, d) ∷ (fresh, v) ∷ post),
        );
        head =
            is.head
            ∙ first-append pre ((x, d) ∷ post) 0
            ∙ sym (first-append pre ((x, d) ∷ (fresh, v) ∷ post) 0);
        tail =
            rw
              (
                is.tail,
                last-append 0 pre ((x, d) ∷ post),
                last-append 0 pre ((x, d) ∷ (fresh, v) ∷ post),
              )
              (last_behind x fresh post (omega (arith, apart.total x, hit_self x)));
        size = size;
      };
      ret = ap pos size;
      same = same;
    }
