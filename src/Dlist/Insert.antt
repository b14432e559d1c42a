-- ===== src/Dlist/Insert.antt =====
-- Insertion beside a node, and at the two ends: what it leaves.
pub mod Next
pub mod Prev
pub mod Ends
use sftt.Base.{
  ℕ, zero, suc, ◌+◌, ◌≤◌, ◌<◌, ◌≡◌, ◌≢◌, refl, Bool, true, false, Option, none, some, List, [], ◌∷◌,
  ◌++◌, length, length-append, arith, ap, ◌∙◌, sym, ◌==◌, if◌then◌else◌, Bool-cases, inl, inr,
  ==→eq, ne→==, eq→==, Result, ok, ◌>>=◌,
}
use sftt.Base.Int.{pos}
use sftt.Base.Count.{hit}
use sftt.Dlist.{
  DlistNode, dnode, Store, write, load, set_next, set_prev, link_next, link_prev, Dlist, Done,
  dlist_ins_next, ins_next_at, dlist_node_create,
}
use sftt.Dlist.Cells.{
  Cells, occ, first, last, Chain, Distinct, SameOutside, Chain-frame, Chain-append, Chain-split,
  IsList, hit_self, hit_zero, occ-append, last-append, first-append, occ_of_none,
}
use sftt.Dlist.Link.{
  write_same, write_other, load-some, set_next-some, set_prev-some, Relinked, link_prev-first,
}

-- The call returns the new length, and leaves a list of the cells `ys` and all else as it was.
pub record Inserted (h : Store) (fresh : ℕ) (xs : Cells) (run : Result Done) (ys : Cells)
    : Type 0 where
  pub done : Done
  pub runs : run ≡ ok done
  pub is_list : IsList done.store done.list ys
  pub ret : done.ret ≡ pos (length ys)
  pub same : (a : ℕ) → a ≢ fresh → occ a xs ≡ 0 → done.store a ≡ h a

module _ (h : Store) (fresh : ℕ) (pre : Cells) (x d : ℕ) (post : Cells) where
  -- The counts of a list about one of its nodes, and that a free address is none of them.
  pub record Apart : Type 0 where
    pub total : (a : ℕ) → occ a pre + (hit a x + occ a post) < 2
    pub out : occ fresh pre + (hit fresh x + occ fresh post) ≡ 0

  pub Apart-free :
      Chain h 0 (pre ++ (x, d) ∷ post) 0 → Distinct (pre ++ (x, d) ∷ post) → h fresh ≡ none → Apart
  Apart-free c u free = record {
    total = λ a. omega (arith, u a, occ-append a pre ((x, d) ∷ post));
    out = omega (
      arith,
      occ_of_none h 0 (pre ++ (x, d) ∷ post) 0 fresh c free,
      occ-append fresh pre ((x, d) ∷ post),
    );
  }

  pub Apart-more : Apart → (a : ℕ) → occ a pre + (hit a x + (hit a fresh + occ a post)) < 2
  Apart-more apart a = elim (Bool-cases (a == fresh)) [
    | inl same ↦
        let e : a ≡ fresh = ==→eq a fresh same in rw e (omega (arith, apart.out, hit_self fresh))
    | inr other ↦ rw other (omega (arith, apart.total a))
  ]
