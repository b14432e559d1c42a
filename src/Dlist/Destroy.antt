-- ===== src/Dlist/Destroy.antt =====
-- `dlist_destroy` (src/dlist.c).
use sftt.Base.{
  ℕ, zero, suc, ◌<◌, ◌≡◌, refl, ap, none, List, [], ◌∷◌, ◌++◌, length, arith, ◌∙◌, ne→==, ==→eq,
  ◌==◌, Bool-cases, inl, inr, Result, ok,
}
use sftt.Dlist.{dnode, Store, write, Dlist}
use sftt.Dlist.Cells.{Cells, occ, first, Chain, Distinct, Chain-frame, IsList}
use sftt.Dlist.Link.{write_same, write_other, load-some, ne_of, occ_ne, occ_rest, Distinct-rest}
use sftt.Dlist.Walk.{
  FreeMode, free_mode_nothing, free_mode_mp_free, free_mode_free, freed_data, destroy_from,
  dlist_destroy,
}

abbrev pub data_of : Cells → List ℕ
data_of [] = []
data_of ((x, d) ∷ xs) = d ∷ data_of xs

-- The data that is to be freed: of every node once, or nothing.
abbrev pub all_data : FreeMode → Cells → List ℕ
all_data free_mode_nothing xs = []
all_data free_mode_mp_free xs = data_of xs
all_data free_mode_free xs = data_of xs

freed_data-all_data :
    (mode : FreeMode) (x d : ℕ) (xs : Cells)
    → freed_data mode d ++ all_data mode xs ≡ all_data mode ((x, d) ∷ xs)
unfolding freed_data
freed_data-all_data free_mode_nothing x d xs = refl
freed_data-all_data free_mode_mp_free x d xs = refl
freed_data-all_data free_mode_free x d xs = refl

all_data-nil : (mode : FreeMode) → [] ≡ all_data mode []
all_data-nil free_mode_nothing = refl
all_data-nil free_mode_mp_free = refl
all_data-nil free_mode_free = refl

pub record Destroyed (h : Store) (mode : FreeMode) (xs : Cells) (run : Result (Store × List ℕ))
    : Type 0 where
  pub after : Store
  pub runs : run ≡ ok (after, all_data mode xs)
  pub gone : (a : ℕ) → 0 < occ a xs → after a ≡ none
  pub same : (a : ℕ) → occ a xs ≡ 0 → after a ≡ h a

destroy_from_lem :
    (fuel : ℕ) (mode : FreeMode) (h : Store) (a : ℕ) (xs : Cells)
    → length xs < fuel
    → Chain h a xs 0
    → Distinct xs
    → Destroyed h mode xs (destroy_from fuel mode h (first xs 0))
unfolding destroy_from
destroy_from_lem zero mode h a xs lt c u = absurd (omega (arith, lt))
destroy_from_lem (suc fuel) mode h a [] lt c u = record {
  after = h;
  runs = ap (λ ds. ok (h, ds)) (all_data-nil mode);
  gone = λ b l. absurd (omega (arith, l));
  same = λ b o. refl;
}
destroy_from_lem (suc fuel) mode h a ((x, d) ∷ xs) lt (ne, here, rest) u =
    let g = write h x none in
    let far = occ_rest x d xs u in
    let it =
      destroy_from_lem fuel mode g x xs (omega (arith, lt))
        (Chain-frame h g x xs 0 (λ y l. write_other h x none y (ne_of y x xs l far)) rest)
        (Distinct-rest x d xs u) in
    record {
      after = it.after;
      runs =
          rw (ne→== x 0 ne, load-some h x (dnode d a (first xs 0)) ne here, it.runs)
            (ap (λ ds. ok (it.after, ds)) (freed_data-all_data mode x d xs));
      gone = λ b l. elim (Bool-cases (b == x)) [
        | inl same ↦ let e : b ≡ x = ==→eq b x same in rw e (it.same x far ∙ write_same h x none)
        | inr other ↦ it.gone b (omega (arith, rw other at l))
      ];
      same = λ b o. it.same b (omega (arith, o)) ∙ write_other h x none b (occ_ne b x d xs o);
    }

-- For a list that is linked both ways and has distinct nodes, the loop of `dlist_destroy` ends,
-- follows no freed node, frees every node of the list and no other address, and frees the data in
-- order, of every node once, or none in the mode that frees nothing.
pub dlist_destroy_lem :
    (mode : FreeMode) (h : Store) (l : Dlist) (xs : Cells)
    → IsList h l xs
    → Destroyed h mode xs (dlist_destroy mode h l)
unfolding dlist_destroy
dlist_destroy_lem mode h l xs is =
    rw is.head
      (destroy_from_lem (suc l.size) mode h 0 xs (omega (arith, is.size)) is.chain is.distinct)
