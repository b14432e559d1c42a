-- ===== src/Dlist/Sort/Order.antt =====
-- The order that the sorted part of `dlist_sort` keeps when the next node joins it.
use sftt.Base.{ℕ, Bool, [], ◌∷◌, ◌++◌, append_assoc, All}
use sftt.Dlist.Cells.{Cells}
use sftt.Dlist.Sort.{IsOrder, Best, Best-append, Best-drop, Best-at, Sorted}
use mathlib.Core.List.Perm
use mathlib.Core.List.{Perm, perm_middle}

module _ (better : ℕ → ℕ → Bool) (ord : IsOrder better) where
  -- Nothing of `rest` replaces a cell of `done`.
  abbrev pub Below : Cells → Cells → Type 0
  Below done rest = All (λ (c : ℕ × ℕ). Best better c.1 rest) done

  pub Below-drop :
      (done pre post : Cells) (c : ℕ × ℕ)
      → Below done (pre ++ c ∷ post)
      → Best better c.1 (pre ++ c ∷ post)
      → Below (done ++ c ∷ []) (pre ++ post)
  Below-drop [] pre post c ps b = (Best-drop better ord c.1 pre post c b, tt)
  Below-drop (e ∷ done) pre post c (p, ps) b =
      (Best-drop better ord e.1 pre post c p, Below-drop done pre post c ps b)

  pub Sorted-snoc :
      (done pre post : Cells) (c : ℕ × ℕ)
      → Below done (pre ++ c ∷ post)
      → Sorted better done
      → Sorted better (done ++ c ∷ [])
  Sorted-snoc [] pre post (n, d) ps s = (tt, tt)
  Sorted-snoc ((x, e) ∷ done) pre post c (p, ps) (b, s) = (
    Best-append better ord e done (c ∷ []) b (Best-at better ord e pre post c p, tt),
    Sorted-snoc done pre post c ps s,
  )

pub perm_move :
    (done pre post : Cells) (c : ℕ × ℕ)
    → Perm (done ++ (pre ++ c ∷ post)) ((done ++ c ∷ []) ++ (pre ++ post))
perm_move done pre post c =
    rw (append_assoc done (c ∷ []) (pre ++ post)) (Perm.append_left done (perm_middle pre post))
