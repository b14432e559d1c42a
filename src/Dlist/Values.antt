-- ===== src/Dlist/Values.antt =====
-- What the callers of a list see of it: the data of its nodes in order, without the addresses.
use sftt.Base.{
  ℕ, suc, ◌≡◌, ◌≢◌, refl, Option, none, some, List, [], ◌∷◌, ◌++◌, length, ap, ◌∙◌, sym, subst,
  Result, ok, fault, out_of_fuel,
}
use sftt.Base.Int.{ℤ, pos, negsuc}
use sftt.Dlist.{Store, Dlist, Done, Removed, dlist_append, dlist_prepend, dlist_pop_front, refused}
use sftt.Dlist.Cells.{Cells, IsList}
use sftt.Dlist.Insert.{Inserted}
use sftt.Dlist.Insert.Ends.{dlist_append_lem, dlist_prepend_lem, append_refused, prepend_refused}
use sftt.Dlist.Remove.{dlist_pop_front_lem, pop_front_empty}

abbrev pub values : Cells → List ℕ
values [] = []
values ((x, d) ∷ xs) = d ∷ values xs

pub values-append : (xs ys : Cells) → values (xs ++ ys) ≡ values xs ++ values ys
values-append [] ys = refl
values-append ((x, d) ∷ xs) ys = ap (λ t. d ∷ t) (values-append xs ys)

pub length-values : (xs : Cells) → length (values xs) ≡ length xs
length-values [] = refl
length-values ((x, d) ∷ xs) = ap suc (length-values xs)

abbrev pub Holds : Store → Dlist → List ℕ → Type 0
Holds h l vs = (xs : Cells) × IsList h l xs × (values xs ≡ vs)

-- The first value is taken out, or there is none.
pub data TakeSpec : List ℕ → Option ℕ → ℤ → List ℕ → Type 0 where
  taken : (v : ℕ) (vs : List ℕ) → TakeSpec (v ∷ vs) (some v) (pos (length vs)) vs
  nothing : TakeSpec [] none (pos 0) []

pub ok_inj {ℓ} : {A : Type ℓ} (a b : A) → ok a ≡ ok b → a ≡ b
ok_inj {A = A} a b e = ap (value_of a) e
  where
    value_of : A → Result A → A
    value_of d (ok x) = x
    value_of d fault = d
    value_of d out_of_fuel = d

module _ (h : Store) (l : Dlist) where
  Holds-put :
      (fresh : ℕ) (xs ys : Cells) (ws : List ℕ) (run : Result Done) (done : Done)
      → Inserted h fresh xs run ys
      → values ys ≡ ws
      → run ≡ ok done
      → (done.ret ≡ pos (length ws)) × Holds done.store done.list ws
  Holds-put fresh xs ys ws run done it e r =
      let same : it.done ≡ done = ok_inj it.done done (sym it.runs ∙ r) in
      subst (λ z. (z.ret ≡ pos (length ws)) × Holds z.store z.list ws) same
        (it.ret ∙ ap pos (sym (length-values ys) ∙ ap length e), (ys, it.is_list, e))

  pub Holds-append :
      (fresh : ℕ) (vs : List ℕ) (v : ℕ) (done : Done)
      → Holds h l vs
      → h fresh ≡ none
      → fresh ≢ 0
      → dlist_append h fresh l v ≡ ok done
      → (done.ret ≡ pos (length (vs ++ v ∷ []))) × Holds done.store done.list (vs ++ v ∷ [])
  Holds-append fresh vs v done (xs, is, e) free ne r =
      Holds-put fresh xs (xs ++ (fresh, v) ∷ []) (vs ++ v ∷ []) (dlist_append h fresh l v) done
        (dlist_append_lem h fresh l xs v is free ne)
        (values-append xs ((fresh, v) ∷ []) ∙ ap (λ t. t ++ v ∷ []) e) r

  pub Holds-prepend :
      (fresh : ℕ) (vs : List ℕ) (v : ℕ) (done : Done)
      → Holds h l vs
      → h fresh ≡ none
      → fresh ≢ 0
      → dlist_prepend h fresh l v ≡ ok done
      → (done.ret ≡ pos (length (v ∷ vs))) × Holds done.store done.list (v ∷ vs)
  Holds-prepend fresh vs v done (xs, is, e) free ne r =
      Holds-put fresh xs ((fresh, v) ∷ xs) (v ∷ vs) (dlist_prepend h fresh l v) done
        (dlist_prepend_lem h fresh l xs v is free ne) (ap (λ t. v ∷ t) e) r

  Holds-refused :
      (vs : List ℕ) (run : Result Done) (done : Done)
      → Holds h l vs
      → run ≡ refused h l
      → run ≡ ok done
      → (done.ret ≡ negsuc 0) × Holds done.store done.list vs
  Holds-refused vs run done holds e r =
      subst (λ z. (z.ret ≡ negsuc 0) × Holds z.store z.list vs)
        (ok_inj (record { store = h; list = l; ret = negsuc 0 }) done (sym e ∙ r)) (refl, holds)

  pub Holds-append_refused :
      (vs : List ℕ) (v : ℕ) (done : Done)
      → Holds h l vs
      → dlist_append h 0 l v ≡ ok done
      → (done.ret ≡ negsuc 0) × Holds done.store done.list vs
  Holds-append_refused vs v done (xs, is, e) r =
      Holds-refused vs (dlist_append h 0 l v) done (xs, is, e) (append_refused h l xs v is) r

  pub Holds-prepend_refused :
      (vs : List ℕ) (v : ℕ) (done : Done)
      → Holds h l vs
      → dlist_prepend h 0 l v ≡ ok done
      → (done.ret ≡ negsuc 0) × Holds done.store done.list vs
  Holds-prepend_refused vs v done (xs, is, e) r =
      Holds-refused vs (dlist_prepend h 0 l v) done (xs, is, e) (prepend_refused h l xs v is) r

  Holds-take :
      (xs : Cells) (gone : Removed)
      → IsList h l xs
      → dlist_pop_front h l ≡ ok gone
      → (ws : List ℕ) × TakeSpec (values xs) gone.value gone.ret ws × Holds gone.store gone.list ws
  Holds-take [] gone is r =
      subst (λ z. (ws : List ℕ) × TakeSpec [] z.value z.ret ws × Holds z.store z.list ws)
        (ok_inj (record { store = h; list = l; value = none; ret = pos 0 }) gone
          (sym (pop_front_empty h l is) ∙ r))
        ([], nothing, ([], is, refl))
  Holds-take ((x, d) ∷ xs) gone is r =
      let it = dlist_pop_front_lem h l x d xs is in
      subst
        (λ z. (ws : List ℕ) × TakeSpec (d ∷ values xs) z.value z.ret ws × Holds z.store z.list ws)
        (ok_inj it.gone gone (sym it.runs ∙ r))
        (
          values xs,
          rw (it.value, it.ret, sym (length-values xs)) (taken d (values xs)),
          (xs, it.is_list, refl),
        )

  pub Holds-pop_front :
      (vs : List ℕ) (gone : Removed)
      → Holds h l vs
      → dlist_pop_front h l ≡ ok gone
      → (ws : List ℕ) × TakeSpec vs gone.value gone.ret ws × Holds gone.store gone.list ws
  Holds-pop_front vs gone (xs, is, e) r =
      subst (λ t. (ws : List ℕ) × TakeSpec t gone.value gone.ret ws × Holds gone.store gone.list ws)
        e (Holds-take xs gone is r)
