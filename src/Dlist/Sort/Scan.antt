-- ===== src/Dlist/Sort/Scan.antt =====
-- The scan of `dlist_get_min` and `dlist_get_max` (src/dlist.c).
use sftt.Base.{
  ℕ, zero, suc, ◌<◌, ◌≡◌, ◌≢◌, refl, Bool, true, false, some, [], ◌∷◌, ◌++◌, append_assoc, length,
  arith, ap, ◌∙◌, if◌then◌else◌, Bool-cases, inl, inr, ne→==, Result, ok,
}
use sftt.Dlist.{dnode, Store}
use sftt.Dlist.Cells.{Cells, first, Chain}
use sftt.Dlist.Link.{load-some}
use sftt.Dlist.Walk.{better_of, scan}
use sftt.Dlist.Sort.{IsOrder, Best, Best-append, Best-trans, better_self}

-- A cell stands in a list.
pub record At (n d : ℕ) (xs : Cells) : Type 0 where
  pub pre : Cells
  pub post : Cells
  pub split : xs ≡ pre ++ (n, d) ∷ post

At-append : (n d : ℕ) (xs ys : Cells) → At n d xs → At n d (xs ++ ys)
At-append n d xs ys at = record {
  pre = at.pre;
  post = at.post ++ ys;
  split = ap (λ t. t ++ ys) at.split ∙ append_assoc at.pre ((n, d) ∷ at.post) ys;
}

At-end : (n d : ℕ) (xs : Cells) → At n d (xs ++ (n, d) ∷ [])
At-end n d xs = record { pre = xs; post = []; split = refl }

-- The node that a scan finds: none of the list replaces it.
pub record Found (better : ℕ → ℕ → Bool) (xs : Cells) (run : Result ℕ) : Type 0 where
  pub node : ℕ
  pub data_of : ℕ
  pub runs : run ≡ ok node
  pub place : At node data_of xs
  pub best : Best better data_of xs

module _ (h : Store) (better : ℕ → ℕ → Bool) (ord : IsOrder better) where
  better_of-some :
      (n d a q x e : ℕ)
      → n ≢ 0
      → h n ≡ some (dnode d a q)
      → better_of h better n x e ≡ ok (if better d e then x else n)
  unfolding better_of
  better_of-some n d a q x e ne at = rw (ne→== n 0 ne, load-some h n (dnode d a q) ne at) refl

  one_step :
      (fuel n d a q x e b y n' : ℕ) (bet : Bool)
      → n ≢ 0
      → h n ≡ some (dnode d a q)
      → x ≢ 0
      → h x ≡ some (dnode e b y)
      → better d e ≡ bet
      → (if bet then x else n) ≡ n'
      → scan (suc fuel) h better n x ≡ scan fuel h better n' y
  unfolding scan
  one_step fuel n d a q x e b y n' bet ne at xne here eq en =
      rw
        (
          ne→== x 0 xne,
          load-some h x (dnode e b y) xne here,
          better_of-some n d a q x e ne at,
          eq,
          en,
        )
        refl

  scan_from :
      (fuel n d a q b : ℕ) (seen rest : Cells)
      → length rest < fuel
      → Chain h b rest 0
      → n ≢ 0
      → h n ≡ some (dnode d a q)
      → At n d seen
      → Best better d seen
      → Found better (seen ++ rest) (scan fuel h better n (first rest 0))
  unfolding scan
  scan_from zero n d a q b seen rest lt c ne at place best = absurd (omega (arith, lt))
  scan_from (suc fuel) n d a q b seen [] lt c ne at place best = record {
    node = n;
    data_of = d;
    runs = refl;
    place = At-append n d seen [] place;
    best = Best-append better ord d seen [] best tt;
  }
  scan_from (suc fuel) n d a q b seen ((x, e) ∷ rest) lt (xne, here, c) ne at place best =
      let y = first rest 0 in
      elim (Bool-cases (better d e)) [
        | inl t ↦
            let it =
              scan_from fuel x e b y x (seen ++ (x, e) ∷ []) rest (omega (arith, lt)) c xne here
                (At-end x e seen)
                (Best-append better ord e seen ((x, e) ∷ [])
                  (Best-trans better ord d e seen (ord.asym d e t) best)
                  (better_self better ord e, tt)) in
            rw (one_step fuel n d a q x e b y x true ne at xne here t refl)
              (rw (append_assoc seen ((x, e) ∷ []) rest) at it)
        | inr f ↦
            let it =
              scan_from fuel n d a q x (seen ++ (x, e) ∷ []) rest (omega (arith, lt)) c ne at
                (At-append n d seen ((x, e) ∷ []) place)
                (Best-append better ord d seen ((x, e) ∷ []) best (f, tt)) in
            rw (one_step fuel n d a q x e b y n false ne at xne here f refl)
              (rw (append_assoc seen ((x, e) ∷ []) rest) at it)
      ]

  -- The scan of a list that is not empty.
  pub scan_lem :
      (fuel x d : ℕ) (xs : Cells)
      → suc (length xs) < fuel
      → Chain h 0 ((x, d) ∷ xs) 0
      → Found better ((x, d) ∷ xs) (scan fuel h better 0 x)
  unfolding scan better_of
  scan_lem zero x d xs lt c = absurd (omega (arith, lt))
  scan_lem (suc fuel) x d xs lt (ne, here, c) =
      rw (ne→== x 0 ne, load-some h x (dnode d 0 (first xs 0)) ne here)
        (scan_from fuel x d 0 (first xs 0) x ((x, d) ∷ []) xs (omega (arith, lt)) c ne here
          (At-end x d []) (better_self better ord d, tt))
