-- ===== src/Utils/Trim.antt =====
-- What `strip` takes off.
use sftt.Base.{
  ℕ, zero, suc, ◌≡◌, refl, false, inl, inr, List, [], ◌∷◌, ◌++◌, reverse, replicate, append_assoc,
  ap, ◌∙◌, sym, subst, ◌==◌, Bool-cases, ==→eq,
}
use mathlib.Core.List.{reverse-cons, reverse-append, reverse-reverse}
use sftt.Utils.{skip_spaces, cut_spaces, strip}

abbrev pub spaces : ℕ → List ℕ
spaces n = replicate n b' '

-- The string does not begin with a space.
abbrev pub NoSpace : List ℕ → Type 0
NoSpace [] = Unit
NoSpace (c ∷ s) = (c == b' ') ≡ false

pub skip_spaces-NoSpace : (s : List ℕ) → NoSpace (skip_spaces s)
unfolding skip_spaces
skip_spaces-NoSpace [] = tt
skip_spaces-NoSpace (c ∷ s) = elim (Bool-cases (c == b' ')) [
  | inl space ↦ rw space (skip_spaces-NoSpace s)
  | inr other ↦ rw other other
]

pub skip_spaces-splits : (s : List ℕ) → (n : ℕ) × (s ≡ spaces n ++ skip_spaces s)
unfolding skip_spaces
skip_spaces-splits [] = (0, refl)
skip_spaces-splits (c ∷ s) = elim (Bool-cases (c == b' ')) [
  | inl space ↦
      let (n, e) = skip_spaces-splits s in
      let c_space : c ≡ b' ' = ==→eq c b' ' space in
      (suc n, rw space (ap (λ t. c ∷ t) e ∙ ap (λ x. x ∷ (spaces n ++ skip_spaces s)) c_space))
  | inr other ↦ (0, rw other refl)
]

spaces_snoc : (n : ℕ) → spaces n ++ b' ' ∷ [] ≡ spaces (suc n)
spaces_snoc zero = refl
spaces_snoc (suc n) = ap (λ t. b' ' ∷ t) (spaces_snoc n)

pub reverse-spaces : (n : ℕ) → reverse (spaces n) ≡ spaces n
reverse-spaces zero = refl
reverse-spaces (suc n) =
    reverse-cons b' ' (spaces n) ∙ ap (λ t. t ++ b' ' ∷ []) (reverse-spaces n) ∙ spaces_snoc n

NoSpace-append : (s t : List ℕ) → NoSpace (s ++ t) → NoSpace s
NoSpace-append [] t h = tt
NoSpace-append (c ∷ s) t h = h

-- A string is what `strip` makes of it, between spaces; and that neither begins nor ends with a
-- space.
pub strip-splits :
    (line : List ℕ)
    → (a : ℕ) × (b : ℕ) × (line ≡ spaces a ++ (strip line ++ spaces b))
      × NoSpace (strip line)
      × NoSpace (reverse (strip line))
unfolding strip cut_spaces
strip-splits line =
    let back = skip_spaces (reverse line) in
    let kept = reverse back in
    let (b, at_end) = skip_spaces-splits (reverse line) in
    let (a, at_front) = skip_spaces-splits kept in
    let whole : line ≡ kept ++ spaces b =
      sym (reverse-reverse line)
      ∙ ap reverse at_end
      ∙ reverse-append (spaces b) back
      ∙ ap (λ t. kept ++ t) (reverse-spaces b) in
    let ends : reverse (skip_spaces kept) ++ spaces a ≡ back =
      ap (λ t. reverse (skip_spaces kept) ++ t) (sym (reverse-spaces a))
      ∙ sym (reverse-append (spaces a) (skip_spaces kept))
      ∙ ap reverse (sym at_front)
      ∙ reverse-reverse back in
    (
      a,
      b,
      whole
          ∙ ap (λ t. t ++ spaces b) at_front
          ∙ append_assoc (spaces a) (skip_spaces kept) (spaces b),
      skip_spaces-NoSpace kept,
      NoSpace-append (reverse (skip_spaces kept)) (spaces a)
          (subst NoSpace (sym ends) (skip_spaces-NoSpace (reverse line))),
    )
