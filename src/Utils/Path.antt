-- ===== src/Utils/Path.antt =====
-- The form of a path that `simplify_path` leaves.
use sftt.Base.{ℕ, ◌≡◌, refl, Bool, false, ◌&&◌, inl, inr, List, [], ◌∷◌, ap, ◌==◌, Bool-cases}
use sftt.Utils.{squeeze, simplify_path, cut_slashes}

-- No slash stands behind a slash; `slash` says whether one stands in front of the string.
abbrev pub NoDouble : Bool → List ℕ → Type 0
NoDouble slash [] = Unit
NoDouble slash (c ∷ s) = (((c == b'/') && slash) ≡ false) × NoDouble (c == b'/') s

squeeze-NoDouble : (slash : Bool) (s : List ℕ) → NoDouble slash (squeeze slash s)
unfolding squeeze
squeeze-NoDouble slash [] = tt
squeeze-NoDouble slash (c ∷ s) = elim (Bool-cases ((c == b'/') && slash)) [
  | inl double ↦ rw double (squeeze-NoDouble slash s)
  | inr single ↦ rw single (single, squeeze-NoDouble (c == b'/') s)
]

-- A string with no two slashes together is left alone by the copy.
squeeze_same : (slash : Bool) (s : List ℕ) → NoDouble slash s → squeeze slash s ≡ s
unfolding squeeze
squeeze_same slash [] h = refl
squeeze_same slash (c ∷ s) h = rw h.0 (ap (λ t. c ∷ t) (squeeze_same (c == b'/') s h.1))

-- In the path that `simplify_path` leaves, no slash stands behind a slash.
pub simplify_path-NoDouble : (path : List ℕ) → NoDouble false (simplify_path path)
unfolding simplify_path
simplify_path-NoDouble [] = tt
simplify_path-NoDouble (c ∷ s) = squeeze-NoDouble false (cut_slashes (c ∷ s))

-- A path in which no slash stands behind a slash, and from whose end none is taken off, is left as
-- it is.
pub simplify_path_same :
    (path : List ℕ) → NoDouble false path → cut_slashes path ≡ path → simplify_path path ≡ path
unfolding simplify_path
simplify_path_same [] single whole = refl
simplify_path_same (c ∷ s) single whole = rw whole (squeeze_same false (c ∷ s) single)
