-- ===== src/Utils.antt =====
-- src/utils.c: the functions on strings. A string is the list of its chars, without the NUL.
pub mod Trim
pub mod Path
use sftt.Base.{
  ℕ, suc, ◌+◌, ◌*◌, ◌-◌, ◌^◌, Bool, true, false, ◌&&◌, ◌||◌, not, List, [], ◌∷◌, reverse, length,
  leb, ltb, ◌==◌, if◌then◌else◌,
}

-- The loops of `strip`: spaces are taken off at the front of what is left, and at the end by the
-- same loop over the string from its end.
unfoldable pub skip_spaces : List ℕ → List ℕ
skip_spaces [] = []
skip_spaces (c ∷ s) = let rest = skip_spaces s in if c == b' ' then rest else c ∷ s

unfoldable pub cut_spaces : List ℕ → List ℕ
unfolding skip_spaces
cut_spaces line = reverse (skip_spaces (reverse line))

-- What `line` is left with.
unfoldable pub strip : List ℕ → List ℕ
unfolding cut_spaces skip_spaces
strip line = skip_spaces (cut_spaces line)

-- The loop that takes off slashes at the end, over the string from its end; the first char stays.
pub cut_slashes_from : List ℕ → List ℕ
cut_slashes_from [] = []
cut_slashes_from (c ∷ []) = c ∷ []
cut_slashes_from (c ∷ d ∷ s) =
    let rest = cut_slashes_from (d ∷ s) in if c == b'/' then rest else c ∷ d ∷ s

unfoldable pub cut_slashes : List ℕ → List ℕ
unfolding cut_slashes_from
cut_slashes path = reverse (cut_slashes_from (reverse path))

-- The loop that copies all but a slash behind a slash.
pub squeeze : Bool → List ℕ → List ℕ
squeeze slash [] = []
squeeze slash (c ∷ s) =
    let copied = c ∷ squeeze (c == b'/') s in
    let left_out = squeeze slash s in if (c == b'/') && slash then left_out else copied

unfoldable pub simplify_path : List ℕ → List ℕ
unfolding cut_slashes squeeze
simplify_path [] = []
simplify_path (c ∷ s) = squeeze false (cut_slashes (c ∷ s))
