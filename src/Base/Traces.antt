-- ===== src/Base/Traces.antt =====
-- Runs of a step relation, and a simulation of one system by another that is shown step by step.
use mathlib.Core.List.{List, [], ◌∷◌}

-- A run with the events it has.
pub data Run {ℓ κ ι} {S : Type ℓ} {E : Type κ} (Step : S → E → S → Type ι)
    : S → List E → S → Type (ℓ ⊔ κ ⊔ ι) where
  stay : (s : S) → Run Step s [] s
  step : (s t u : S) (e : E) (es : List E) → Step s e t → Run Step t es u → Run Step s (e ∷ es) u

module _ {ℓ κ ι μ ν ρ} {C : Type ℓ} {E : Type κ} {A : Type ι} (CStep : C → E → C → Type μ)
    (AStep : A → E → A → Type ν) (Rep : C → A → Type ρ)
    (sim : (c c' : C) (a : A) (e : E)
      → Rep c a
      → CStep c e c'
      → (a' : A) × AStep a e a' × Rep c' a') where
  pub simulate :
      (c c' : C) (a : A) (es : List E)
      → Rep c a
      → Run CStep c es c'
      → (a' : A) × Run AStep a es a' × Rep c' a'
  simulate c c' a es r (stay s) = (a, stay a, r)
  simulate c c' a es r (step s t u e fs one rest) =
      let (b, astep, r') = sim c t a e r one in
      let (a', arun, r'') = simulate t c' b fs r' rest in (a', step a b a' e fs astep arun, r'')
