-- ===== src/Version/Matching.antt =====
-- `check_version` as a relation between versions, and the numbers that `get_short` reads.
use sftt.Base.{
  ℕ, ◌+◌, ◌*◌, ◌-◌, ◌%◌, ◌^◌, ◌≤◌, ◌<◌, ◌≡◌, ◌≢◌, refl, true, ◌↔◌, List, [], ◌∷◌, arith, lt→ltb,
}
use sftt.Base.Decimal.{decimal}
use sftt.Base.Int.{pos}
use sftt.Version.{VersionInfo, check_version, use_revision, get_short, all_digits, short_from}

-- The two go together: one major and one minor version and, before 0.1, one revision.
pub record Matching (client server : VersionInfo) : Type 0 where
  pub majors : client.major ≡ server.major
  pub minors : client.minor ≡ server.minor
  pub early : server.major ≡ 0 → server.minor ≡ 0 → client.revision ≡ server.revision

-- `check_version` returns 0 exactly for the versions that go together.
pub check_version-Matching :
    (client server : VersionInfo) → (check_version client server).0 ≡ pos 0 ↔ Matching client server
unfolding check_version
check_version-Matching client server = (
  λ h. record { majors = ground arith; minors = ground arith; early = λ a b. ground arith },
  λ m. let a = m.majors in let b = m.minors in let c = m.early in ground arith,
)

-- A client that is refused is asked for one revision exactly where the server is before 0.1.
pub check_version_advice :
    (client server : VersionInfo)
    → (check_version client server).0 ≢ pos 0
    → ((check_version client server).1 ≡ use_revision) ↔ ((server.major ≡ 0) × (server.minor ≡ 0))
unfolding check_version
check_version_advice client server refused =
    (λ h. (ground arith, ground arith), λ (a, b). ground arith)

decimal_le : (v : ℕ) (s : List ℕ) → v ≤ decimal v s
unfolding decimal
decimal_le v [] = omega arith
decimal_le v (c ∷ s) = omega (arith, decimal_le (v * 10 + (c - b'0')) s)

short_from-decimal : (v : ℕ) (s : List ℕ) → decimal v s < 2 ^ 16 → short_from v s ≡ decimal v s
unfolding short_from decimal
short_from-decimal v [] lt = refl
short_from-decimal v (c ∷ s) lt =
    let next = v * 10 + (c - b'0') in
    let e : next % 2 ^ 16 ≡ next = omega (arith, decimal_le next s) in
    rw e (short_from-decimal next s lt)

-- Decimal digits that write a number below 2 ^ 15 are read as that number.
pub get_short-decimal :
    (c : ℕ) (s : List ℕ)
    → all_digits (c ∷ s) ≡ true
    → decimal 0 (c ∷ s) < 2 ^ 15
    → get_short (c ∷ s) ≡ pos (decimal 0 (c ∷ s))
unfolding get_short
get_short-decimal c s digits lt =
    rw
      (
        digits,
        short_from-decimal 0 (c ∷ s) (omega (arith, lt)),
        lt→ltb (decimal 0 (c ∷ s)) (2 ^ 15) lt,
      )
      refl
