-- ===== src/Tests/Strings.antt =====
-- Numbers, addresses and versions.
use sftt.Base.{arith, ℕ, ◌^◌, ◌≤◌, ◌≡◌, ◌≢◌, refl, true, ◌↔◌, All, List, [], ◌∷◌, ◌++◌, length}
use sftt.Base.Decimal.{IsDigit, decimal}
use sftt.Base.Int.{pos}
use sftt.Strtox.{kstrtoull}
use sftt.Strtox.Number.{ending, converted, kstrtoull-number}
use sftt.Validate.{is_valid_ipv4}
use sftt.Validate.Blocks.{IsIpChar, IsDotted, is_valid_ipv4-IsDotted}
use sftt.Utils.{cut_slashes}
use sftt.Version.{VersionInfo, check_version, all_digits}
use sftt.Version.Matching.{Matching, check_version-Matching}

abbrev four_two : List ℕ
four_two = b'4' ∷ b'2' ∷ []

four_two-digits : All IsDigit four_two
four_two-digits = ((omega arith, omega arith), ((omega arith, omega arith), tt))

kstrtoull-number_example :
    kstrtoull (b'4' ∷ (b'2' ∷ []) ++ ending true) 10 ≡ converted (2 ^ 64) (decimal 0 four_two)
kstrtoull-number_example = kstrtoull-number b'4' (b'2' ∷ []) true four_two-digits

-- "10.0.0.17"
abbrev address : List ℕ
address = b'1' ∷ b'0' ∷ b'.' ∷ b'0' ∷ b'.' ∷ b'0' ∷ b'.' ∷ b'1' ∷ b'7' ∷ []

address_valid : is_valid_ipv4 address ≡ true
unfolding is_valid_ipv4
address_valid = refl

is_valid_ipv4-IsDotted_example :
    (7 ≤ length address) × (length address ≤ 15) × All IsIpChar address × IsDotted 4 true address
is_valid_ipv4-IsDotted_example = is_valid_ipv4-IsDotted address address_valid

-- A second '0' at the front of a block is let through where the block is 0.
redundant_zero :
    is_valid_ipv4 (b'0' ∷ b'0' ∷ b'0' ∷ b'.' ∷ b'0' ∷ b'.' ∷ b'0' ∷ b'.' ∷ b'0' ∷ []) ≡ true
unfolding is_valid_ipv4
redundant_zero = refl

abbrev version : ℕ → ℕ → ℕ → VersionInfo
version a b c = record { major = a; minor = b; revision = c }

check_version-Matching_example :
    (check_version (version 0 1 3) (version 0 1 9)).0 ≡ pos 0
    ↔ Matching (version 0 1 3) (version 0 1 9)
check_version-Matching_example = check_version-Matching (version 0 1 3) (version 0 1 9)

two_digits : all_digits four_two ≡ true
unfolding all_digits
two_digits = refl

forty_two : decimal 0 four_two ≡ 42
unfolding decimal
forty_two = refl

-- " a b "
abbrev loose : List ℕ
loose = b' ' ∷ b'a' ∷ b' ' ∷ b'b' ∷ b' ' ∷ []

-- "//a"
abbrev slashes : List ℕ
slashes = b'/' ∷ b'/' ∷ b'a' ∷ []

nothing_cut : cut_slashes (b'/' ∷ b'a' ∷ []) ≡ b'/' ∷ b'a' ∷ []
unfolding cut_slashes
nothing_cut = refl

early_refused : (check_version (version 0 0 3) (version 0 0 9)).0 ≢ pos 0
unfolding check_version
early_refused e = let bad : ⊥ = cc in absurd bad
