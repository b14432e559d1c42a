-- ===== src/Version.antt =====
-- src/version.c: whether a client's version and the server's go together.
pub mod Matching
use sftt.Base.{
  ℕ, zero, suc, ◌+◌, ◌*◌, ◌-◌, ◌%◌, ◌^◌, Bool, true, false, ◌&&◌, ◌||◌, not, List, [], ◌∷◌, leb,
  ltb, ◌==◌, if◌then◌else◌,
}
use sftt.Base.Int.{ℤ, pos, negsuc, short_of}

-- `struct version_info`, its `short`s as 16-bit patterns.
pub record VersionInfo : Type 0 where
  pub major : ℕ
  pub minor : ℕ
  pub revision : ℕ

-- Whether `message` is left alone, asks for one revision, or for any revision of a minor version.
pub data Advice : Type 0 where
  no_message : Advice
  use_revision : Advice
  use_minor : Advice

unfoldable pub check_version : VersionInfo → VersionInfo → ℤ × Advice
check_version client server =
    if (client.major == server.major) && (client.minor == server.minor)
    then (if ((server.major == 0) && (server.minor == 0))
          && not (client.revision == server.revision)
        then (negsuc 0, use_revision)
        else (pos 0, no_message))
    else (if (server.major == 0) && (server.minor == 0)
        then (negsuc 0, use_revision)
        else (negsuc 0, use_minor))

-- The two loops of `get_short`, over the `len` chars at `p`.
unfoldable pub all_digits : List ℕ → Bool
all_digits [] = true
all_digits (c ∷ s) = (leb b'0' c && leb c b'9') && all_digits s

short_from : ℕ → List ℕ → ℕ
short_from num [] = num
short_from num (c ∷ s) = short_from ((num * 10 + (c - b'0')) % 2 ^ 16) s

pub get_short : List ℕ → ℤ
unfolding all_digits short_from
get_short [] = negsuc 0
get_short (c ∷ s) = if all_digits (c ∷ s) then short_of (short_from 0 (c ∷ s)) else negsuc 0
