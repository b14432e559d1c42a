-- ===== src/Bytes.antt =====
-- Buffers of bytes, and the little-endian numbers that the program copies into them by `memcpy` and
-- reads back through casted pointers. A buffer is a list of bytes, a pointer an offset into it, and
-- an access outside the buffer is a fault.
pub mod Laws
use sftt.Base.{
  ℕ, zero, suc, ◌+◌, ◌*◌, ◌/◌, ◌%◌, ◌<◌, Option, List, [], ◌∷◌, length, get_elem?, set, ltb,
  if◌then◌else◌, Result, ok, fault, ◌>>=◌, from_option,
}

abbrev pub Buffer : Type 0
Buffer = List ℕ

abbrev pub IsByte : ℕ → Type 0
IsByte b = b < 256

abbrev pub le16 : ℕ → Buffer
le16 n = n % 256 ∷ n / 256 % 256 ∷ []

abbrev pub le32 : ℕ → Buffer
le32 n = n % 256 ∷ n / 256 % 256 ∷ n / 65536 % 256 ∷ n / 16777216 % 256 ∷ []

unfoldable pub read_byte : Buffer → ℕ → Result ℕ
read_byte buf i = from_option (get_elem? buf i)

unfoldable pub read_le16 : Buffer → ℕ → Result ℕ
read_le16 buf i = do a ← read_byte buf i; b ← read_byte buf (i + 1); ok (a + 256 * b)

unfoldable pub read_le32 : Buffer → ℕ → Result ℕ
read_le32 buf i = do
  a ← read_byte buf i
  b ← read_byte buf (i + 1)
  c ← read_byte buf (i + 2)
  d ← read_byte buf (i + 3)
  ok (a + 256 * b + 65536 * c + 16777216 * d)

-- `memcpy` of `bytes` to offset `i`.
unfoldable pub write_bytes : Buffer → ℕ → Buffer → Result Buffer
write_bytes buf i [] = ok buf
write_bytes buf i (b ∷ bs) =
    let rest = write_bytes (set buf i b) (i + 1) bs in if ltb i (length buf) then rest else fault

-- `memcpy` of the first `n` bytes to a buffer of that size.
unfoldable pub take_bytes : ℕ → Buffer → Result Buffer
take_bytes zero buf = ok []
take_bytes (suc n) [] = fault
take_bytes (suc n) (b ∷ bs) = take_bytes n bs >>= λ r. ok (b ∷ r)
