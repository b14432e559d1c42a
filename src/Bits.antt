-- ===== src/Bits.antt =====
-- src/bits.c: one bit of a byte. Positions count from 1, the lowest bit, to 8.
pub mod Laws
use Prim.Native.Nat.{bit_and, bit_or}
use sftt.Base.{ℕ, ◌+◌, ◌-◌, ◌*◌, ◌/◌, ◌%◌, ◌^◌, ◌==◌, if◌then◌else◌}

-- The shifts are those of `int`, and the store keeps the low byte.
unfoldable pub set_bit : ℕ → ℕ → ℕ → ℕ
set_bit ch pos bit =
    if bit == 0
    then bit_and ch (bit_or (255 * 2 ^ pos) (255 / 2 ^ (8 - pos + 1)) % 256)
    else bit_or ch (2 ^ (pos - 1)) % 256

unfoldable pub get_bit : ℕ → ℕ → ℕ
get_bit ch pos = if bit_and ch (2 ^ (pos - 1)) == 0 then 0 else 1
