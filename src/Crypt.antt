-- ===== src/Crypt.antt =====
-- src/encrypt.c: the cipher that shifts each byte by its offset and 5.
pub mod Inverse
use sftt.Base.{ℕ, zero, suc, ◌+◌, ◌-◌, ◌%◌, List, [], ◌∷◌, Result, ok, fault, ◌>>=◌}
use sftt.Bytes.{Buffer}

-- What is left of `source[i] + i + 5` in an `unsigned char`.
pub encrypt_byte : ℕ → ℕ → ℕ
encrypt_byte i b = (b + i + 5) % 256

-- What is left of `aim[i] - i - 5`: a difference below 0 wraps around.
pub decrypt_byte : ℕ → ℕ → ℕ
decrypt_byte i b = (b + (256 - (i + 5) % 256)) % 256

-- The loop from `i` on, with the rounds that are left and the bytes from `i` on.
pub encrypt_from : ℕ → ℕ → Buffer → Result Buffer
unfolding encrypt_byte
encrypt_from i zero bs = ok bs
encrypt_from i (suc n) [] = fault
encrypt_from i (suc n) (b ∷ bs) = encrypt_from (i + 1) n bs >>= λ r. ok (encrypt_byte i b ∷ r)

pub decrypt_from : ℕ → ℕ → Buffer → Result Buffer
unfolding decrypt_byte
decrypt_from i zero bs = ok bs
decrypt_from i (suc n) [] = fault
decrypt_from i (suc n) (b ∷ bs) = decrypt_from (i + 1) n bs >>= λ r. ok (decrypt_byte i b ∷ r)

unfoldable pub sftt_encrypt_func : Buffer → ℕ → Result Buffer
unfolding encrypt_from
sftt_encrypt_func source size = encrypt_from 0 size source

unfoldable pub sftt_decrypt_func : Buffer → ℕ → Result Buffer
unfolding decrypt_from
sftt_decrypt_func aim size = decrypt_from 0 size aim
