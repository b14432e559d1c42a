-- ===== src/Crypt/Inverse.antt =====
-- The two loops of encrypt.c undo one another.
use sftt.Base.{ℕ, suc, ◌+◌, ◌<◌, ◌≡◌, refl, [], ◌∷◌, length, arith, ap, All, ok}
use sftt.Bytes.{Buffer, IsByte}
use sftt.Crypt.{
  encrypt_byte, decrypt_byte, encrypt_from, decrypt_from, sftt_encrypt_func, sftt_decrypt_func,
}

decrypt_byte-encrypt_byte : (i b : ℕ) → b < 256 → decrypt_byte i (encrypt_byte i b) ≡ b
unfolding decrypt_byte encrypt_byte
decrypt_byte-encrypt_byte i b h = omega arith

-- Of a whole buffer, the loop makes a buffer of the same size that the other loop turns back.
pub decrypt_from-encrypt_from :
    (i : ℕ) (bs : Buffer)
    → All IsByte bs
    → (cs : Buffer) × (encrypt_from i (length bs) bs ≡ ok cs)
      × (length cs ≡ length bs)
      × (decrypt_from i (length cs) cs ≡ ok bs)
unfolding encrypt_from decrypt_from
decrypt_from-encrypt_from i [] h = ([], refl, refl, refl)
decrypt_from-encrypt_from i (b ∷ bs) h =
    let (cs, run, size, back) = decrypt_from-encrypt_from (i + 1) bs h.1 in
    (
      encrypt_byte i b ∷ cs,
      rw run refl,
      ap suc size,
      rw (back, decrypt_byte-encrypt_byte i b h.0) refl,
    )

-- `sftt_encrypt_func` over a whole buffer of bytes ends with no fault and keeps its size, and
-- `sftt_decrypt_func` over the whole result gives the buffer back.
pub decrypt-encrypt :
    (bs : Buffer)
    → All IsByte bs
    → (cs : Buffer) × (sftt_encrypt_func bs (length bs) ≡ ok cs)
      × (length cs ≡ length bs)
      × (sftt_decrypt_func cs (length cs) ≡ ok bs)
unfolding sftt_encrypt_func sftt_decrypt_func
decrypt-encrypt bs h = decrypt_from-encrypt_from 0 bs h
