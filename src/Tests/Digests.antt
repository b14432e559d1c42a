-- ===== src/Tests/Digests.antt =====
-- Digests.
use sftt.Base.{
  arith, ℕ, ◌*◌, ◌≡◌, refl, true, false, none, some, List, [], ◌∷◌, length, replicate, ok,
}
use sftt.Base.Int.{negsuc}
use sftt.Bytes.{Buffer, write_bytes, take_bytes}
use sftt.Md5.Transform.{md5_transform}
use sftt.Md5.{start, md5_printable_str, md5_file, md5_str, md5_update}
use sftt.Md5.Machine.{machine, digest_of}
use sftt.Md5.Stream.{ctx_at, Fits, Took, md5_update-Took}
use sftt.Md5.Text.{hex, read_hex, digested, md5_str-digest_of, md5_printable_str-reads}

-- What the stack holds where a digest begins.
abbrev leftover : Buffer
leftover = replicate 64 165

abbrev abc : Buffer
abc = b'a' ∷ b'b' ∷ b'c' ∷ []

-- The digests of no bytes and of "abc" that RFC 1321 lists.
abbrev of_nothing : List ℕ
of_nothing =
    b'd' ∷ b'4' ∷ b'1' ∷ b'd' ∷ b'8' ∷ b'c' ∷ b'd' ∷ b'9' ∷ b'8' ∷ b'f' ∷ b'0' ∷ b'0' ∷ b'b' ∷ b'2'
    ∷ b'0' ∷ b'4' ∷ b'e' ∷ b'9' ∷ b'8' ∷ b'0' ∷ b'0' ∷ b'9' ∷ b'9' ∷ b'8' ∷ b'e' ∷ b'c' ∷ b'f'
    ∷ b'8' ∷ b'4' ∷ b'2' ∷ b'7' ∷ b'e' ∷ []

abbrev of_abc : List ℕ
of_abc =
    b'9' ∷ b'0' ∷ b'0' ∷ b'1' ∷ b'5' ∷ b'0' ∷ b'9' ∷ b'8' ∷ b'3' ∷ b'c' ∷ b'd' ∷ b'2' ∷ b'4' ∷ b'f'
    ∷ b'b' ∷ b'0' ∷ b'd' ∷ b'6' ∷ b'9' ∷ b'6' ∷ b'3' ∷ b'f' ∷ b'7' ∷ b'd' ∷ b'2' ∷ b'8' ∷ b'e'
    ∷ b'1' ∷ b'7' ∷ b'f' ∷ b'7' ∷ b'2' ∷ []

nothing_digest : md5_str leftover [] true ≡ ok (digested of_nothing)
unfolding md5_str write_bytes take_bytes md5_transform
nothing_digest = refl

abc_digest : md5_str leftover abc true ≡ ok (digested of_abc)
unfolding md5_str write_bytes take_bytes md5_transform
abc_digest = refl

-- A file stays open where `mp_malloc` refuses the block to read into.
refused_block :
    md5_file leftover (some abc) false true
    ≡ ok (record { ret = negsuc 0; digest = none; file_open = true; data_held = false })
unfolding md5_file
refused_block = refl

md5_str-digest_of_example :
    (md5_str leftover abc true ≡ ok (digested (hex (digest_of abc))))
    × (md5_file leftover (some abc) true true ≡ ok (digested (hex (digest_of abc))))
md5_str-digest_of_example = md5_str-digest_of leftover abc refl

md5_printable_str-reads_example :
    (str : List ℕ) × (md5_printable_str true (255 ∷ 10 ∷ []) ≡ ok (some str))
    × (length str ≡ 2 * 2)
    × (read_hex str ≡ 255 ∷ 10 ∷ [])
md5_printable_str-reads_example =
    md5_printable_str-reads (255 ∷ 10 ∷ []) (omega arith, (omega arith, tt))

Fits-abc : Fits 3 (machine start abc) (replicate 61 165)
Fits-abc = record { used = refl; size = refl }

md5_update-Took_example :
    Took 3 start abc
      (replicate 61 165)
      (replicate 70 b'x')
      Fits-abc
      (md5_update (ctx_at 3 (machine start abc) (replicate 61 165)) (replicate 70 b'x'))
md5_update-Took_example =
    md5_update-Took 3 start abc (replicate 61 165) (replicate 70 b'x') Fits-abc
