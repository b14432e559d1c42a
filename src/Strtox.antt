-- ===== src/Strtox.antt =====
-- src/strtox.c: unsigned integers from strings. A string is the list of its chars, without the NUL.
pub mod Number
use sftt.Base.{
  ℕ, zero, suc, ◌+◌, ◌-◌, ◌*◌, ◌/◌, ◌%◌, ◌^◌, Bool, true, false, ◌&&◌, ◌||◌, Option, none, some,
  List, [], ◌∷◌, ltb, leb, ◌==◌, if◌then◌else◌, get_or,
}
use sftt.Base.Int.{ℤ, pos, negsuc}

-- `c | 0x20`
pub tolower : ℕ → ℕ
tolower c = if c / 32 % 2 == 0 then c + 32 else c

pub isdigit : ℕ → Bool
isdigit c = leb b'0' c && leb c b'9'

pub isxdigit : ℕ → Bool
unfolding isdigit
isxdigit c = isdigit c || ((leb b'a' c && leb c b'f') || (leb b'A' c && leb c b'F'))

-- `s + n`; no caller goes behind the NUL.
pub skip : ℕ → List ℕ → List ℕ
skip zero s = s
skip (suc n) [] = []
skip (suc n) (c ∷ s) = skip n s

-- `val`, for a char that is a digit of some base up to 16.
pub digit_value : ℕ → ℕ
unfolding isdigit tolower
digit_value c = if isdigit c then c - b'0' else tolower c - b'a' + 10

-- The loop of `_parse_integer` goes on at this char.
unfoldable pub is_digit_of : ℕ → ℕ → Bool
unfolding isdigit digit_value tolower
is_digit_of base c =
    (isdigit c || (leb b'a' (tolower c) && leb (tolower c) b'f')) && ltb (digit_value c) base

-- The test for overflow, made where one of the four high bits is set.
pub overflows : ℕ → ℕ → ℕ → Bool
overflows res base val = leb (2 ^ 60) res && ltb ((2 ^ 64 - 1 - val) / base) res

-- The loop: `res`, the number of chars in `rv`, and the bit KSTRTOX_OVERFLOW of `rv`. No string has
-- 2 ^ 31 chars.
pub parse_from : List ℕ → ℕ → ℕ → ℕ → Bool → ℕ × ℕ × Bool
unfolding is_digit_of overflows digit_value
parse_from [] base res rv overflow = (res, rv, overflow)
parse_from (c ∷ s) base res rv overflow =
    let val = digit_value c in
    let rest =
      parse_from s base ((res * base + val) % 2 ^ 64) (rv + 1)
        (overflow || overflows res base val) in
    if is_digit_of base c then rest else (res, rv, overflow)

pub parse_integer : List ℕ → ℕ → ℕ × ℕ × Bool
unfolding parse_from
parse_integer s base = parse_from s base 0 0 false

-- The base that base 0 stands for.
pub detect_base : List ℕ → ℕ → ℕ
unfolding tolower isxdigit
detect_base s base =
    if base == 0
    then (if get_or s 0 0 == b'0'
        then if (tolower (get_or s 1 0) == b'x') && isxdigit (get_or s 2 0) then 16 else 8
        else 10)
    else base

pub skip_prefix : List ℕ → ℕ → List ℕ
unfolding tolower skip
skip_prefix s base =
    if (base == 16) && ((get_or s 0 0 == b'0') && (tolower (get_or s 1 0) == b'x'))
    then skip 2 s
    else s

-- The string behind the prefix, and the base.
pub parse_integer_fixup_radix : List ℕ → ℕ → List ℕ × ℕ
unfolding detect_base skip_prefix
parse_integer_fixup_radix s base = (skip_prefix s (detect_base s base), detect_base s base)

abbrev pub erange : ℤ
erange = negsuc 33

abbrev pub einval : ℤ
einval = negsuc 21

-- `if (*s == '\n') s++; if (*s) …`
pub at_end : List ℕ → Bool
at_end [] = true
at_end (c ∷ []) = c == 10
at_end (c ∷ d ∷ s) = false

-- The value returned, and what is stored in `*res`.
finish : List ℕ → ℕ × ℕ × Bool → ℤ × Option ℕ
unfolding at_end skip
finish s (res, rv, overflow) =
    if overflow
    then (erange, none)
    else if rv == 0
    then (einval, none)
    else if at_end (skip rv s)
    then (pos 0, some res)
    else (einval, none)

parse_unsigned : List ℕ → ℕ → ℤ × Option ℕ
unfolding parse_integer_fixup_radix parse_integer finish
parse_unsigned s base =
    let (t, b) = parse_integer_fixup_radix s base in finish t (parse_integer t b)

pub kstrtoull : List ℕ → ℕ → ℤ × Option ℕ
unfolding parse_unsigned
kstrtoull [] base = parse_unsigned [] base
kstrtoull (c ∷ s) base = if c == b'+' then parse_unsigned s base else parse_unsigned (c ∷ s) base

-- The value has to fit in 32 bits.
narrow : ℤ × Option ℕ → ℤ × Option ℕ
narrow (rv, none) = (rv, none)
narrow (rv, some tmp) = if tmp == tmp % 2 ^ 32 then (pos 0, some tmp) else (erange, none)

pub kstrtouint : List ℕ → ℕ → ℤ × Option ℕ
unfolding narrow kstrtoull
kstrtouint s base = narrow (kstrtoull s base)
