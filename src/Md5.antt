-- ===== src/Md5.antt =====
-- src/md5.c: a digest that is fed piece by piece, and the digest of a file or a string as 32 hex
-- digits. A number is an `unsigned int`, and arithmetic on it is modulo 2 ^ 32; `a & 0x3F` and
-- `a & 0xFF` are remainders here. No caller gives more than BLOCK_SIZE bytes at once, so `i + 64` does
-- not wrap. The block step is in Transform.
pub mod Transform
pub mod Machine
pub mod Stream
pub mod Digest
pub mod Text
use sftt.Base.{
  ℕ, zero, suc, ◌+◌, ◌*◌, ◌-◌, ◌/◌, ◌%◌, ◌^◌, Bool, true, false, Option, none, some, List, [], ◌∷◌,
  ◌++◌, length, ◌≡◌, take, drop, replicate, ltb, leb, if◌then◌else◌, Result, ok, fault, out_of_fuel,
  ◌>>=◌, from_option, get_elem?,
}
use sftt.Base.Int.{ℤ, pos, negsuc}
use sftt.Bytes.{Buffer, write_bytes, take_bytes}
use sftt.Md5.Transform.{State, words, md5_encode, md5_transform}

pub record Md5Ctx : Type 0 where
  pub count0 : ℕ
  pub count1 : ℕ
  pub state : State
  pub buffer : Buffer

abbrev pub start : State
start = record { a = 0x67452301; b = 0xEFCDAB89; c = 0x98BADCFE; d = 0x10325476 }

-- `MD5Init` leaves the buffer as it is.
unfoldable pub md5_init : Buffer → Md5Ctx
md5_init buffer = record { count0 = 0; count1 = 0; state = start; buffer = buffer }

-- The loop over the whole blocks from `i`, and where it ends. No caller passes more bytes than it
-- reads at once, 1024, so `i + 64` stays far below 2 ^ 32.
pub whole_blocks : ℕ → State → Buffer → ℕ → Result (State × ℕ)
whole_blocks zero s input i = out_of_fuel
whole_blocks (suc fuel) s input i =
    let rest = take_bytes 64 (drop i input) >>= λ block.
    whole_blocks fuel (md5_transform s block) input (i + 64) in
    if leb (i + 64) (length input) then rest else ok (s, i)

abbrev pub index_of : Md5Ctx → ℕ
index_of ctx = ctx.count0 / 8 % 64

-- The two counters after `len` more bytes.
pub add_count : Md5Ctx → ℕ → Md5Ctx
add_count ctx len =
    let count0 = (ctx.count0 + len * 8 % 2 ^ 32) % 2 ^ 32 in
    let carry = if ltb count0 (len * 8 % 2 ^ 32) then 1 else 0 in
    record ctx { count0 = count0; count1 = (ctx.count1 + carry + len / 2 ^ 29) % 2 ^ 32 }

-- `memcpy(&context->buffer[index],&input[i],inputlen-i)`
pub keep_rest : Md5Ctx → State → ℕ → Buffer → Result Md5Ctx
keep_rest ctx s index rest =
    write_bytes ctx.buffer index rest >>= λ buffer. ok (record ctx { state = s; buffer = buffer })

-- The branch that fills the buffer first.
pub fill_buffer : Md5Ctx → ℕ → Buffer → Result Md5Ctx
unfolding whole_blocks keep_rest
fill_buffer ctx index input = do
  part ← take_bytes (64 - index) input
  buffer ← write_bytes ctx.buffer index part
  let s = md5_transform ctx.state buffer
  (s, i) ← whole_blocks (suc (length input)) s input (64 - index)
  keep_rest (record ctx { buffer = buffer }) s 0 (drop i input)

unfoldable pub md5_update : Md5Ctx → Buffer → Result Md5Ctx
unfolding add_count fill_buffer keep_rest
md5_update ctx input =
    let index = index_of ctx in
    let counted = add_count ctx (length input) in
    let filled = fill_buffer counted index input in
    let kept = keep_rest counted counted.state index input in
    if leb (64 - index) (length input) then filled else kept

abbrev pub padding : Buffer
padding = 0x80 ∷ replicate 63 0

unfoldable pub md5_final : Md5Ctx → Result Buffer
unfolding md5_update
md5_final ctx = do
  let index = index_of ctx
  let padlen = if ltb index 56 then 56 - index else 120 - index
  let bits = md5_encode (ctx.count0 ∷ ctx.count1 ∷ [])
  pad ← take_bytes padlen padding
  ctx ← md5_update ctx pad
  ctx ← md5_update ctx bits
  ok (md5_encode (words ctx.state))

-- The characters behind `charset`.
abbrev charset : List ℕ
charset =
    b'0' ∷ b'1' ∷ b'2' ∷ b'3' ∷ b'4' ∷ b'5' ∷ b'6' ∷ b'7' ∷ b'8' ∷ b'9' ∷ b'a' ∷ b'b' ∷ b'c' ∷ b'd'
    ∷ b'e' ∷ b'f' ∷ []

-- The assertion is that the index is in bounds.
unfoldable pub dec_to_hex_char : ℕ → Result ℕ
dec_to_hex_char dec = from_option (get_elem? charset dec)

-- The loop of `md5_printable_str`; `str` is allocated.
unfoldable pub printable_from : Buffer → Result (List ℕ)
unfolding dec_to_hex_char
printable_from [] = ok []
printable_from (b ∷ bs) = do
  high ← dec_to_hex_char (b / 16)
  low ← dec_to_hex_char (b % 16)
  rest ← printable_from bs
  ok (high ∷ low ∷ rest)

-- Whether `mp_malloc` gives the string is the first argument.
pub md5_printable_str : Bool → Buffer → Result (Option (List ℕ))
unfolding printable_from
md5_printable_str false digest = ok none
md5_printable_str true digest = printable_from digest >>= λ str. ok (some str)

abbrev pub block_size : ℕ
block_size = 1024

-- The loops of `md5_file` and `md5_str`: a block is what `fread` gives of a regular file, or what is
-- left of the string, at most BLOCK_SIZE bytes, and a block that is not full is the last.
pub update_blocks : ℕ → Md5Ctx → Buffer → Result Md5Ctx
unfolding md5_update
update_blocks zero ctx rest = out_of_fuel
update_blocks (suc fuel) ctx rest = do
  ctx ← md5_update ctx (take block_size rest)
  let more = update_blocks fuel ctx (drop block_size rest)
  if ltb (length (take block_size rest)) block_size then ok ctx else more

-- What a call returns, what it puts into `digest`, and the file and the block it has not given back.
pub record Outcome : Type 0 where
  pub ret : ℤ
  pub digest : Option (List ℕ)
  pub file_open : Bool
  pub data_held : Bool

-- `assert(tmp != NULL)`, and the copy of the string.
pub finish : Bool → Md5Ctx → Result Outcome
unfolding md5_final md5_printable_str
finish can_print ctx = do
  md5 ← md5_final ctx
  tmp ← md5_printable_str can_print md5
  str ← from_option tmp
  ok (record { ret = pos 0; digest = some str; file_open = false; data_held = false })

abbrev refused : Bool → Outcome
refused opened = record { ret = negsuc 0; digest = none; file_open = opened; data_held = false }

-- `buffer` is what the stack holds. The file is `none` where `fopen` fails; the two Booleans say
-- whether the two calls of `mp_malloc` succeed.
unfoldable pub md5_file : Buffer → Option Buffer → Bool → Bool → Result Outcome
unfolding md5_init update_blocks finish
md5_file buffer none can_read can_print = ok (refused false)
md5_file buffer (some bytes) false can_print = ok (refused true)
md5_file buffer (some bytes) true can_print =
    update_blocks (suc (length bytes)) (md5_init buffer) bytes >>= finish can_print

unfoldable pub md5_str : Buffer → Buffer → Bool → Result Outcome
unfolding md5_init update_blocks finish
md5_str buffer str can_print =
    update_blocks (suc (length str)) (md5_init buffer) str >>= finish can_print
