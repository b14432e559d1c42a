-- ===== src/Validate.antt =====
-- src/validate.c: IPv4 addresses in dotted decimal. A string is the list of its chars; behind it
-- stands the NUL.
pub mod Blocks
use sftt.Base.{
  ℕ, zero, suc, ◌+◌, ◌*◌, ◌-◌, Bool, true, false, ◌&&◌, ◌||◌, not, Option, none, some, List, [],
  ◌∷◌, length, leb, ltb, ◌==◌, if◌then◌else◌,
}

-- `p[j]` is neither NUL nor a dot, for `j` below 3: the chars that are copied to `tmp`, and `p + j`.
pub copy_block : ℕ → List ℕ → List ℕ × List ℕ
copy_block zero p = ([], p)
copy_block (suc room) [] = ([], [])
copy_block (suc room) (c ∷ p) =
    let (tmp, q) = copy_block room p in if c == b'.' then ([], c ∷ p) else (c ∷ tmp, q)

-- `atoi` of at most three chars that are all digits: the caller has looked at them.
pub atoi_from : ℕ → List ℕ → ℕ
atoi_from v [] = v
atoi_from v (c ∷ s) = atoi_from (v * 10 + (c - b'0')) s

-- The checks on the block `tmp`, and on what is behind it.
block_ok : List ℕ → List ℕ → Bool → Bool
unfolding atoi_from
block_ok [] q is_last = false
block_ok (c ∷ tmp) [] is_last =
    not ((c == b'0') && not (atoi_from 0 (c ∷ tmp) == 0)) && leb (atoi_from 0 (c ∷ tmp)) 255
block_ok (c ∷ tmp) (d ∷ q) is_last =
    not is_last
    && (not ((c == b'0') && not (atoi_from 0 (c ∷ tmp) == 0)) && leb (atoi_from 0 (c ∷ tmp)) 255)

-- From the block on: `none` is RET_INVALID.
block_at : List ℕ → Bool → Option (List ℕ)
unfolding block_ok copy_block
block_at p is_last =
    let (tmp, q) = copy_block 3 p in if block_ok tmp q is_last then some q else none

pub is_valid_dotted_decimal : List ℕ → Bool → Bool → Option (List ℕ)
unfolding block_at
is_valid_dotted_decimal [] is_first is_last = if is_first then block_at [] is_last else none
is_valid_dotted_decimal (c ∷ p) is_first is_last =
    if is_first then block_at (c ∷ p) is_last else if c == b'.' then block_at p is_last else none

-- The loop over the chars.
pub all_ip_chars : List ℕ → Bool
all_ip_chars [] = true
all_ip_chars (c ∷ s) = ((leb b'0' c && leb c b'9') || (c == b'.')) && all_ip_chars s

-- What is done with the string behind a valid block.
and_then : (List ℕ → Bool) → Option (List ℕ) → Bool
and_then f none = false
and_then f (some q) = f q

-- The loop over the blocks, with the blocks that are left.
pub valid_blocks : ℕ → Bool → List ℕ → Bool
unfolding is_valid_dotted_decimal and_then
valid_blocks zero is_first p = true
valid_blocks (suc n) is_first p =
    and_then (λ q. valid_blocks n false q) (is_valid_dotted_decimal p is_first (n == 0))

unfoldable pub is_valid_ipv4 : List ℕ → Bool
unfolding all_ip_chars valid_blocks
is_valid_ipv4 ip =
    if ltb (length ip) 7 || ltb 15 (length ip)
    then false
    else if all_ip_chars ip
    then valid_blocks 4 true ip
    else false
