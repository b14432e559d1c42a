-- ===== src/Config.antt =====
-- src/config.c: the lines of the configuration files of the server and the client. A string is the
-- list of its chars, without the NUL.
pub mod Lines
pub mod Accepted
pub mod Files
pub mod Paths
use sftt.Base.{
  ℕ, zero, suc, ◌+◌, ◌*◌, ◌-◌, ◌^◌, Bool, true, false, ◌&&◌, ◌||◌, Option, none, some, List, [],
  ◌∷◌, ◌++◌, length, take, drop, replicate, ltb, leb, ◌==◌, if◌then◌else◌, Result, ok, fault,
  out_of_fuel, ◌>>=◌,
}
use sftt.Base.Int.{ℤ, pos, negsuc}
use sftt.Base.Same.{same_bytes}
use sftt.Bytes.{Buffer, write_bytes}
use sftt.Utils.{skip_spaces, strip}

abbrev pub line_max : ℕ
line_max = 1024

abbrev pub name_max : ℕ
name_max = 256

abbrev pub value_max : ℕ
value_max = 512

abbrev pub file_name_max : ℕ
file_name_max = 256

abbrev pub dir_path_max : ℕ
dir_path_max = 1024

-- The arrays `store_path` and `log_dir` stand one behind the other in `paths`.
pub record ServerConfig : Type 0 where
  pub paths : Buffer
  pub block_size : ℤ
  pub update_th : ℤ

pub record ClientConfig : Type 0 where
  pub block_size : ℤ
  pub log_dir : Buffer

-- The chars before a NUL.
abbrev pub c_string : Buffer → List ℕ
c_string [] = []
c_string (c ∷ s) = let rest = c_string s in if c == 0 then [] else c ∷ rest

abbrev pub store_path_of : ServerConfig → List ℕ
store_path_of ssc = c_string (take file_name_max ssc.paths)

abbrev pub log_dir_of : ServerConfig → List ℕ
log_dir_of ssc = c_string (drop file_name_max ssc.paths)

-- What `strncpy` with a bound of `n` stores.
abbrev pub strncpy_bytes : ℕ → List ℕ → Buffer
strncpy_bytes zero s = []
strncpy_bytes (suc n) [] = 0 ∷ strncpy_bytes n []
strncpy_bytes (suc n) (c ∷ s) = c ∷ strncpy_bytes n s

-- `atoi`: the spaces at the front, a sign, and the digits. A number that is no `int` is undefined.
abbrev is_space : ℕ → Bool
is_space c = (c == b' ') || (leb 9 c && leb c 13)

abbrev is_digit : ℕ → Bool
is_digit c = leb b'0' c && leb c b'9'

digits_from : ℕ → List ℕ → ℕ
digits_from v [] = v
digits_from v (c ∷ s) =
    let rest = digits_from (v * 10 + (c - b'0')) s in if is_digit c then rest else v

abbrev negative : ℕ → ℤ
negative zero = pos 0
negative (suc n) = negsuc n

signed : List ℕ → Result ℤ
unfolding digits_from
signed [] = ok (pos 0)
signed (c ∷ s) =
    let n = digits_from 0 s in
    let minus : Result ℤ = if leb n (2 ^ 31) then ok (negative n) else fault in
    let plus : Result ℤ = if ltb n (2 ^ 31) then ok (pos n) else fault in
    let all = digits_from 0 (c ∷ s) in
    let plain : Result ℤ = if ltb all (2 ^ 31) then ok (pos all) else fault in
    if c == b'-' then minus else if c == b'+' then plus else plain

unfoldable pub atoi : List ℕ → Result ℤ
unfolding signed
atoi [] = ok (pos 0)
atoi (c ∷ s) = let rest = atoi s in if is_space c then rest else signed (c ∷ s)

-- The loops that copy up to a space or up to the end of an array of `room` chars, and what they
-- leave.
pub copy_word : ℕ → List ℕ → List ℕ × List ℕ
copy_word zero s = ([], s)
copy_word (suc room) [] = ([], [])
copy_word (suc room) (c ∷ s) =
    let (word, rest) = copy_word room s in if c == b' ' then ([], c ∷ s) else (c ∷ word, rest)

-- From the value on.
pub value_at : List ℕ → Option (List ℕ)
unfolding copy_word
value_at [] = none
value_at (c ∷ s) =
    let (value, rest) = copy_word value_max (c ∷ s) in
    if leb value_max (length value) then none else some value

-- From the '=' on.
pub equals_at : List ℕ → Option (List ℕ)
unfolding value_at skip_spaces
equals_at [] = none
equals_at (c ∷ s) = let value = value_at (skip_spaces s) in if c == b'=' then value else none

pub with_name : List ℕ → Option (List ℕ) → Option (List ℕ × List ℕ)
with_name name none = none
with_name name (some value) = some (name, value)

-- From the space behind the name on.
pub named : List ℕ → List ℕ → Option (List ℕ × List ℕ)
unfolding equals_at skip_spaces with_name
named name [] = none
named name (c ∷ s) =
    if leb name_max (length name) then none else with_name name (equals_at (skip_spaces (c ∷ s)))

-- `config_name` and `config_value` of a line, or the return of -1.
unfoldable pub name_and_value : List ℕ → Option (List ℕ × List ℕ)
unfolding strip copy_word named
name_and_value line = let (name, rest) = copy_word name_max (strip line) in named name rest

-- The names of the settings.
abbrev pub store_path_name : List ℕ
store_path_name = b's' ∷ b't' ∷ b'o' ∷ b'r' ∷ b'e' ∷ b'_' ∷ b'p' ∷ b'a' ∷ b't' ∷ b'h' ∷ []

abbrev pub block_size_name : List ℕ
block_size_name = b'b' ∷ b'l' ∷ b'o' ∷ b'c' ∷ b'k' ∷ b'_' ∷ b's' ∷ b'i' ∷ b'z' ∷ b'e' ∷ []

abbrev pub update_threshold_name : List ℕ
update_threshold_name =
    b'u' ∷ b'p' ∷ b'd' ∷ b'a' ∷ b't' ∷ b'e' ∷ b'_' ∷ b't' ∷ b'h' ∷ b'r' ∷ b'e' ∷ b's' ∷ b'h' ∷ b'o'
    ∷ b'l' ∷ b'd' ∷ []

abbrev pub log_dir_name : List ℕ
log_dir_name = b'l' ∷ b'o' ∷ b'g' ∷ b'_' ∷ b'd' ∷ b'i' ∷ b'r' ∷ []

-- `strncpy` of DIR_PATH_MAX_LEN chars to an array that begins at `at` in `paths`. At `store_path`
-- it goes on into `log_dir`.
pub put_path : ServerConfig → ℕ → List ℕ → Result ServerConfig
put_path ssc at value = write_bytes ssc.paths at (strncpy_bytes dir_path_max value) >>= λ paths.
    ok (record ssc { paths = paths })

pub set_server : ServerConfig → List ℕ → List ℕ → Result ServerConfig
unfolding put_path atoi
set_server ssc name value =
    let store = put_path ssc 0 value in
    let block = atoi value >>= λ n. ok (record ssc { block_size = n }) in
    let update = atoi value >>= λ n. ok (record ssc { update_th = n }) in
    let log = put_path ssc file_name_max value in
    if same_bytes name store_path_name
    then store
    else if same_bytes name block_size_name
    then block
    else if same_bytes name update_threshold_name
    then update
    else if same_bytes name log_dir_name
    then log
    else ok ssc

pub set_client : ClientConfig → List ℕ → List ℕ → Result ClientConfig
unfolding atoi
set_client scc name value =
    let block = atoi value >>= λ n. ok (record scc { block_size = n }) in
    let log = write_bytes scc.log_dir 0 (strncpy_bytes dir_path_max value) >>= λ log_dir.
    ok (record scc { log_dir = log_dir }) in
    if same_bytes name block_size_name
    then block
    else if same_bytes name log_dir_name
    then log
    else ok scc

-- What both functions make of a line with a name and a value, and of a line without.
module _ {C : Type 0} (set_config : C → List ℕ → List ℕ → Result C) where
  pub deal_with : C → Option (List ℕ × List ℕ) → Result (ℤ × C)
  deal_with config none = ok (negsuc 0, config)
  deal_with config (some (name, value)) = set_config config name value >>= λ c. ok (pos 0, c)

unfoldable pub deal_server_config_line : List ℕ → ServerConfig → Result (ℤ × ServerConfig)
unfolding set_server name_and_value deal_with
deal_server_config_line line ssc = deal_with set_server ssc (name_and_value line)

unfoldable pub deal_client_config_line : List ℕ → ClientConfig → Result (ℤ × ClientConfig)
unfolding set_client name_and_value deal_with
deal_client_config_line line scc = deal_with set_client scc (name_and_value line)
