-- ===== src/Config/Files.antt =====
-- src/config.c: the search for a configuration file, and the loop over its lines. `existed` is
-- `access` with F_OK, and `opened` what `fopen` and the reads give of a path.
pub mod Applied
use sftt.Base.{
  ℕ, zero, suc, ◌+◌, ◌-◌, Bool, true, false, Option, none, some, List, [], ◌∷◌, ◌++◌, length, take,
  ◌==◌, if◌then◌else◌, Result, ok, out_of_fuel, ◌>>=◌,
}
use sftt.Base.Int.{ℤ, pos, negsuc}
use sftt.Config.{
  ServerConfig, ClientConfig, c_string, deal_server_config_line, deal_client_config_line, line_max,
}

-- "/etc/sftt", "./config", "." and "/root/sftt/config"
abbrev pub config_search_pathes : List (List ℕ)
config_search_pathes =
    (b'/' ∷ b'e' ∷ b't' ∷ b'c' ∷ b'/' ∷ b's' ∷ b'f' ∷ b't' ∷ b't' ∷ [])
    ∷ (b'.' ∷ b'/' ∷ b'c' ∷ b'o' ∷ b'n' ∷ b'f' ∷ b'i' ∷ b'g' ∷ [])
    ∷ (b'.' ∷ [])
    ∷ (b'/' ∷ b'r' ∷ b'o' ∷ b'o' ∷ b't' ∷ b'/' ∷ b's' ∷ b'f' ∷ b't' ∷ b't' ∷ b'/' ∷ b'c' ∷ b'o'
        ∷ b'n' ∷ b'f' ∷ b'i' ∷ b'g' ∷ [])
    ∷ []

-- `snprintf` with a size of 255 keeps 254 chars.
pub search_from : (List ℕ → Bool) → List (List ℕ) → List ℕ → Option (List ℕ)
search_from existed [] fname = none
search_from existed (dir ∷ dirs) fname =
    let tmp = take 254 (dir ++ b'/' ∷ fname) in
    let rest = search_from existed dirs fname in if existed tmp then some tmp else rest

-- The copy of the path is allocated.
unfoldable pub search_config : (List ℕ → Bool) → List ℕ → Option (List ℕ)
unfolding search_from
search_config existed fname = search_from existed config_search_pathes fname

-- `fgets` into an array of `n + 1` chars, and what is left of the file.
pub fgets : ℕ → List ℕ → List ℕ × List ℕ
fgets zero s = ([], s)
fgets (suc n) [] = ([], [])
fgets (suc n) (c ∷ s) =
    let (line, rest) = fgets n s in if c == b'\n' then (c ∷ [], s) else (c ∷ line, rest)

-- A newline at the end is taken off.
pub cut_newline : List ℕ → List ℕ
cut_newline [] = []
cut_newline (c ∷ []) = if c == b'\n' then [] else c ∷ []
cut_newline (c ∷ d ∷ s) = c ∷ cut_newline (d ∷ s)

module _ {C : Type 0} (deal_line : List ℕ → C → Result (ℤ × C)) where
  -- The line that is read, and whether the loop goes on.
  pub on_line : List ℕ → C → Result (Bool × C)
  unfolding cut_newline
  on_line [] config = ok (false, config)
  on_line (c ∷ s) config =
      let dealt = deal_line (cut_newline (c ∷ s)) config >>= λ (ret, config). ok (true, config) in
      if c == b'#' then ok (true, config) else dealt

  -- `feof` holds once a read has met the end, and a read that meets it at once gives no line.
  pub config_lines : ℕ → List ℕ → C → Result C
  unfolding on_line fgets
  config_lines zero file config = out_of_fuel
  config_lines (suc fuel) [] config = ok config
  config_lines (suc fuel) (c ∷ file) config =
      let (line, rest) = fgets (line_max - 1) (c ∷ file) in
      on_line (c_string line) config >>= λ (more, config).
      let later = config_lines fuel rest config in if more then later else ok config

  pub read_file : Option (List ℕ) → C → Result (ℤ × C)
  unfolding config_lines
  read_file none config = ok (negsuc 0, config)
  read_file (some file) config =
      config_lines (suc (length file)) file config >>= λ config. ok (pos 0, config)

  -- What both functions do with the path that the search gives.
  pub read_config : (List ℕ → Option (List ℕ)) → Option (List ℕ) → C → Result (ℤ × C)
  unfolding read_file
  read_config opened none config = ok (negsuc 0, config)
  read_config opened (some path) config = read_file (opened path) config

-- "sftt_server.conf" and "sftt_client.conf"
abbrev pub server_conf : List ℕ
server_conf =
    b's' ∷ b'f' ∷ b't' ∷ b't' ∷ b'_' ∷ b's' ∷ b'e' ∷ b'r' ∷ b'v' ∷ b'e' ∷ b'r' ∷ b'.' ∷ b'c' ∷ b'o'
    ∷ b'n' ∷ b'f' ∷ []

abbrev pub client_conf : List ℕ
client_conf =
    b's' ∷ b'f' ∷ b't' ∷ b't' ∷ b'_' ∷ b'c' ∷ b'l' ∷ b'i' ∷ b'e' ∷ b'n' ∷ b't' ∷ b'.' ∷ b'c' ∷ b'o'
    ∷ b'n' ∷ b'f' ∷ []

module _ (existed : List ℕ → Bool) (opened : List ℕ → Option (List ℕ)) where
  unfoldable pub get_sftt_server_config : ServerConfig → Result (ℤ × ServerConfig)
  unfolding read_config search_config
  get_sftt_server_config ssc =
      read_config deal_server_config_line opened (search_config existed server_conf) ssc

  unfoldable pub get_sftt_client_config : ClientConfig → Result (ℤ × ClientConfig)
  unfolding read_config search_config
  get_sftt_client_config scc =
      read_config deal_client_config_line opened (search_config existed client_conf) scc
