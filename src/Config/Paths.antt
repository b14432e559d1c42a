-- ===== src/Config/Paths.antt =====
-- What the settings of the two paths of a server leave in the struct.
use sftt.Base.{
  ℕ, zero, suc, ◌+◌, ◌<◌, ◌≤◌, ◌≡◌, refl, false, List, [], ◌∷◌, ◌++◌, length, length-append, take,
  drop, drop_all, append-nil, ◌>>=◌, arith, ap, ◌∙◌, sym, ◌==◌, All, Result, ok,
}
use sftt.Base.Int.{ℤ}
use sftt.Bytes.{Buffer, write_bytes}
use sftt.Bytes.Laws.{write_bytes-append}
use sftt.Config.{
  ServerConfig, c_string, strncpy_bytes, store_path_of, log_dir_of, put_path, set_server,
  store_path_name, log_dir_name,
}

abbrev pub NonNul : ℕ → Type 0
NonNul c = (c == 0) ≡ false

length-strncpy_bytes : (n : ℕ) (s : List ℕ) → length (strncpy_bytes n s) ≡ n
length-strncpy_bytes zero s = refl
length-strncpy_bytes (suc n) [] = ap suc (length-strncpy_bytes n [])
length-strncpy_bytes (suc n) (c ∷ s) = ap suc (length-strncpy_bytes n s)

c_string-strncpy_bytes :
    (n : ℕ) (s r : List ℕ) → length s < n → All NonNul s → c_string (strncpy_bytes n s ++ r) ≡ s
c_string-strncpy_bytes zero s r lt h = absurd (omega arith)
c_string-strncpy_bytes (suc n) [] r lt h = refl
c_string-strncpy_bytes (suc n) (c ∷ s) r lt (h, hs) =
    rw (h, c_string-strncpy_bytes n s r (omega arith) hs) refl

-- The first `n` of the chars that are stored, and those behind them.
take-strncpy_bytes :
    (n m : ℕ) (s r : List ℕ) → take n (strncpy_bytes (n + m) s ++ r) ≡ strncpy_bytes n s ++ []
take-strncpy_bytes zero m s r = refl
take-strncpy_bytes (suc n) m [] r =
    let e : suc n + m ≡ suc (n + m) = omega arith in
    rw e (ap (λ t. 0 ∷ t) (take-strncpy_bytes n m [] r))
take-strncpy_bytes (suc n) m (c ∷ s) r =
    let e : suc n + m ≡ suc (n + m) = omega arith in
    rw e (ap (λ t. c ∷ t) (take-strncpy_bytes n m s r))

drop-strncpy_bytes :
    (n m : ℕ) (s r : List ℕ)
    → length s ≤ n
    → drop n (strncpy_bytes (n + m) s ++ r) ≡ strncpy_bytes m [] ++ r
drop-strncpy_bytes zero m [] r le = let e : 0 + m ≡ m = omega arith in rw e refl
drop-strncpy_bytes zero m (c ∷ s) r le = absurd (omega arith)
drop-strncpy_bytes (suc n) m [] r le =
    let e : suc n + m ≡ suc (n + m) = omega arith in
    rw e (drop-strncpy_bytes n m [] r (omega arith))
drop-strncpy_bytes (suc n) m (c ∷ s) r le =
    let e : suc n + m ≡ suc (n + m) = omega arith in rw e (drop-strncpy_bytes n m s r (omega arith))

take-append : (p q : Buffer) → take (length p) (p ++ q) ≡ p
take-append [] q = refl
take-append (x ∷ p) q = ap (λ t. x ∷ t) (take-append p q)

drop-append : (p q : Buffer) → drop (length p) (p ++ q) ≡ q
drop-append [] q = refl
drop-append (x ∷ p) q = drop-append p q

c_string-strncpy_bytes_end :
    (n : ℕ) (s : List ℕ) → length s < n → All NonNul s → c_string (strncpy_bytes n s) ≡ s
c_string-strncpy_bytes_end n s lt h =
    ap c_string (sym (append-nil (strncpy_bytes n s))) ∙ c_string-strncpy_bytes n s [] lt h

-- A write behind `p` that fills the rest of the buffer.
write_behind :
    (n : ℕ) (p q : Buffer) (s : List ℕ)
    → length q ≡ n
    → write_bytes (p ++ q) (length p) (strncpy_bytes n s) ≡ ok (p ++ strncpy_bytes n s)
write_behind n p q s size =
    let l = length-strncpy_bytes n s in
    write_bytes-append (strncpy_bytes n s) p q (omega arith)
    ∙ ap (λ t. ok (p ++ (strncpy_bytes n s ++ t)))
        (drop_all (length (strncpy_bytes n s)) q (omega arith))
    ∙ ap (λ t. ok (p ++ t)) (append-nil (strncpy_bytes n s))

-- What the two calls of `strncpy` leave, where `n` chars are stored, and the first array has `k`.
record Stored (k : ℕ) (paths store log : Buffer) : Type 0 where
  pub first : c_string (take k paths) ≡ store
  pub second : c_string (drop k paths) ≡ log

Stored-behind :
    (n k : ℕ) (p : Buffer) (s : List ℕ)
    → length p ≡ k
    → length s < n
    → All NonNul s
    → Stored k (p ++ strncpy_bytes n s) (c_string p) s
Stored-behind n k p s size lt h = record {
  first =
      ap (λ i. c_string (take i (p ++ strncpy_bytes n s))) (sym size)
      ∙ ap c_string (take-append p (strncpy_bytes n s));
  second =
      ap (λ i. c_string (drop i (p ++ strncpy_bytes n s))) (sym size)
      ∙ ap c_string (drop-append p (strncpy_bytes n s))
      ∙ c_string-strncpy_bytes_end n s lt h;
}

Stored-front :
    (k m : ℕ) (s r : List ℕ)
    → length s < k
    → All NonNul s
    → Stored k (strncpy_bytes (k + suc m) s ++ r) s []
Stored-front k m s r lt h = record {
  first = ap c_string (take-strncpy_bytes k (suc m) s r) ∙ c_string-strncpy_bytes k s [] lt h;
  second = ap c_string (drop-strncpy_bytes k (suc m) s r (omega arith));
}

-- The struct by its parts: the arrays `store_path` and `log_dir`, and the two numbers.
abbrev pub parts : Buffer → Buffer → ℤ → ℤ → ServerConfig
parts store log block update = record {
  paths = store ++ log;
  block_size = block;
  update_th = update;
}

-- What a setting leaves of the two strings.
abbrev pub Leaves : Result ServerConfig → List ℕ → List ℕ → Type 0
Leaves run store log =
    (ssc : ServerConfig) × (run ≡ ok ssc) × (store_path_of ssc ≡ store) × (log_dir_of ssc ≡ log)

module _ (store log : Buffer) (store_size : length store ≡ 256) (log_size : length log ≡ 1024)
    (block update : ℤ) (value : List ℕ) (fits : length value < 256) (chars : All NonNul value) where
  abbrev stored : Buffer → ServerConfig
  stored paths = record { paths = paths; block_size = block; update_th = update }

  put_log : Leaves (put_path (parts store log block update) 256 value) (c_string store) value
  unfolding put_path
  put_log =
      let e =
        ap (λ i. write_bytes (store ++ log) i (strncpy_bytes 1024 value)) (sym store_size)
        ∙ write_behind 1024 store log value log_size in
      let left = Stored-behind 1024 256 store value store_size (omega arith) chars in
      (
        stored (store ++ strncpy_bytes 1024 value),
        ap (λ m. m >>= λ paths. ok (stored paths)) e,
        left.first,
        left.second,
      )

  put_store : Leaves (put_path (parts store log block update) 0 value) value []
  unfolding put_path
  put_store =
      let copied = strncpy_bytes 1024 value in
      let rest = drop (length copied) (store ++ log) in
      let l = length-strncpy_bytes 1024 value in
      let whole = length-append store log in
      let e : write_bytes (store ++ log) 0 copied ≡ ok (copied ++ rest) =
        write_bytes-append copied [] (store ++ log) (omega arith) in
      let left = Stored-front 256 767 value rest fits chars in
      (
        stored (copied ++ rest),
        ap (λ m. m >>= λ paths. ok (stored paths)) e,
        left.first,
        left.second,
      )

  -- A setting of `log_dir` is stored and leaves `store_path` alone; a setting of `store_path` is
  -- stored and leaves `log_dir` empty, whatever it was. The value is shorter than FILE_NAME_MAX_LEN
  -- and has no NUL, and the arrays have their sizes.
  pub set_server-Leaves :
      Leaves (set_server (parts store log block update) log_dir_name value) (c_string store) value
      × Leaves (set_server (parts store log block update) store_path_name value) value []
  unfolding set_server
  set_server-Leaves = (put_log, put_store)
