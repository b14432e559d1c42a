-- ===== src/FileTransfer/Delivery.antt =====
-- How far the exchange of one file comes (src/file_send.c, src/file_recv.c).
use sftt.Base.{
  take_all, drop_all, length-drop, length-take, ℕ, zero, suc, ◌+◌, ◌*◌, ◌%◌, ◌^◌, ◌≤◌, sym, ltb→lt,
  Bool-cases, inl, inr, ◌<◌, ◌≡◌, refl, Bool, true, false, ◌&&◌, ◌||◌, none, some, List, [], ◌∷◌,
  ◌++◌, append_assoc, length, length-append, take, drop, take-drop, ltb, lt→ltb, le→ltb, eq_refl,
  if◌then◌else◌, ap, ◌∙◌, subst, arith,
}
use sftt.Base.Int.{slt32}
use sftt.Base.Same.{same_bytes, same_bytes_self}
use sftt.FileTransfer.{
  resp_ok, resp_continue, Entry, absent, file, Source, awaiting_name, sending_md5, awaiting_md5,
  sending, awaiting_block, sent, Receiver, awaiting_req, awaiting_digest, receiving, received,
  Transfer, Setting, request, next_block, send_file_by_put_req, recv_file_from_put_req,
  next_receiver,
}
use sftt.FileTransfer.Reachable.{conf, start, sends, receives, IsReachable, started, turned}

-- A turn that sends a block.
sends_as :
    (env : Setting) (src : Source) (rest : List ℕ) (R : Receiver) (d : Entry) (eof reply : Bool)
    → ltb (length rest) env.block ≡ eof
    → (env.per_block || (src.is_last && eof)) ≡ reply
    → send_file_by_put_req env src (conf (sending rest) [] [] R d)
      ≡ some (
          conf
            (if reply
              then awaiting_block (drop env.block rest) eof
              else next_block env src (drop env.block rest) eof)
            (request env src (take env.block rest) reply ∷ [])
            []
            R
            d)
sends_as env src rest R d eof reply e1 e2 = rw (e1, e2) refl

or_true : (b c : Bool) → c ≡ true → (b || (c && true)) ≡ true
or_true true c h = refl
or_true false c h = rw h refl

-- Behind the last full block the sender still has an empty one to send.
empty_block :
    (env : Setting) (src : Source) (R : Receiver) (d : Entry)
    → 0 < env.block
    → src.is_last ≡ true
    → send_file_by_put_req env src (conf (sending []) [] [] R d)
      ≡ some (conf (awaiting_block [] true) (request env src [] true ∷ []) [] R d)
empty_block env src R d pos last =
    sends_as env src [] R d true true (lt→ltb 0 env.block pos)
      (or_true env.per_block src.is_last last)
    ∙ ap
        (λ xs.
          some
            (conf (awaiting_block xs true) (request env src (take env.block []) true ∷ []) [] R d))
        (drop_all env.block [] (omega arith))
    ∙ ap (λ xs. some (conf (awaiting_block [] true) (request env src xs true ∷ []) [] R d))
        (take_all env.block [] (omega arith))

shifted : (a b : ℕ) → ltb (a + 2 ^ 31) (b + 2 ^ 31) ≡ ltb a b
shifted a b = elim (Bool-cases (ltb a b)) [
  | inl less ↦
      let lt = ltb→lt a b less in lt→ltb (a + 2 ^ 31) (b + 2 ^ 31) (omega (arith, lt)) ∙ sym less
  | inr other ↦
      let le : b ≤ a = ground arith in
      le→ltb (a + 2 ^ 31) (b + 2 ^ 31) (omega (arith, le)) ∙ sym other
]

-- Sizes below 2 ^ 31 compare as `int`s the way they do as numbers.
slt32-small : (a b : ℕ) → a < 2 ^ 31 → b < 2 ^ 31 → slt32 (a % 2 ^ 32) (b % 2 ^ 32) ≡ ltb a b
slt32-small a b la lb =
    let ea : (a % 2 ^ 32 + 2 ^ 31) % 2 ^ 32 ≡ a + 2 ^ 31 = omega (arith, la) in
    let eb : (b % 2 ^ 32 + 2 ^ 31) % 2 ^ 32 ≡ b + 2 ^ 31 = omega (arith, lb) in
    rw (ea, eb) (shifted a b)

module _ (env : Setting) (src : Source) (d : Entry) where
  abbrev total : ℕ
  total = length src.content

  abbrev digest : List ℕ
  digest = env.md5 src.content

  -- The sender has `rest` to read, the receiver has written `w`, and no packet is on its way.
  abbrev Between : List ℕ → List ℕ → Type 0
  Between rest w =
      IsReachable env src d (conf (sending rest) [] [] (receiving digest total w) (file w))

  -- One block goes over, and its answer comes back if there is one.
  exchange_as :
      (rest w : List ℕ) (eof reply : Bool)
      → ltb (length rest) env.block ≡ eof
      → (env.per_block || (src.is_last && eof)) ≡ reply
      → Between rest w
      → IsReachable env src d (
          conf
            (if reply
              then awaiting_block (drop env.block rest) eof
              else next_block env src (drop env.block rest) eof)
            (request env src (take env.block rest) reply ∷ [])
            []
            (receiving digest total w)
            (file w))
  exchange_as rest w eof reply e1 e2 r =
      turned _ _ r
        (sends (sends_as env src rest (receiving digest total w) (file w) eof reply e1 e2))

  exchange :
      (rest w : List ℕ) (eof reply : Bool)
      → ltb (length rest) env.block ≡ eof
      → (env.per_block || (src.is_last && eof)) ≡ reply
      → Between rest w
      → IsReachable env src d (
          conf
            (next_block env src (drop env.block rest) eof)
            []
            []
            (next_receiver env digest total (w ++ take env.block rest))
            (file (w ++ take env.block rest)))
  exchange rest w eof true e1 e2 r =
      turned _ _ (turned _ _ (exchange_as rest w eof true e1 e2 r) (receives refl)) (sends refl)
  exchange rest w eof false e1 e2 r =
      turned _ _ (exchange_as rest w eof false e1 e2 r) (receives refl)

  -- A full block with more bytes behind it.
  more :
      total < 2 ^ 31
      → (rest w : List ℕ) → w ++ rest ≡ src.content
      → env.block < length rest
      → Between rest w
      → Between (drop env.block rest) (w ++ take env.block rest)
  more small rest w eq lt r =
      let now = w ++ take env.block rest in
      let left = drop env.block rest in
      let e1 : ltb (length rest) env.block ≡ false =
        le→ltb (length rest) env.block (omega (arith, lt)) in
      let lt' : length now < total = omega (
        arith,
        lt,
        ap (length {A = ℕ}) eq,
        length-append w rest,
        length-append w (take env.block rest),
        length-take env.block rest (omega (arith, lt)),
      ) in
      let short : slt32 (length now % 2 ^ 32) (total % 2 ^ 32) ≡ true =
        slt32-small (length now) total (omega (arith, small, lt')) small
        ∙ lt→ltb (length now) total lt' in
      let go : next_receiver env digest total now ≡ receiving digest total now = rw short refl in
      subst (λ R. IsReachable env src d (conf (sending left) [] [] R (file now))) go
        (exchange rest w false (env.per_block || (src.is_last && false)) e1 refl r)

  reach_last :
      total < 2 ^ 31
      → (k last : ℕ) (rest w : List ℕ) → w ++ rest ≡ src.content
      → length rest ≡ k * env.block + last
      → 0 < last
      → Between rest w
      → (rest' : List ℕ) × (w' : List ℕ) × (w' ++ rest' ≡ src.content)
        × (length rest' ≡ last)
        × Between rest' w'
  reach_last small zero last rest w eq n pos r = (rest, w, eq, omega (arith, n), r)
  reach_last small (suc k) last rest w eq n pos r =
      let n' : length rest ≡ env.block + (k * env.block + last) = omega (arith, n) in
      reach_last small k last (drop env.block rest) (w ++ take env.block rest)
        (append_assoc w (take env.block rest) (drop env.block rest)
          ∙ ap (λ xs. w ++ xs) (take-drop env.block rest)
          ∙ eq)
        (omega (arith, length-drop env.block rest, n')) pos
        (more small rest w eq (omega (arith, n', pos)) r)

  -- What the tests behind the receiver's loop say of the whole file.
  whole : total < 2 ^ 31 → next_receiver env digest total src.content ≡ received true
  whole small =
      let not_more : slt32 (total % 2 ^ 32) (total % 2 ^ 32) ≡ false =
        slt32-small total total small small ∙ le→ltb total total (omega arith) in
      rw (not_more, eq_refl (total % 2 ^ 32), same_bytes_self digest) refl

-- The packets before the first block, to a receiver that has nothing under the path.
begin :
    (env : Setting) (src : Source)
    → src.is_dir ≡ false
    → env.can_create ≡ true
    → same_bytes (env.md5 []) (env.md5 src.content) ≡ false
    → Between env src absent src.content []
begin env src plain can other =
    let t1 = conf awaiting_name (request env src src.name true ∷ []) [] awaiting_req absent in
    let t2 = conf awaiting_name [] (resp_ok ∷ []) awaiting_digest (file []) in
    let t3 = conf sending_md5 [] [] awaiting_digest (file []) in
    let t4 =
      conf awaiting_md5 (request env src (env.md5 src.content) true ∷ []) [] awaiting_digest
        (file []) in
    let t5 =
      conf awaiting_md5 [] (resp_continue ∷ [])
        (receiving (env.md5 src.content) (length src.content) []) (file []) in
    let r1 = turned (start absent) t1 started (sends refl) in
    let r2 = turned t1 t2 r1 (receives (rw (plain, can) refl)) in
    let r3 = turned t2 t3 r2 (sends (rw plain refl)) in
    let r4 = turned t3 t4 r3 (sends refl) in
    let r5 = turned t4 t5 r4 (receives (rw other refl)) in turned t5 _ r5 (sends refl)

-- A file of less than 2 ^ 31 bytes, whose size is not a multiple of the block size, sent to a receiver that has nothing under
-- the path, can create it, and finds another digest for an empty file: there are turns of the two
-- programs after which both have returned success, no packet is on its way, and the receiver's
-- disk has exactly the bytes of the file.
pub delivers :
    (env : Setting) (src : Source) (k r : ℕ)
    → length src.content < 2 ^ 31
    → src.is_dir ≡ false
    → env.can_create ≡ true
    → same_bytes (env.md5 []) (env.md5 src.content) ≡ false
    → length src.content ≡ k * env.block + r
    → 0 < r
    → r < env.block
    → IsReachable env src absent (conf (sent true) [] [] (received true) (file src.content))
delivers env src k r small plain can other n pos lt =
    let (rest, w, eq, m, at) =
      reach_last env src absent small k r src.content [] refl n pos
        (begin env src plain can other) in
    let e1 : ltb (length rest) env.block ≡ true =
      lt→ltb (length rest) env.block (omega (arith, m, lt)) in
    let done =
      exchange env src absent rest w true (env.per_block || (src.is_last && true)) e1 refl at in
    let all : w ++ take env.block rest ≡ src.content =
      ap (λ xs. w ++ xs) (take_all env.block rest (omega (arith, m, lt))) ∙ eq in
    subst (λ R. IsReachable env src absent (conf (sent true) [] [] R (file src.content)))
      (whole env src absent small)
      (subst
        (λ now. IsReachable env src absent (
          conf (sent true) [] [] (next_receiver env (env.md5 src.content) (length src.content) now)
            (file now)))
        all done)

-- The last file of a request, of a size below 2 ^ 31 that is a multiple of the block size and not 0, sent to a
-- receiver that has nothing under the path, can create it, and finds another digest for an empty
-- file: there are turns after which the receiver has returned success, the sender waits for the
-- answer to an empty block, and neither has a turn.
pub last_block-stuck :
    (env : Setting) (src : Source) (k : ℕ)
    → length src.content < 2 ^ 31
    → src.is_dir ≡ false
    → src.is_last ≡ true
    → env.can_create ≡ true
    → same_bytes (env.md5 []) (env.md5 src.content) ≡ false
    → length src.content ≡ k * env.block + env.block
    → 0 < env.block
    → (t : Transfer) × IsReachable env src absent t
      × (t.receiver ≡ received true)
      × (t.sender ≡ awaiting_block [] true)
      × (send_file_by_put_req env src t ≡ none)
      × (recv_file_from_put_req env t ≡ none)
last_block-stuck env src k small plain last can other n pos =
    let (rest, w, eq, m, at) =
      reach_last env src absent small k env.block src.content [] refl n pos
        (begin env src plain can other) in
    let e1 : ltb (length rest) env.block ≡ false =
      le→ltb (length rest) env.block (omega (arith, m)) in
    let done =
      exchange env src absent rest w false (env.per_block || (src.is_last && false)) e1 refl at in
    let all : w ++ take env.block rest ≡ src.content =
      ap (λ xs. w ++ xs) (take_all env.block rest (omega (arith, m))) ∙ eq in
    let none_left : drop env.block rest ≡ [] = drop_all env.block rest (omega (arith, m)) in
    let t1 = conf (sending []) [] [] (received true) (file src.content) in
    let r1 : IsReachable env src absent t1 =
      subst (λ R. IsReachable env src absent (conf (sending []) [] [] R (file src.content)))
        (whole env src absent small)
        (subst
          (λ now. IsReachable env src absent (
            conf (sending []) [] []
              (next_receiver env (env.md5 src.content) (length src.content) now) (file now)))
          all
          (subst
            (λ left. IsReachable env src absent (
              conf (sending left) [] []
                (next_receiver env (env.md5 src.content) (length src.content)
                  (w ++ take env.block rest))
                (file (w ++ take env.block rest))))
            none_left done)) in
    let t2 =
      conf (awaiting_block [] true) (request env src [] true ∷ []) [] (received true)
        (file src.content) in
    (
      t2,
      turned t1 t2 r1 (sends (empty_block env src (received true) (file src.content) pos last)),
      refl,
      refl,
      refl,
      refl,
    )
