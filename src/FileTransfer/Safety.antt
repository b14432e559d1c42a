-- ===== src/FileTransfer/Safety.antt =====
-- What the receiver has once it reports success (src/file_recv.c).
use sftt.Base.{
  some_inj, none_not, ℕ, ◌%◌, ◌^◌, ◌<◌, length-append, arith, ◌≡◌, refl, Bool, true, false, ◌&&◌,
  ◌||◌, some, List, [], ◌∷◌, ◌++◌, append_assoc, length, take, drop, take-drop, ltb, ◌==◌, ==→eq,
  if◌then◌else◌, Bool-cases, inl, inr, ap, ◌∙◌, sym, subst,
}
use sftt.Base.Int.{slt32}
use sftt.Base.Same.{same_bytes, same_bytes-eq}
use sftt.FileTransfer.{
  Status, resp_ok, resp_continue, resp_internal_err, PutReq, Entry, absent, dir, file, Source,
  Sender, naming, awaiting_name, sending_md5, awaiting_md5, sending, awaiting_block, sent,
  awaiting_req, awaiting_digest, receiving, received, Transfer, Setting, sender_at, request,
  next_block, send_file_by_put_req, recv_file_from_put_req, same_file, on_reply, recv_dir,
  recv_name, recv_digest, take_reply, send_block, recv_block,
}
use sftt.FileTransfer.Reachable.{conf, sends, receives, IsReachable, started, turned}
use sftt.FileTransfer.Config.{
  contents, contents-snoc, full_prefix, and_left, done_inj, RestOf, at_block, at_reply, at_end,
  Arrived, ArrivedIf, Config, at_start, named, answered, created, digest_sent, asked, in_blocks,
  over,
}

module _ (env : Setting) (src : Source) where
  kept :
      (t u v : Transfer)
      → some v ≡ some u
      → (v.receiver ≡ t.receiver) × (v.disk ≡ t.disk)
      → (u.receiver ≡ t.receiver) × (u.disk ≡ t.disk)
  kept t u v e k = subst (λ w. (w.receiver ≡ t.receiver) × (w.disk ≡ t.disk)) (some_inj e) k

  take_reply_keeps :
      (t u : Transfer) (rs : List Status)
      → take_reply env src t rs ≡ some u
      → (u.receiver ≡ t.receiver) × (u.disk ≡ t.disk)
  take_reply_keeps t u [] e = absurd (none_not e)
  take_reply_keeps t u (r ∷ rs) e = kept t u _ e (refl, refl)

  to : (u v : Transfer) → some v ≡ some u → Config env src v → Config env src u
  to u v e c = subst (Config env src) (some_inj e) c

  RestOf-next : (rest : List ℕ) (eof : Bool) → RestOf (next_block env src rest eof) rest
  RestOf-next rest true = at_end true rest
  RestOf-next rest false = at_block rest

  RestOf-reply :
      (rest : List ℕ) (eof reply : Bool)
      → RestOf (if reply then awaiting_block rest eof else next_block env src rest eof) rest
  RestOf-reply rest eof true = at_reply rest eof
  RestOf-reply rest eof false = RestOf-next rest eof

  on_reply-RestOf :
      (rest : List ℕ) (eof : Bool) (r : Status)
      → RestOf (on_reply env src (awaiting_block rest eof) r) rest
  on_reply-RestOf rest eof resp_ok = RestOf-next rest eof
  on_reply-RestOf rest eof resp_continue = at_end eof rest
  on_reply-RestOf rest eof resp_internal_err = at_end eof rest

  sender_at_keeps :
      (s : Sender) (t u : Transfer)
      → sender_at env src s t ≡ some u
      → (u.receiver ≡ t.receiver) × (u.disk ≡ t.disk)
  sender_at_keeps naming t u e = kept t u _ e (refl, refl)
  sender_at_keeps awaiting_name t u e = take_reply_keeps t u t.replies e
  sender_at_keeps sending_md5 t u e = kept t u _ e (refl, refl)
  sender_at_keeps awaiting_md5 t u e = take_reply_keeps t u t.replies e
  sender_at_keeps (sending rest) t u e = kept t u _ e (refl, refl)
  sender_at_keeps (awaiting_block rest eof) t u e = take_reply_keeps t u t.replies e
  sender_at_keeps (sent b) t u e = absurd (none_not e)

  over_of :
      (u : Transfer) (b : Bool)
      → u.receiver ≡ received b
      → ArrivedIf env src b u.disk
      → Config env src u
  over_of u b e a =
      subst (λ r. Config env src (conf u.sender u.requests u.replies r u.disk)) (sym e)
        (over u.sender u.requests u.replies b u.disk a)

  sends_block :
      (q : List PutReq) (rs : List Status) (w rest : List ℕ)
      → w ++ (contents q ++ rest) ≡ src.content
      → Config env src (
          send_block env src rest (
            conf
              (sending rest)
              q
              rs
              (receiving (env.md5 src.content) (length src.content) w)
              (file w)))
  sends_block q rs w rest eq =
      let eof = ltb (length rest) env.block in
      let reply = env.per_block || (src.is_last && eof) in
      let left = drop env.block rest in
      let r = request env src (take env.block rest) reply in
      in_blocks (if reply then awaiting_block left eof else next_block env src left eof)
        (q ++ r ∷ []) rs w left (RestOf-reply left eof reply)
        (ap (λ xs. w ++ (xs ++ left)) (contents-snoc q r)
          ∙ ap (λ xs. w ++ xs) (append_assoc (contents q) (take env.block rest) left)
          ∙ ap (λ xs. w ++ (contents q ++ xs)) (take-drop env.block rest)
          ∙ eq)

  sends-Config :
      (t u : Transfer)
      → src.is_dir ≡ false
      → Config env src t
      → send_file_by_put_req env src t ≡ some u
      → Config env src u
  sends-Config t u plain (at_start d) e = to u _ e (named d)
  sends-Config t u plain (named d) e = absurd (none_not e)
  sends-Config t u plain (answered d) e =
      to u (conf (if src.is_dir then sent true else sending_md5) [] [] awaiting_digest d) e
        (rw plain (created d))
  sends-Config t u plain (created d) e = to u _ e (digest_sent d)
  sends-Config t u plain (digest_sent d) e = absurd (none_not e)
  sends-Config t u plain asked e =
      to u _ e (in_blocks (sending src.content) [] [] [] src.content (at_block src.content) refl)
  sends-Config t u plain (in_blocks s q rs w rest (at_block left) eq) e =
      to u _ e (sends_block q rs w rest eq)
  sends-Config t u plain (in_blocks s q [] w rest (at_reply left eof) eq) e = absurd (none_not e)
  sends-Config t u plain (in_blocks s q (r ∷ rs) w rest (at_reply left eof) eq) e = to u _ e (
      in_blocks (on_reply env src (awaiting_block rest eof) r) q rs w rest
        (on_reply-RestOf rest eof r) eq)
  sends-Config t u plain (in_blocks s q rs w rest (at_end b left) eq) e = absurd (none_not e)
  sends-Config t u plain (over s q rs b d a) e =
      let (er, ed) = sender_at_keeps s t u e in
      over_of u b er (subst (λ d'. ArrivedIf env src b d') (sym ed) a)

  closes :
      length src.content < 2 ^ 32
      → (q : List PutReq) (written rest : List ℕ) (b : Bool)
      → written ++ (contents q ++ rest) ≡ src.content
      → ((length written % 2 ^ 32 == length src.content % 2 ^ 32)
          && same_file env (file written) (env.md5 src.content))
        ≡ b
      → ArrivedIf env src b (file written)
  closes small q written rest true eq h =
      let same = ==→eq (length written % 2 ^ 32) (length src.content % 2 ^ 32) (
        and_left (length written % 2 ^ 32 == length src.content % 2 ^ 32)
          (same_file env (file written) (env.md5 src.content)) h) in
      let parts = length-append written (contents q ++ rest) in
      let full : length written ≡ length src.content =
        omega (arith, small, same, parts, ap (length {A = ℕ}) eq) in
      inl (full_prefix written (contents q ++ rest) src.content eq full)
  closes small q written rest false eq h = tt

  receives_block :
      length src.content < 2 ^ 32
      → (s : Sender) (r : PutReq) (q : List PutReq) (rs : List Status) (w rest : List ℕ)
      → RestOf s rest
      → w ++ (contents (r ∷ q) ++ rest) ≡ src.content
      → Config env src (
          recv_block env
            (conf s q rs (receiving (env.md5 src.content) (length src.content) w) (file w))
            r
            (env.md5 src.content)
            (length src.content)
            w)
  receives_block small s r q rs w rest at eq =
      let now = w ++ r.content in
      let n = length src.content in
      let m = env.md5 src.content in
      let rs' = if r.need_reply then rs ++ resp_ok ∷ [] else rs in
      let eq' : now ++ (contents q ++ rest) ≡ src.content =
        append_assoc w r.content (contents q ++ rest)
        ∙ ap (λ xs. w ++ xs) (sym (append_assoc r.content (contents q) rest))
        ∙ eq in
      elim (Bool-cases (slt32 (length now % 2 ^ 32) (n % 2 ^ 32))) [
        | inl more ↦
            subst
              (λ b. Config env src (
                conf s q rs'
                  (if b
                    then receiving m n now
                    else received
                        ((length now % 2 ^ 32 == n % 2 ^ 32) && same_file env (file now) m))
                  (file now)))
              (sym more) (in_blocks s q rs' now rest at eq')
        | inr enough ↦
            let b = (length now % 2 ^ 32 == n % 2 ^ 32) && same_file env (file now) m in
            subst
              (λ c.
                Config env src
                  (conf s q rs' (if c then receiving m n now else received b) (file now)))
              (sym enough) (over s q rs' b (file now) (closes small q now rest b eq' refl))
      ]

  receives_name :
      (d : Entry) → Config env src (recv_name env (conf awaiting_name [] [] awaiting_req d))
  receives_name absent = elim (Bool-cases env.can_create) [
    | inl can ↦ rw can (answered (file []))
    | inr cannot ↦ rw cannot (over awaiting_name [] (resp_internal_err ∷ []) false absent tt)
  ]
  receives_name dir = answered dir
  receives_name (file bytes) = answered (file bytes)

  receives_digest :
      (d : Entry)
      → Config env src (
          recv_digest env
            (conf awaiting_md5 [] [] awaiting_digest d)
            (request env src (env.md5 src.content) true))
  receives_digest absent = asked
  receives_digest dir = elim (Bool-cases (same_bytes (env.md5 []) (env.md5 src.content))) [
    | inl same ↦ rw same (
        over awaiting_md5 [] (resp_ok ∷ []) true dir
          (same_bytes-eq (env.md5 []) (env.md5 src.content) same))
    | inr other ↦ rw other (over awaiting_md5 [] (resp_continue ∷ []) false dir tt)
  ]
  receives_digest (file bytes) =
      elim (Bool-cases (same_bytes (env.md5 bytes) (env.md5 src.content))) [
        | inl same ↦ rw same (
            over awaiting_md5 [] (resp_ok ∷ []) true (file bytes)
              (inr (same_bytes-eq (env.md5 bytes) (env.md5 src.content) same)))
        | inr other ↦ rw other asked
      ]

  receives-Config :
      (t u : Transfer)
      → length src.content < 2 ^ 32
      → src.is_dir ≡ false
      → Config env src t
      → recv_file_from_put_req env t ≡ some u
      → Config env src u
  receives-Config t u small plain (at_start d) e = absurd (none_not e)
  receives-Config t u small plain (named d) e =
      let t0 = conf awaiting_name [] [] awaiting_req d in
      to u (if src.is_dir then recv_dir env t0 else recv_name env t0) e (
        subst (λ b. Config env src (if b then recv_dir env t0 else recv_name env t0)) (sym plain)
          (receives_name d))
  receives-Config t u small plain (answered d) e = absurd (none_not e)
  receives-Config t u small plain (created d) e = absurd (none_not e)
  receives-Config t u small plain (digest_sent d) e = to u _ e (receives_digest d)
  receives-Config t u small plain asked e = absurd (none_not e)
  receives-Config t u small plain (in_blocks s [] rs w rest at eq) e = absurd (none_not e)
  receives-Config t u small plain (in_blocks s (r ∷ q) rs w rest at eq) e =
      to u _ e (receives_block small s r q rs w rest at eq)
  receives-Config t u small plain (over s q rs b d a) e = absurd (none_not e)

  reachable-Config :
      (d : Entry) (t : Transfer)
      → length src.content < 2 ^ 32
      → src.is_dir ≡ false
      → IsReachable env src d t
      → Config env src t
  reachable-Config d u small plain started = at_start d
  reachable-Config d v small plain (turned t u r (sends e)) =
      sends-Config t u plain (reachable-Config d t small plain r) e
  reachable-Config d v small plain (turned t u r (receives e)) =
      receives-Config t u small plain (reachable-Config d t small plain r) e

  Config-Arrived :
      (t : Transfer) → Config env src t → t.receiver ≡ received true → Arrived env src t.disk
  Config-Arrived t (at_start d) e = let bad : ⊥ = cc in absurd bad
  Config-Arrived t (named d) e = let bad : ⊥ = cc in absurd bad
  Config-Arrived t (answered d) e = let bad : ⊥ = cc in absurd bad
  Config-Arrived t (created d) e = let bad : ⊥ = cc in absurd bad
  Config-Arrived t (digest_sent d) e = let bad : ⊥ = cc in absurd bad
  Config-Arrived t asked e = let bad : ⊥ = cc in absurd bad
  Config-Arrived t (in_blocks s q rs w rest at eq) e = let bad : ⊥ = cc in absurd bad
  Config-Arrived t (over s q rs b d a) e = subst (λ c. ArrivedIf env src c d) (done_inj b e) a

-- For a path that is a file of less than 2 ^ 32 bytes, with anything on the receiver's disk before,
-- in any order of the turns of the two programs: once `recv_file_from_put_req` returns something
-- other than -1, the disk has under the path a file with exactly the bytes of the sender's, or one
-- whose digest is the same, or, where the digest is that of no bytes, a directory.
pub received-Arrived :
    (env : Setting) (src : Source) (d : Entry) (t : Transfer)
    → length src.content < 2 ^ 32
    → src.is_dir ≡ false
    → IsReachable env src d t
    → t.receiver ≡ received true
    → Arrived env src t.disk
received-Arrived env src d t small plain r e =
    Config-Arrived env src t (reachable-Config env src d t small plain r) e
