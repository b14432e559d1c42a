-- ===== src/Server/Safety.antt =====
-- The table stays well formed in every run of the server, and who is found by a session id has been
-- let in.
use sftt.Base.{
  ℕ, ◌≡◌, ◌≢◌, refl, sym, ◌∙◌, inl, inr, Bool, true, false, Option, none, some, List, [], ◌∷◌, ◌++◌,
  set, get_elem?, Result, ok, fault, out_of_fuel, ◌>>=◌, if◌then◌else◌, Option-cases,
}
use sftt.Base.Int.{pos, negsuc}
use sftt.Utils.{simplify_path}
use sftt.Server.{
  ctrl, data_conn, task, User, Session, Place, at_main, at_task, client_connected, put_session,
  find_client_session_by_id, find_connect_by_id,
}
use sftt.Server.Requests.{
  Env, Request, validate_req, append_conn_req, reconnect_req, cd_req, other_req, ValidateReq,
  Verdict, refuses, admits, verdict, let_in, validate_user_info, go_to, handle_cd_req,
  append_conn_to, handle_append_conn_req, reconnect_at, reconnect_in, reconnect_to,
  handle_reconnect_req, task_conn_of,
}
use sftt.Server.Loop.{Server, Served, goes_on, ends, using_main, validated, serve, leave, after}
use sftt.Server.Verdict.{Sound, verdict-Sound}
use sftt.Server.Table.{
  Evidence, GoesOn, Others, WellFormed, WellFormed-set, WellFormed-keep, WellFormed-blank_at,
}

-- The id is in no session.
abbrev pub Fresh : List Session → List ℕ → Type 0
Fresh sessions id =
    (id ≢ []) × ((k : ℕ) (s : Session) → get_elem? sessions k ≡ some s → id ≢ s.session_id)

-- A session that is let in.
admitted :
    (P : ℕ → List ℕ → User → Type 0) (sessions : List Session) (i : ℕ) (v : Session)
    → WellFormed P sessions
    → client_connected v ≡ true
    → ((k : ℕ) (s : Session) → i ≢ k → get_elem? sessions k ≡ some s → v.session_id ≢ s.session_id)
    → P i v.session_id v.user
    → WellFormed P (set sessions i v)
admitted P sessions i v wf here fresh holds =
    WellFormed-set sessions i v wf
      (record {
        free = λ e. let bad : true ≡ false = sym here ∙ e in let no : ⊥ = cc in absurd no;
        member = λ some_id. holds;
      })
      (λ k s ne other some_id. fresh k s ne other)

module _ (Q : ℕ → List ℕ → User → Type 0) where
  abbrev pub Good : Result Server → Type 0
  Good (ok server) = WellFormed Q server.sessions
  Good fault = Unit
  Good out_of_fuel = Unit

  -- Behind a request of the client at `i`, which may be its last.
  abbrev pub GoodServed : ℕ → Result Served → Type 0
  GoodServed i (ok (goes_on sessions)) = WellFormed Q sessions
  GoodServed i (ok (ends need_close sessions)) = WellFormed (Others i Q) sessions
  GoodServed i fault = Unit
  GoodServed i out_of_fuel = Unit

  pub after-Good :
      (server : Server) (i sock : ℕ) (served : Result Served)
      → GoodServed i served
      → Good (served >>= λ x. ok (after server i sock x))
  unfolding after leave
  after-Good server i sock (ok (goes_on sessions)) wf = wf
  after-Good server i sock (ok (ends need_close sessions)) wf =
      WellFormed-blank_at sessions i put_session wf refl
  after-Good server i sock fault wf = tt
  after-Good server i sock out_of_fuel wf = tt

  module _ (sessions : List Session) (i : ℕ) (client : Session)
      (at : get_elem? sessions i ≡ some client) where
    validated-Good :
        (env : Env) (req : ValidateReq) (session_id : List ℕ) (sent : Bool)
        (answer : Result Verdict)
        → session_id ≢ []
        → ((k : ℕ) (s : Session)
            → i ≢ k
            → get_elem? sessions k ≡ some s
            → session_id ≢ s.session_id)
        → (sent ≡ true → WellFormed Q sessions)
        → WellFormed (Others i Q) sessions
        → (sent ≡ true → (base : User) → Evidence env req base → Q i session_id base)
        → Sound env req answer
        → GoodServed i (
            (answer >>= λ v. ok (if sent then pos 0 else negsuc 0, let_in client session_id v))
            >>= λ r. ok (validated sessions i r))
    unfolding validated let_in
    validated-Good env req session_id true (ok (refuses status)) some_id fresh wf rest enters
          sound =
        WellFormed-keep sessions i client (using_main false client) (wf refl) at refl refl refl
    validated-Good env req session_id false (ok (refuses status)) some_id fresh wf rest enters
          sound =
        WellFormed-keep sessions i client (using_main false client) rest at refl refl refl
    validated-Good env req session_id true (ok (admits base)) some_id fresh wf rest enters sound =
        admitted Q sessions i (using_main false (let_in client session_id (admits base))) (wf refl)
          refl fresh (enters refl base sound)
    validated-Good env req session_id false (ok (admits base)) some_id fresh wf rest enters sound =
        admitted (Others i Q) sessions i (using_main false (let_in client session_id (admits base)))
          rest refl fresh (λ ne. absurd (ne refl))
    validated-Good env req session_id sent fault some_id fresh wf rest enters sound = tt
    validated-Good env req session_id sent out_of_fuel some_id fresh wf rest enters sound = tt

    append_conn_to-Good :
        WellFormed (Others i Q) sessions
        → (o : Option ℕ)
        → GoodServed i (append_conn_to sessions client o >>= λ (ret, ss). ok (ends false ss))
    unfolding append_conn_to
    append_conn_to-Good wf none = wf
    append_conn_to-Good wf (some j) = elim (Option-cases (get_elem? sessions j)) [
      | inl nowhere ↦ rw nowhere tt
      | inr (real, there) ↦ rw there (
          WellFormed-keep sessions j real
            (record real { task_conns = task_conn_of client ∷ real.task_conns }) wf there refl refl
            refl)
    ]

    reconnect_in-Good :
        WellFormed (Others i Q) sessions
        → (j : ℕ) (target : Session) → get_elem? sessions j ≡ some target
        → (o : Option Place)
        → WellFormed (Others i Q) (reconnect_in sessions client.main_conn.sock j target o).1
    unfolding reconnect_in reconnect_at
    reconnect_in-Good wf j target there none = wf
    reconnect_in-Good wf j target there (some at_main) =
        WellFormed-keep sessions j target (reconnect_at client.main_conn.sock target at_main) wf
          there refl refl refl
    reconnect_in-Good wf j target there (some (at_task k)) =
        WellFormed-keep sessions j target (reconnect_at client.main_conn.sock target (at_task k)) wf
          there refl refl refl

    reconnect_to-Good :
        WellFormed (Others i Q) sessions
        → (connect_id : List ℕ) (o : Option ℕ)
        → GoodServed i (
            reconnect_to sessions client.main_conn.sock connect_id o >>= λ (ret, ss).
            ok (ends false ss))
    unfolding reconnect_to
    reconnect_to-Good wf connect_id none = wf
    reconnect_to-Good wf connect_id (some j) = elim (Option-cases (get_elem? sessions j)) [
      | inl nowhere ↦ rw nowhere tt
      | inr (target, there) ↦
          rw there (reconnect_in-Good wf j target there (find_connect_by_id target connect_id))
    ]

    handle_cd_req-keeps :
        WellFormed Q sessions
        → (o : Option (List ℕ)) → WellFormed Q (set sessions i (using_main false (go_to client o)))
    unfolding go_to
    handle_cd_req-keeps wf none =
        WellFormed-keep sessions i client (using_main false client) wf at refl refl refl
    handle_cd_req-keeps wf (some dir) =
        WellFormed-keep sessions i client (using_main false (go_to client (some dir))) wf at refl
          refl refl

    pub serve-Good :
        (env : Env) (req : Request) (session_id : List ℕ) (sent : Bool)
        → session_id ≢ []
        → ((k : ℕ) (s : Session)
            → i ≢ k
            → get_elem? sessions k ≡ some s
            → session_id ≢ s.session_id)
        → (GoesOn req sent → WellFormed Q sessions)
        → WellFormed (Others i Q) sessions
        → ((req' : ValidateReq)
            → validate_req req' ≡ req
            → sent ≡ true
            → (base : User) → Evidence env req' base
            → Q i session_id base)
        → GoodServed i (serve env sessions i client req session_id sent)
    unfolding serve validate_user_info handle_append_conn_req handle_reconnect_req handle_cd_req
    serve-Good env (validate_req req) session_id sent some_id fresh wf rest enters =
        validated-Good env req session_id sent (verdict env req) some_id fresh wf rest
          (enters req refl) (verdict-Sound env req)
    serve-Good env (append_conn_req id task) session_id sent some_id fresh wf rest enters =
        append_conn_to-Good rest (find_client_session_by_id sessions id)
    serve-Good env (append_conn_req id ctrl) session_id sent some_id fresh wf rest enters = rest
    serve-Good env (append_conn_req id data_conn) session_id sent some_id fresh wf rest enters =
        rest
    serve-Good env (reconnect_req id connect_id) session_id sent some_id fresh wf rest enters =
        reconnect_to-Good rest connect_id (find_client_session_by_id sessions id)
    serve-Good env (cd_req path) session_id sent some_id fresh wf rest enters =
        handle_cd_req-keeps (wf tt) (env.chdir_to (simplify_path (client.pwd ++ b'/' ∷ path)))
    serve-Good env other_req session_id sent some_id fresh wf rest enters =
        WellFormed-keep sessions i client (using_main false client) (wf tt) at refl refl refl
