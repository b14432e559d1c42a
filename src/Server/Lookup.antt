-- ===== src/Server/Lookup.antt =====
-- Who is found by a session id, and what a request to add a connection does.
use sftt.Base.{
  ℕ, zero, suc, ◌≡◌, ◌≢◌, refl, ap, sym, ◌∙◌, inl, inr, Bool, true, ◌&&◌, some, none_not, some_inj,
  List, [], ◌∷◌, set, get_elem?, get_elem?_lt, get_elem?-set_self, get_elem?-set_ne, length-set, ok,
  Bool-cases, Option-cases, subst, arith,
}
use sftt.Base.Same.{same_bytes, same_bytes-eq, same_bytes_self}
use sftt.Server.{
  Session, User, client_connected, task, put_session, first_of, has_id, find_client_session_by_id,
}
use sftt.Server.Requests.{
  Env, append_conn_req, task_conn_of, append_conn_to, handle_append_conn_req,
}
use sftt.Server.Loop.{Server, Event, requests, using_main, serve, after, leave, step}
use sftt.Server.Table.{LetIn, WellFormed, WellFormed-keep}
use sftt.Server.Runs.{Reach, Reach-WellFormed}

-- The session that a search stops at.
pub first_of-wanted :
    (wanted : Session → Bool) (sessions : List Session) (i : ℕ)
    → first_of wanted sessions ≡ some i
    → (s : Session) × (get_elem? sessions i ≡ some s) × (wanted s ≡ true)
unfolding first_of
first_of-wanted wanted [] i h = absurd (none_not h)
first_of-wanted wanted (x ∷ xs) i h = elim (Bool-cases (wanted x)) [
  | inl here ↦
      let e : 0 ≡ i = some_inj (rw here at h) in
      subst (λ k. (s : Session) × (get_elem? (x ∷ xs) k ≡ some s) × (wanted s ≡ true)) e
        (x, refl, here)
  | inr other ↦ elim (Option-cases (first_of wanted xs)) [
    | inl nowhere ↦ absurd (none_not (rw (other, nowhere) at h))
    | inr (k, found) ↦
        let e : suc k ≡ i = some_inj (rw (other, found) at h) in
        subst (λ k. (s : Session) × (get_elem? (x ∷ xs) k ≡ some s) × (wanted s ≡ true)) e
          (first_of-wanted wanted xs k found)
  ]
]

-- A search that has something to find.
pub first_of-finds :
    (wanted : Session → Bool) (sessions : List Session) (i : ℕ) (s : Session)
    → get_elem? sessions i ≡ some s
    → wanted s ≡ true
    → (k : ℕ) × (first_of wanted sessions ≡ some k)
unfolding first_of
first_of-finds wanted [] i s at h = absurd (none_not at)
first_of-finds wanted (x ∷ xs) zero s at h =
    let here : wanted x ≡ true = ap wanted (some_inj at) ∙ h in (0, rw here refl)
first_of-finds wanted (x ∷ xs) (suc i) s at h = elim (Bool-cases (wanted x)) [
  | inl here ↦ (0, rw here refl)
  | inr other ↦
      let (k, found) = first_of-finds wanted xs i s at h in (suc k, rw (other, found) refl)
]

both : (a b : Bool) → (a && b) ≡ true → (a ≡ true) × (b ≡ true)
both a b h = ground arith

-- Who is found by a session id that is not empty is connected, has that id, and has been let in: the
-- client of that very session has been given that very id at a request with a version that is
-- served and the name and the password digest of the session's user, whose home exists, and has
-- neither left nor been handed over since then. This holds in every run where a new id is in no
-- session.
pub find_client_session_by_id-LetIn :
    {env : Env} {log : List Event} {server : Server}
    → Reach env log server
    → (session_id : List ℕ) (i : ℕ) → session_id ≢ []
    → find_client_session_by_id server.sessions session_id ≡ some i
    → (s : Session) × (get_elem? server.sessions i ≡ some s)
      × (client_connected s ≡ true)
      × (s.session_id ≡ session_id)
      × LetIn env i session_id s.user log
unfolding find_client_session_by_id
find_client_session_by_id-LetIn {env} {log} {server} reach session_id i some_id found =
    let (s, at, wanted) = first_of-wanted (has_id session_id) server.sessions i found in
    let (here, same) = both (client_connected s) (same_bytes s.session_id session_id) wanted in
    let e = same_bytes-eq s.session_id session_id same in
    (
      s,
      at,
      here,
      e,
      subst (λ id. LetIn env i id s.user log) e
          (((Reach-WellFormed reach).shapes i s at).member
            (λ none_there. some_id (sym e ∙ none_there))),
    )

WellFormed-finds :
    {P : ℕ → List ℕ → User → Type 0}
    → (sessions : List Session) → WellFormed P sessions
    → (i : ℕ) (s : Session) → get_elem? sessions i ≡ some s
    → s.session_id ≢ []
    → find_client_session_by_id sessions s.session_id ≡ some i
unfolding find_client_session_by_id
WellFormed-finds sessions wf i s at some_id =
    let here : client_connected s ≡ true = elim (Bool-cases (client_connected s)) [
      | inl here ↦ here
      | inr gone ↦ absurd (some_id ((wf.shapes i s at).free gone))
    ] in
    let wanted : has_id s.session_id s ≡ true = rw (here, same_bytes_self s.session_id) refl in
    let (k, found) = first_of-finds (has_id s.session_id) sessions i s at wanted in
    let (t, there, wants) = first_of-wanted (has_id s.session_id) sessions k found in
    let (_, same) = both (client_connected t) (same_bytes t.session_id s.session_id) wants in
    let e = same_bytes-eq t.session_id s.session_id same in
    found ∙ ap some (sym (wf.unique i k s t at there (sym e) some_id))

-- In every run where a new id is in no session, the session that has an id is the one that is found
-- by it.
pub find_client_session_by_id-finds :
    {env : Env} {log : List Event} {server : Server}
    → Reach env log server
    → (i : ℕ) (s : Session) → get_elem? server.sessions i ≡ some s
    → s.session_id ≢ []
    → find_client_session_by_id server.sessions s.session_id ≡ some i
find_client_session_by_id-finds {server = server} reach =
    WellFormed-finds server.sessions (Reach-WellFormed reach)

-- What a served request to add a connection leaves: the connection of the client at `i` is one for
-- tasks of the session at `j`, the client's own session is free, all others are as before, and no
-- socket has been closed.
pub record Handed (server : Server) (i j : ℕ) (client real : Session) (server' : Server)
    : Type 0 where
  pub freed : get_elem? server'.sessions i ≡ some put_session
  pub added :
      get_elem? server'.sessions j
      ≡ some (record real { task_conns = task_conn_of client ∷ real.task_conns })
  pub others : (k : ℕ) → k ≢ i → k ≢ j → get_elem? server'.sessions k ≡ get_elem? server.sessions k
  pub closed : server'.closed ≡ server.closed

-- A client that asks with the id of another client's session to add its connection for tasks to it
-- hands its connection over, in every run where a new id is in no session.
pub append_conn-Handed :
    {env : Env} {log : List Event} {server : Server}
    → Reach env log server
    → (i j : ℕ) (client real : Session) (new_id : List ℕ) (sent : Bool) → i ≢ j
    → get_elem? server.sessions i ≡ some client
    → get_elem? server.sessions j ≡ some real
    → real.session_id ≢ []
    → (server' : Server) × (step env server
          (requests i (append_conn_req real.session_id task) new_id sent)
        ≡ ok server')
      × Handed server i j client real server'
unfolding step serve handle_append_conn_req append_conn_to after leave
append_conn-Handed {server = server} reach i j client real new_id sent ne at there some_id =
    let used = using_main true client in
    let table = set server.sessions i used in
    let added = record real { task_conns = task_conn_of client ∷ real.task_conns } in
    let wf =
      WellFormed-keep server.sessions i client used (Reach-WellFormed reach) at refl refl refl in
    let there' : get_elem? table j ≡ some real =
      get_elem?-set_ne server.sessions i j used ne ∙ there in
    let found = WellFormed-finds table wf j real there' some_id in
    let bound_i = get_elem?_lt server.sessions i client at in
    let bound_j = get_elem?_lt server.sessions j real there in
    let size = length-set server.sessions i used in
    let size' = length-set table j added in
    (
      record { sessions = set (set table j added) i put_session; closed = server.closed },
      rw (at, found, there') refl,
      record {
        freed = get_elem?-set_self (set table j added) i put_session (omega arith);
        added =
            get_elem?-set_ne (set table j added) i j put_session ne
            ∙ get_elem?-set_self table j added (omega arith);
        others = λ k ki kj.
            get_elem?-set_ne (set table j added) i k put_session (λ e. ki (sym e))
            ∙ get_elem?-set_ne table j k added (λ e. kj (sym e))
            ∙ get_elem?-set_ne server.sessions i k used (λ e. ki (sym e));
        closed = refl;
      },
    )
