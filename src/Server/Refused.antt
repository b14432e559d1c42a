-- ===== src/Server/Refused.antt =====
-- A request to add a connection that names no session.
use sftt.Base.{
  ℕ, suc, ◌≡◌, ◌≢◌, refl, inl, inr, Bool, true, false, none, some, List, [], ◌∷◌, set, get_elem?,
  get_elem?_lt, get_elem?-set_self, length-set, arith, ok, Bool-cases, subst,
}
use sftt.Base.Same.{same_bytes, same_bytes-eq}
use sftt.Server.{
  Session, client_connected, task, put_session, first_of, has_id, find_client_session_by_id,
}
use sftt.Server.Requests.{Env, append_conn_req, append_conn_to, handle_append_conn_req}
use sftt.Server.Loop.{Server, requests, using_main, serve, after, leave, step}
use sftt.Server.Table.{get_elem?-set_cases}

first_of-none :
    (wanted : Session → Bool) (sessions : List Session)
    → ((k : ℕ) (s : Session) → get_elem? sessions k ≡ some s → wanted s ≡ false)
    → first_of wanted sessions ≡ none
unfolding first_of
first_of-none wanted [] h = refl
first_of-none wanted (x ∷ xs) h =
    rw (h 0 x refl, first_of-none wanted xs (λ k s at. h (suc k) s at)) refl

-- No client has the id.
abbrev pub Unknown : List Session → List ℕ → Type 0
Unknown sessions id =
    (k : ℕ) (s : Session)
    → get_elem? sessions k ≡ some s
    → client_connected s ≡ true
    → s.session_id ≢ id

has_id-Unknown :
    (id : List ℕ) (s : Session)
    → (client_connected s ≡ true → s.session_id ≢ id)
    → has_id id s ≡ false
has_id-Unknown id s h = elim (Bool-cases (client_connected s)) [
  | inl here ↦ elim (Bool-cases (same_bytes s.session_id id)) [
    | inl same ↦ absurd (h here (same_bytes-eq s.session_id id same))
    | inr other ↦ rw (here, other) refl
  ]
  | inr gone ↦ rw gone refl
]

-- A client that asks to add its connection to a session that no client has loses its own session,
-- and its socket is not closed.
pub append_conn-Unknown :
    (env : Env) (server : Server) (i : ℕ) (client : Session) (id new_id : List ℕ) (sent : Bool)
    → get_elem? server.sessions i ≡ some client
    → Unknown server.sessions id
    → (server' : Server) × (step env server (requests i (append_conn_req id task) new_id sent)
        ≡ ok server')
      × (get_elem? server'.sessions i ≡ some put_session)
      × (server'.closed ≡ server.closed)
unfolding step serve handle_append_conn_req append_conn_to after leave find_client_session_by_id
append_conn-Unknown env server i client id new_id sent at unknown =
    let used = using_main true client in
    let table = set server.sessions i used in
    let nobody : first_of (has_id id) table ≡ none = first_of-none (has_id id) table (λ k s h.
      elim (get_elem?-set_cases server.sessions i k used s h) [
        | inl (e, same) ↦
            subst (λ t. has_id id t ≡ false) same (has_id-Unknown id used (unknown i client at))
        | inr (ne, old) ↦ has_id-Unknown id s (unknown k s old)
      ]) in
    let bound = get_elem?_lt server.sessions i client at in
    let size = length-set server.sessions i used in
    (
      record { sessions = set table i put_session; closed = server.closed },
      rw (at, nobody) refl,
      get_elem?-set_self table i put_session (omega arith),
      refl,
    )
