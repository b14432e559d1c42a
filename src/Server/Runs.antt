-- ===== src/Server/Runs.antt =====
-- Every run of the server: what holds of the table, and who is found in it.
use sftt.Base.{
  ℕ, zero, suc, ◌≡◌, ◌≢◌, refl, ap, sym, inl, inr, Bool, true, Option, none, some, none_not,
  some_inj, List, [], ◌∷◌, set, replicate, get_elem?, get_elem?_lt, get_elem?-set_self, ok, subst,
}
use sftt.Server.{
  Conn, Session, User, client_connected, put_session, init_sessions, max_client_num,
  get_new_session, accept_client,
}
use sftt.Server.Requests.{Env, Request, validate_req}
use sftt.Server.Loop.{
  Server, initial, using_main, serve, leave, accept_at, Event, accepts, requests, disconnects, step,
}
use sftt.Server.Table.{
  LetIn, now, still, Member, Shape, WellFormed, WellFormed-keep, WellFormed-blank,
  WellFormed-weaken, WellFormed-blank_at, get_elem?-set_cases,
}
use sftt.Server.Safety.{Fresh, Good, serve-Good, after-Good}

-- A client whose session is at `i`.
abbrev pub Connected : List Session → ℕ → Type 0
Connected sessions i =
    (client : Session) × (get_elem? sessions i ≡ some client) × (client_connected client ≡ true)

-- A request comes from a client that is connected, and `gen_session_id` gives an id that is in no
-- session.
abbrev pub Possible : List Session → Event → Type 0
Possible sessions (accepts ip conn launched) = Unit
Possible sessions (requests i req session_id sent) =
    Connected sessions i × Fresh sessions session_id
Possible sessions (disconnects i) = Connected sessions i

-- The server after the events of the list, the last one first.
pub data Reach (env : Env) : List Event → Server → Type 0 where
  start : Reach env [] initial
  next :
      {log : List Event} {server server' : Server}
      → Reach env log server
      → (e : Event) → Possible server.sessions e
      → step env server e ≡ ok server'
      → Reach env (e ∷ log) server'

accept_at-Good :
    {P : ℕ → List ℕ → User → Type 0}
    → (server : Server) (ip : List ℕ) (conn : Conn) (launched : Bool) (o : Option ℕ)
    → WellFormed P server.sessions
    → WellFormed P (accept_at server ip conn launched o).sessions
unfolding accept_at accept_client
accept_at-Good server ip conn launched none wf = wf
accept_at-Good server ip conn launched (some i) wf =
    WellFormed-blank server.sessions i (accept_client ip conn launched) wf refl

requests-Good :
    (env : Env) (log : List Event) (server : Server) (i : ℕ) (client : Session) (req : Request)
    (session_id : List ℕ) (sent : Bool)
    → WellFormed (Member env log) server.sessions
    → get_elem? server.sessions i ≡ some client
    → Fresh server.sessions session_id
    → Good
        (Member env (requests i req session_id sent ∷ log))
        (step env server (requests i req session_id sent))
unfolding step
requests-Good env log server i client req session_id sent wf at (some_id, fresh) =
    let e = requests i req session_id sent in
    let Q = Member env (e ∷ log) in
    let used = using_main true client in
    let sessions = set server.sessions i used in
    let at' =
      get_elem?-set_self server.sessions i used (get_elem?_lt server.sessions i client at) in
    let wf' : WellFormed (Member env log) sessions =
      WellFormed-keep server.sessions i client used wf at refl refl refl in
    let apart : (k : ℕ) (s : Session)
        → i ≢ k
        → get_elem? sessions k ≡ some s
        → session_id ≢ s.session_id =
      λ k s ne h. elim (get_elem?-set_cases server.sessions i k used s h) [
        | inl (e, same) ↦ absurd (ne e)
        | inr (ne', old) ↦ fresh k s old
      ] in
    rw at (
      after-Good Q server i client.main_conn.sock (serve env sessions i used req session_id sent) (
        serve-Good Q sessions i used at' env req session_id sent some_id apart
          (λ on. WellFormed-weaken (λ k id user l. still log e (inr on) l) sessions wf')
          (WellFormed-weaken (λ k id user l ne. still log e (inl ne) l) sessions wf')
          (λ req' same_req is_sent base evidence.
            subst (λ r. LetIn env i session_id base (requests i r session_id sent ∷ log)) same_req
              (subst
                (λ b.
                  LetIn env i session_id base (requests i (validate_req req') session_id b ∷ log))
                (sym is_sent) (now log req' evidence)))))

step-Good :
    (env : Env) (log : List Event) (server : Server) (e : Event)
    → WellFormed (Member env log) server.sessions
    → Possible server.sessions e
    → Good (Member env (e ∷ log)) (step env server e)
unfolding step leave
step-Good env log server (accepts ip conn launched) wf possible =
    accept_at-Good server ip conn launched (get_new_session server.sessions)
      (WellFormed-weaken (λ k id user. still log (accepts ip conn launched) tt) server.sessions wf)
step-Good env log server (requests i req session_id sent) wf ((client, at, here), fresh) =
    requests-Good env log server i client req session_id sent wf at fresh
step-Good env log server (disconnects i) wf (client, at, here) = rw at (
    WellFormed-blank_at server.sessions i put_session
      (WellFormed-weaken (λ k id user l ne. still log (disconnects i) ne l) server.sessions wf)
      refl)

pub get_elem?-replicate :
    (n : ℕ) (v : Session) (i : ℕ) (s : Session) → get_elem? (replicate n v) i ≡ some s → v ≡ s
get_elem?-replicate zero v i s h = absurd (none_not h)
get_elem?-replicate (suc n) v zero s h = some_inj h
get_elem?-replicate (suc n) v (suc i) s h = get_elem?-replicate n v i s h

initial-WellFormed : (env : Env) → WellFormed (Member env []) init_sessions
initial-WellFormed env = record {
  shapes = λ i s h.
      subst (Shape (Member env [] i)) (get_elem?-replicate max_client_num put_session i s h)
        (record { free = λ e. refl; member = λ some_id. absurd (some_id refl) });
  unique = λ i j s t hi hj same some_id. absurd (
      some_id
        (ap (λ x. x.session_id) (sym (get_elem?-replicate max_client_num put_session i s hi))));
}

pub Reach-WellFormed :
    {env : Env} {log : List Event} {server : Server}
    → Reach env log server
    → WellFormed (Member env log) server.sessions
Reach-WellFormed {env} start = initial-WellFormed env
Reach-WellFormed {env} (next {log} {server} {server'} reach e possible run) =
    subst (Good (Member env (e ∷ log))) run
      (step-Good env log server e (Reach-WellFormed reach) possible)
