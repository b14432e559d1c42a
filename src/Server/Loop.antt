-- ===== src/Server/Loop.antt =====
-- src/server.c: `handle_client_session` and `second_channel_loop` as steps on the table. One step is
-- one connection that comes in, one request that is served, or a client that is gone.
use sftt.Base.{
  ℕ, Bool, true, false, Option, none, some, List, [], ◌∷◌, set, get_elem?, if◌then◌else◌, Result,
  ok, ◌>>=◌, from_option,
}
use sftt.Base.Int.{ℤ, is_neg}
use sftt.Server.{Conn, Session, put_session, get_new_session, accept_client, init_sessions}
use sftt.Server.Requests.{
  Request, validate_req, append_conn_req, reconnect_req, cd_req, other_req, Env, validate_user_info,
  handle_cd_req, handle_append_conn_req, handle_reconnect_req,
}

-- The table, and the sockets that the server has closed.
pub record Server : Type 0 where
  pub sessions : List Session
  pub closed : List ℕ

abbrev pub initial : Server
initial = record { sessions = init_sessions; closed = [] }

-- Whether the loop goes on, or ends and closes the socket or not, and the table.
pub data Served : Type 0 where
  goes_on : (sessions : List Session) → Served
  ends : (need_close : Bool) (sessions : List Session) → Served

-- `get_sock_conn` and `put_sock_conn`
abbrev pub using_main : Bool → Session → Session
using_main b client = record client { main_conn = record client.main_conn { is_using = b } }

unfoldable pub validated : List Session → ℕ → ℤ × Session → Served
validated sessions i (ret, client) =
    if is_neg ret
    then ends true (set sessions i (using_main false client))
    else goes_on (set sessions i (using_main false client))

-- The switch. The client's session stands at `i`. The requests that `other_req` stands for change
-- no session for good.
unfoldable pub serve : Env → List Session → ℕ → Session → Request → List ℕ → Bool → Result Served
unfolding validated
serve env sessions i client (validate_req req) session_id sent =
    validate_user_info env client req session_id sent >>= λ r. ok (validated sessions i r)
serve env sessions i client (append_conn_req id type) session_id sent =
    handle_append_conn_req sessions client id type >>= λ (ret, sessions). ok (ends false sessions)
serve env sessions i client (reconnect_req id connect_id) session_id sent =
    handle_reconnect_req sessions client id connect_id >>= λ (ret, sessions).
    ok (ends false sessions)
serve env sessions i client (cd_req path) session_id sent =
    ok (goes_on (set sessions i (using_main false (handle_cd_req env client path))))
serve env sessions i client other_req session_id sent =
    ok (goes_on (set sessions i (using_main false client)))

-- What follows the loop: the socket is closed where `need_close` still holds, and the session is put
-- back.
unfoldable pub leave : Server → ℕ → ℕ → Bool → List Session → Server
leave server i sock need_close sessions = record {
  sessions = set sessions i put_session;
  closed = if need_close then sock ∷ server.closed else server.closed;
}

unfoldable pub after : Server → ℕ → ℕ → Served → Server
unfolding leave
after server i sock (goes_on sessions) = record server { sessions = sessions }
after server i sock (ends need_close sessions) = leave server i sock need_close sessions

unfoldable pub accept_at : Server → List ℕ → Conn → Bool → Option ℕ → Server
accept_at server ip conn launched none = record server { closed = conn.sock ∷ server.closed }
accept_at server ip conn launched (some i) = record server {
  sessions = set server.sessions i (accept_client ip conn launched);
}

-- `session_id` is what `gen_session_id` would give at this request.
pub data Event : Type 0 where
  accepts : (ip : List ℕ) (conn : Conn) (launched : Bool) → Event
  requests : (i : ℕ) (req : Request) (session_id : List ℕ) (sent : Bool) → Event
  disconnects : (i : ℕ) → Event

unfoldable pub step : Env → Server → Event → Result Server
unfolding accept_at serve after leave
step env server (accepts ip conn launched) =
    ok (accept_at server ip conn launched (get_new_session server.sessions))
step env server (requests i req session_id sent) = do
  client ← from_option (get_elem? server.sessions i)
  let used = using_main true client
  served ← serve env (set server.sessions i used) i used req session_id sent
  ok (after server i client.main_conn.sock served)
step env server (disconnects i) = from_option (get_elem? server.sessions i) >>= λ client.
    ok (leave server i client.main_conn.sock true server.sessions)
