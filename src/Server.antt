-- ===== src/Server.antt =====
-- src/server.c: the table of sessions, and how a session is found in it. `server->sessions` is a
-- list of MAX_CLIENT_NUM sessions, and a pointer into it an index. A string is the list of its
-- chars. The locks are not modelled: a function here runs as one step.
pub mod Requests
pub mod Loop
pub mod Table
pub mod Verdict
pub mod Safety
pub mod Runs
pub mod Lookup
pub mod Refused
use sftt.Base.{
  ℕ, zero, suc, ◌+◌, Bool, true, false, ◌&&◌, ◌||◌, not, Option, none, some, List, [], ◌∷◌, length,
  replicate, set, ltb, ◌==◌, if◌then◌else◌,
}
use sftt.Base.Same.{same_bytes}

pub data ConnType : Type 0 where
  ctrl : ConnType
  data_conn : ConnType
  task : ConnType

-- `struct client_sock_conn`, without the links of its list and without `last_port`, which the server
-- does not use.
pub record Conn : Type 0 where
  pub sock : ℕ
  pub port : ℕ
  pub type : ConnType
  pub connect_id : List ℕ
  pub is_using : Bool
  pub is_updating : Bool

pub data Status : Type 0 where
  active : Status
  inactive : Status
  disconnected : Status

pub record User : Type 0 where
  pub uid : ℕ
  pub name : List ℕ
  pub home_dir : List ℕ

pub record Session : Type 0 where
  pub ip : List ℕ
  pub main_conn : Conn
  pub task_conns : List Conn
  pub status : Status
  pub pwd : List ℕ
  pub session_id : List ℕ
  pub user : User

abbrev pub is_active : Status → Bool
is_active active = true
is_active inactive = false
is_active disconnected = false

abbrev client_is_active : Session → Bool
client_is_active session = is_active session.status

-- The macro compares with ACTIVE too.
abbrev client_is_inactive : Session → Bool
client_is_inactive session = is_active session.status

abbrev pub client_connected : Session → Bool
client_connected session = client_is_active session || client_is_inactive session

abbrev pub no_conn : Conn
no_conn = record {
  sock = 0;
  port = 0;
  type = ctrl;
  connect_id = [];
  is_using = false;
  is_updating = false;
}

abbrev pub no_user : User
no_user = record { uid = 0; name = []; home_dir = [] }

-- What `put_session` leaves, and with an empty list of connections `init_client_session`.
abbrev pub put_session : Session
put_session = record {
  ip = [];
  main_conn = no_conn;
  task_conns = [];
  status = disconnected;
  pwd = [];
  session_id = [];
  user = no_user;
}

abbrev pub max_client_num : ℕ
max_client_num = 32

abbrev pub init_sessions : List Session
init_sessions = replicate max_client_num put_session

-- The loops over the table that stop at the first session that is wanted.
unfoldable pub first_of : (Session → Bool) → List Session → Option ℕ
first_of wanted [] = none
first_of wanted (session ∷ sessions) =
    let rest = next (first_of wanted sessions) in if wanted session then some 0 else rest
  where
    next : Option ℕ → Option ℕ
    next none = none
    next (some i) = some (suc i)

-- The index; the session there is to be initialised and set active.
unfoldable pub get_new_session : List Session → Option ℕ
unfolding first_of
get_new_session = first_of (λ session. not (client_connected session))

-- `strncmp` of SESSION_ID_LEN chars, where both strings end before.
abbrev pub has_id : List ℕ → Session → Bool
has_id session_id session = client_connected session && same_bytes session.session_id session_id

unfoldable pub find_client_session_by_id : List Session → List ℕ → Option ℕ
unfolding first_of
find_client_session_by_id sessions session_id = first_of (has_id session_id) sessions

-- `&session->main_conn`, or a place in `task_conns`.
pub data Place : Type 0 where
  at_main : Place
  at_task : (i : ℕ) → Place

find_task_conn : List Conn → List ℕ → ℕ → Option Place
find_task_conn [] connect_id i = none
find_task_conn (conn ∷ conns) connect_id i =
    let rest = find_task_conn conns connect_id (suc i) in
    if same_bytes conn.connect_id connect_id then some (at_task i) else rest

unfoldable pub find_connect_by_id : Session → List ℕ → Option Place
unfolding find_task_conn
find_connect_by_id session connect_id =
    let rest = find_task_conn session.task_conns connect_id 0 in
    if same_bytes session.main_conn.connect_id connect_id then some at_main else rest

-- A connection that has come in on the second port. Without room it is closed.
unfoldable pub accept_client : List ℕ → Conn → Bool → Session
accept_client ip conn launched = record put_session {
  ip = ip;
  main_conn = record conn { type = ctrl; is_using = false; is_updating = false };
  status = if launched then active else disconnected;
}
