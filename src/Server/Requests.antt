-- ===== src/Server/Requests.antt =====
-- src/server.c: the requests that change sessions, and `handle_client_session`, which serves them.
use sftt.Base.{
  ℕ, zero, suc, Bool, false, Option, none, some, List, [], ◌∷◌, ◌++◌, set, get_elem?, if◌then◌else◌,
  Result, ok, ◌>>=◌, from_option,
}
use sftt.Base.Int.{ℤ, pos, negsuc, is_neg}
use sftt.Base.Same.{same_bytes}
use sftt.Utils.{simplify_path}
use sftt.Version.{VersionInfo, check_version}
use sftt.Server.{
  Conn, ConnType, task, active, User, Session, Place, at_main, at_task, find_client_session_by_id,
  find_connect_by_id,
}

pub record ValidateReq : Type 0 where
  pub ver : VersionInfo
  pub name : List ℕ
  pub passwd_md5 : List ℕ

pub data UvsStatus : Type 0 where
  bad_ver : UvsStatus
  ntfd : UvsStatus
  invalid : UvsStatus
  misshome : UvsStatus
  passed : UvsStatus

pub data Request : Type 0 where
  validate_req : (req : ValidateReq) → Request
  append_conn_req : (session_id : List ℕ) (type : ConnType) → Request
  reconnect_req : (session_id connect_id : List ℕ) → Request
  cd_req : (path : List ℕ) → Request
  other_req : Request

-- The users, the disk, and the server's version. `chdir_to` is what `chdir` and `getcwd` make of a
-- path.
pub record Env : Type 0 where
  pub ver : VersionInfo
  pub find_user_base_by_name : List ℕ → Option User
  pub find_user_auth_by_name : List ℕ → Option (List ℕ)
  pub file_existed : List ℕ → Bool
  pub chdir_to : List ℕ → Option (List ℕ)

-- The answer to a client that asks to be let in.
pub data Verdict : Type 0 where
  refuses : (status : UvsStatus) → Verdict
  admits : (base : User) → Verdict

module _ (env : Env) where
  unfoldable pub home_verdict : User → Verdict
  home_verdict base = if env.file_existed base.home_dir then admits base else refuses misshome

  -- What is found of the password is read without a test.
  unfoldable pub base_verdict : ValidateReq → Option User → Result Verdict
  unfolding home_verdict
  base_verdict req none = ok (refuses ntfd)
  base_verdict req (some base) = from_option (env.find_user_auth_by_name req.name) >>= λ passwd_md5.
      ok (if same_bytes passwd_md5 req.passwd_md5 then home_verdict base else refuses invalid)

  unfoldable pub verdict : ValidateReq → Result Verdict
  unfolding base_verdict
  verdict req =
      let found = base_verdict req (env.find_user_base_by_name req.name) in
      if is_neg (check_version req.ver env.ver).0 then ok (refuses bad_ver) else found

-- The branch that lets a client in. `session_id` is what `gen_session_id` makes, of the time and of
-- `rand`.
unfoldable pub let_in : Session → List ℕ → Verdict → Session
let_in client session_id (refuses status) = client
let_in client session_id (admits base) = record client {
  status = active;
  pwd = base.home_dir;
  user = base;
  session_id = session_id;
}

-- `sent` says whether the answer can be sent.
unfoldable pub validate_user_info :
    Env → Session → ValidateReq → List ℕ → Bool → Result (ℤ × Session)
unfolding verdict let_in
validate_user_info env client req session_id sent =
    verdict env req >>= λ v. ok (if sent then pos 0 else negsuc 0, let_in client session_id v)

-- The new directory is what `getcwd` gives after `chdir`.
unfoldable pub go_to : Session → Option (List ℕ) → Session
go_to client none = client
go_to client (some dir) = record client { pwd = dir }

unfoldable pub handle_cd_req : Env → Session → List ℕ → Session
unfolding go_to
handle_cd_req env client path =
    go_to client (env.chdir_to (simplify_path (client.pwd ++ b'/' ∷ path)))

-- The connection of the client as one for tasks.
abbrev pub task_conn_of : Session → Conn
task_conn_of client = record client.main_conn { type = task; is_using = false; is_updating = false }

unfoldable pub append_conn_to : List Session → Session → Option ℕ → Result (ℤ × List Session)
append_conn_to sessions client none = ok (negsuc 0, sessions)
append_conn_to sessions client (some j) = from_option (get_elem? sessions j) >>= λ real_session.
    ok (
      pos 0,
      set sessions j
          (record real_session { task_conns = task_conn_of client ∷ real_session.task_conns }),
    )

-- The memory is given, and the answer is sent.
unfoldable pub handle_append_conn_req :
    List Session → Session → List ℕ → ConnType → Result (ℤ × List Session)
unfolding append_conn_to
handle_append_conn_req sessions client session_id task =
    append_conn_to sessions client (find_client_session_by_id sessions session_id)
handle_append_conn_req sessions client session_id _ = ok (negsuc 0, sessions)

abbrev pub reconnected : ℕ → Conn → Conn
reconnected sock conn = record conn { sock = sock; is_updating = false }

unfoldable pub reconnect_task : ℕ → List Conn → ℕ → List Conn
reconnect_task sock [] i = []
reconnect_task sock (conn ∷ conns) zero = reconnected sock conn ∷ conns
reconnect_task sock (conn ∷ conns) (suc i) = conn ∷ reconnect_task sock conns i

unfoldable pub reconnect_at : ℕ → Session → Place → Session
unfolding reconnect_task
reconnect_at sock session at_main = record session {
  main_conn = reconnected sock session.main_conn;
}
reconnect_at sock session (at_task i) = record session {
  task_conns = reconnect_task sock session.task_conns i;
}

unfoldable pub reconnect_in : List Session → ℕ → ℕ → Session → Option Place → ℤ × List Session
unfolding reconnect_at
reconnect_in sessions sock j target none = (negsuc 0, sessions)
reconnect_in sessions sock j target (some place) =
    (pos 0, set sessions j (reconnect_at sock target place))

unfoldable pub reconnect_to : List Session → ℕ → List ℕ → Option ℕ → Result (ℤ × List Session)
unfolding reconnect_in
reconnect_to sessions sock connect_id none = ok (negsuc 0, sessions)
reconnect_to sessions sock connect_id (some j) = from_option (get_elem? sessions j) >>= λ target.
    ok (reconnect_in sessions sock j target (find_connect_by_id target connect_id))

unfoldable pub handle_reconnect_req :
    List Session → Session → List ℕ → List ℕ → Result (ℤ × List Session)
unfolding reconnect_to
handle_reconnect_req sessions client session_id connect_id =
    reconnect_to sessions client.main_conn.sock connect_id
      (find_client_session_by_id sessions session_id)
