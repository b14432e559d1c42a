-- ===== src/Tests/Sessions.antt =====
-- Clients of the server.
use sftt.Base.{
  ℕ, ◌+◌, ◌≡◌, refl, sym, ◌∙◌, ap, inl, inr, true, some, List, [], ◌∷◌, set, get_elem?, ok,
}
use sftt.Server.{
  Conn, Session, User, task, active, no_conn, put_session, init_sessions, max_client_num,
  accept_client, get_new_session, client_connected, find_client_session_by_id,
}
use sftt.Utils.{simplify_path}
use sftt.Version.{check_version}
use sftt.Server.Requests.{
  Env, ValidateReq, validate_req, append_conn_req, cd_req, validate_user_info, handle_cd_req,
}
use sftt.Server.Loop.{Server, initial, using_main, Event, accepts, requests, step}
use sftt.Server.Table.{LetIn, get_elem?-set_cases}
use sftt.Server.Safety.{Fresh}
use sftt.Server.Runs.{Reach, start, next, get_elem?-replicate}
use sftt.Server.Lookup.{
  find_client_session_by_id-LetIn, find_client_session_by_id-finds, Handed, append_conn-Handed,
}
use sftt.Server.Refused.{Unknown, append_conn-Unknown}

-- "jo", "/h", and a digest
abbrev jo : List ℕ
jo = b'j' ∷ b'o' ∷ []

abbrev home : List ℕ
home = b'/' ∷ b'h' ∷ []

abbrev digest : List ℕ
digest = b'9' ∷ b'0' ∷ []

abbrev user : User
user = record { uid = 7; name = jo; home_dir = home }

abbrev env : Env
env = record {
  ver = record { major = 0; minor = 1; revision = 0 };
  find_user_base_by_name = λ name. some user;
  find_user_auth_by_name = λ name. some digest;
  file_existed = λ path. true;
  chdir_to = λ path. some path;
}

abbrev conn : ℕ → Conn
conn sock = record no_conn { sock = sock; port = 4000 + sock; connect_id = b'c' ∷ sock ∷ [] }

abbrev first_event : Event
first_event = accepts home (conn 5) true

abbrev second_event : Event
second_event = accepts home (conn 6) true

abbrev request : ValidateReq
request = record {
  ver = record { major = 0; minor = 1; revision = 0 };
  name = jo;
  passwd_md5 = digest;
}

abbrev new_id : List ℕ
new_id = b's' ∷ b'1' ∷ []

abbrev third_event : Event
third_event = requests 0 (validate_req request) new_id true

abbrev guest : ℕ → Session
guest sock = accept_client home (conn sock) true

abbrev one_guest : Server
one_guest = record { sessions = set init_sessions 0 (guest 5); closed = [] }

abbrev two_guests : Server
two_guests = record { sessions = set one_guest.sessions 1 (guest 6); closed = [] }

abbrev member : Session
member = record (guest 5) { status = active; pwd = home; user = user; session_id = new_id }

abbrev one_member : Server
one_member = record {
  sessions = set (set two_guests.sessions 0 (using_main true (guest 5))) 0 member;
  closed = [];
}

-- Nobody has an id yet.
one_guest-no_id :
    (k : ℕ) (s : Session) → get_elem? one_guest.sessions k ≡ some s → s.session_id ≡ []
unfolding accept_client
one_guest-no_id k s h = elim (get_elem?-set_cases init_sessions 0 k (guest 5) s h) [
  | inl (e, same) ↦ ap (λ x. x.session_id) (sym same)
  | inr (ne, old) ↦
      ap (λ x. x.session_id) (sym (get_elem?-replicate max_client_num put_session k s old))
]

no_id : (k : ℕ) (s : Session) → get_elem? two_guests.sessions k ≡ some s → s.session_id ≡ []
unfolding accept_client
no_id k s h = elim (get_elem?-set_cases one_guest.sessions 1 k (guest 6) s h) [
  | inl (e, same) ↦ ap (λ x. x.session_id) (sym same)
  | inr (ne, old) ↦ one_guest-no_id k s old
]

new_id-Fresh : Fresh two_guests.sessions new_id
new_id-Fresh = (
  λ e. let bad : ⊥ = cc in bad,
  λ k s h e. let f : new_id ≡ [] = e ∙ no_id k s h in let bad : ⊥ = cc in bad,
)

reach_member : Reach env (third_event ∷ second_event ∷ first_event ∷ []) one_member
unfolding step validate_user_info accept_client get_new_session check_version
reach_member =
    next (next (next start first_event tt (the_first)) second_event tt the_second) third_event
      ((guest 5, refl, refl), new_id-Fresh) refl
  where
    the_first : step env initial first_event ≡ ok one_guest
    the_first = refl

    the_second : step env one_guest second_event ≡ ok two_guests
    the_second = refl

found : find_client_session_by_id one_member.sessions new_id ≡ some 0
unfolding find_client_session_by_id accept_client
found = refl

find_client_session_by_id-LetIn_example :
    (s : Session) × (get_elem? one_member.sessions 0 ≡ some s)
    × (client_connected s ≡ true)
    × (s.session_id ≡ new_id)
    × LetIn env 0 new_id s.user (third_event ∷ second_event ∷ first_event ∷ [])
find_client_session_by_id-LetIn_example =
    find_client_session_by_id-LetIn reach_member new_id 0 (λ e. let bad : ⊥ = cc in bad) found

find_client_session_by_id-finds_example :
    find_client_session_by_id one_member.sessions new_id ≡ some 0
find_client_session_by_id-finds_example =
    find_client_session_by_id-finds reach_member 0 member refl (λ e. let bad : ⊥ = cc in bad)

append_conn-Handed_example :
    (server' : Server) × (step env one_member (requests 1 (append_conn_req new_id task) jo true)
      ≡ ok server')
    × Handed one_member 1 0 (guest 6) member server'
append_conn-Handed_example =
    append_conn-Handed reach_member 1 0 (guest 6) member jo true (λ e. let bad : ⊥ = cc in bad) refl
      refl (λ e. let bad : ⊥ = cc in bad)

nobody-Unknown : Unknown one_guest.sessions jo
nobody-Unknown k s h here e =
    let f : [] ≡ jo = sym (one_guest-no_id k s h) ∙ e in let bad : ⊥ = cc in bad

append_conn-Unknown_example :
    (server' : Server) × (step env one_guest (requests 0 (append_conn_req jo task) new_id true)
      ≡ ok server')
    × (get_elem? server'.sessions 0 ≡ some put_session)
    × (server'.closed ≡ [])
append_conn-Unknown_example =
    append_conn-Unknown env one_guest 0 (guest 5) jo new_id true refl nobody-Unknown

-- A client that has not been let in changes its directory.
cd_of_guest :
    step env one_guest (requests 0 (cd_req home) new_id true)
    ≡ ok (record {
      sessions =
          set
            (set one_guest.sessions 0 (using_main true (guest 5)))
            0
            (record (guest 5) { pwd = b'/' ∷ b'h' ∷ [] });
      closed = [];
    })
unfolding step handle_cd_req accept_client simplify_path
cd_of_guest = refl

-- Before anyone is let in, the empty id finds a client.
empty_id : find_client_session_by_id one_guest.sessions [] ≡ some 0
unfolding find_client_session_by_id accept_client
empty_id = refl
