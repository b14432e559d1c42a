-- ===== src/Server/Table.antt =====
-- What holds of the table of sessions, and what keeps it when one session changes.
use sftt.Base.{
  ℕ, zero, suc, ◌≡◌, ◌≢◌, ◌⊎◌, refl, ap, sym, ◌∙◌, inl, inr, Bool, true, false, ◌||◌, some,
  none_not, some_inj, List, [], ◌∷◌, set, get_elem?, subst,
}
use sftt.Base.Int.{is_neg}
use sftt.Version.{check_version}
use native.Mathlib.Nat.{suc_inj}
use sftt.Server.{User, Session, is_active, client_connected}
use sftt.Server.Requests.{
  ValidateReq, Env, Request, validate_req, append_conn_req, reconnect_req, cd_req, other_req,
}
use sftt.Server.Loop.{Event, accepts, requests, disconnects}

-- The request names the user, its digest is the user's, and its version is served.
pub record Evidence (env : Env) (req : ValidateReq) (user : User) : Type 0 where
  pub base : env.find_user_base_by_name req.name ≡ some user
  pub auth : env.find_user_auth_by_name req.name ≡ some req.passwd_md5
  pub home : env.file_existed user.home_dir ≡ true
  pub new : is_neg (check_version req.ver env.ver).0 ≡ false

-- The client goes on after its request.
abbrev pub GoesOn : Request → Bool → Type 0
GoesOn (validate_req req) sent = sent ≡ true
GoesOn (append_conn_req id type) sent = ⊥
GoesOn (reconnect_req id connect_id) sent = ⊥
GoesOn (cd_req path) sent = Unit
GoesOn other_req sent = Unit

-- The event is not the end of the client whose session is at `i`.
abbrev pub Stays : ℕ → Event → Type 0
Stays i (accepts ip conn launched) = Unit
Stays i (disconnects j) = j ≢ i
Stays i (requests j req session_id sent) = (j ≢ i) ⊎ GoesOn req sent

-- The client at `i` has been let in under the session id, at a request with the evidence for the
-- user, and has stayed since then. The last event stands first.
pub data LetIn (env : Env) (i : ℕ) (session_id : List ℕ) (user : User) : List Event → Type 0 where
  now :
      (log : List Event) (req : ValidateReq)
      → Evidence env req user
      → LetIn env i session_id user (requests i (validate_req req) session_id true ∷ log)
  still :
      (log : List Event) (e : Event)
      → Stays i e
      → LetIn env i session_id user log
      → LetIn env i session_id user (e ∷ log)

-- What holds of a member: its index, its session id and its user.
abbrev pub Member : Env → List Event → ℕ → List ℕ → User → Type 0
Member env log i session_id user = LetIn env i session_id user log

-- It holds of the members at the other indices.
abbrev pub Others : ℕ → (ℕ → List ℕ → User → Type 0) → ℕ → List ℕ → User → Type 0
Others i P k session_id user = i ≢ k → P k session_id user

pub record Shape (P : List ℕ → User → Type 0) (s : Session) : Type 0 where
  pub free : client_connected s ≡ false → s.session_id ≡ []
  pub member : s.session_id ≢ [] → P s.session_id s.user

pub record WellFormed (P : ℕ → List ℕ → User → Type 0) (sessions : List Session) : Type 0 where
  pub shapes : (i : ℕ) (s : Session) → get_elem? sessions i ≡ some s → Shape (P i) s
  pub unique :
      (i j : ℕ) (s t : Session)
      → get_elem? sessions i ≡ some s
      → get_elem? sessions j ≡ some t
      → s.session_id ≡ t.session_id
      → s.session_id ≢ []
      → i ≡ j

pub get_elem?-set_cases :
    (xs : List Session) (i j : ℕ) (v s : Session)
    → get_elem? (set xs i v) j ≡ some s
    → ((i ≡ j) × (v ≡ s)) ⊎ ((i ≢ j) × (get_elem? xs j ≡ some s))
get_elem?-set_cases [] i j v s h = absurd (none_not h)
get_elem?-set_cases (x ∷ xs) zero zero v s h = inl (refl, some_inj h)
get_elem?-set_cases (x ∷ xs) zero (suc j) v s h = inr ((λ e. let bad : ⊥ = cc in bad), h)
get_elem?-set_cases (x ∷ xs) (suc i) zero v s h = inr ((λ e. let bad : ⊥ = cc in bad), h)
get_elem?-set_cases (x ∷ xs) (suc i) (suc j) v s h = elim (get_elem?-set_cases xs i j v s h) [
  | inl (e, same) ↦ inl (ap suc e, same)
  | inr (ne, old) ↦ inr ((λ e. ne (suc_inj e)), old)
]

module _ {P : ℕ → List ℕ → User → Type 0} where
  pub WellFormed-set :
      (sessions : List Session) (i : ℕ) (v : Session)
      → WellFormed P sessions
      → Shape (P i) v
      → ((k : ℕ) (s : Session)
          → i ≢ k
          → get_elem? sessions k ≡ some s
          → v.session_id ≢ []
          → v.session_id ≢ s.session_id)
      → WellFormed P (set sessions i v)
  WellFormed-set sessions i v wf shape apart = record {
    shapes = λ k s h. elim (get_elem?-set_cases sessions i k v s h) [
      | inl (e, same) ↦ subst (Shape (P k)) same (subst (λ n. Shape (P n) v) e shape)
      | inr (ne, old) ↦ wf.shapes k s old
    ];
    unique = λ k l s t hk hl same some_id. elim (get_elem?-set_cases sessions i k v s hk) [
      | inl (ek, vs) ↦ elim (get_elem?-set_cases sessions i l v t hl) [
        | inl (el, vt) ↦ sym ek ∙ el
        | inr (nl, oldl) ↦ absurd (
            apart l t nl oldl (λ e. some_id (ap (λ x. x.session_id) (sym vs) ∙ e))
              (ap (λ x. x.session_id) vs ∙ same))
      ]
      | inr (nk, oldk) ↦ elim (get_elem?-set_cases sessions i l v t hl) [
        | inl (el, vt) ↦ absurd (
            apart k s nk oldk (λ e. some_id (same ∙ ap (λ x. x.session_id) (sym vt) ∙ e))
              (ap (λ x. x.session_id) vt ∙ sym same))
        | inr (nl, oldl) ↦ wf.unique k l s t oldk oldl same some_id
      ]
    ];
  }

  -- A session that keeps its id, its user and its status.
  pub WellFormed-keep :
      (sessions : List Session) (i : ℕ) (old v : Session)
      → WellFormed P sessions
      → get_elem? sessions i ≡ some old
      → v.session_id ≡ old.session_id
      → v.user ≡ old.user
      → v.status ≡ old.status
      → WellFormed P (set sessions i v)
  WellFormed-keep sessions i old v wf at id user status =
      let shape = wf.shapes i old at in
      WellFormed-set sessions i v wf
        (record {
          free =
              λ e. id ∙ shape.free (subst (λ st. (is_active st || is_active st) ≡ false) status e);
          member = λ some_id.
              subst (λ u. P i v.session_id u) (sym user)
                (subst (λ x. P i x old.user) (sym id) (shape.member (λ e. some_id (id ∙ e))));
        })
        (λ k s ne other some_id same.
          ne (wf.unique i k old s at other (sym id ∙ same) (λ e. some_id (id ∙ e))))

  -- A session without an id.
  pub WellFormed-blank :
      (sessions : List Session) (i : ℕ) (v : Session)
      → WellFormed P sessions
      → v.session_id ≡ []
      → WellFormed P (set sessions i v)
  WellFormed-blank sessions i v wf blank =
      WellFormed-set sessions i v wf
        (record { free = λ e. blank; member = λ some_id. absurd (some_id blank) })
        (λ k s ne other some_id. absurd (some_id blank))

-- What one knows of members may be exchanged for less.
pub WellFormed-weaken :
    {P Q : ℕ → List ℕ → User → Type 0}
    → ((k : ℕ) (id : List ℕ) (user : User) → P k id user → Q k id user)
    → (sessions : List Session) → WellFormed P sessions
    → WellFormed Q sessions
WellFormed-weaken f sessions wf = record {
  shapes = λ k s h.
      let shape = wf.shapes k s h in
      record {
        free = shape.free;
        member = λ some_id. f k s.session_id s.user (shape.member some_id);
      };
  unique = wf.unique;
}

-- Where nothing is known of the session at `i`, that session is put back.
pub WellFormed-blank_at :
    {P : ℕ → List ℕ → User → Type 0}
    → (sessions : List Session) (i : ℕ) (v : Session) → WellFormed (Others i P) sessions
    → v.session_id ≡ []
    → WellFormed P (set sessions i v)
WellFormed-blank_at {P} sessions i v wf blank =
    let w = WellFormed-blank {P = Others i P} sessions i v wf blank in
    record {
      shapes = λ k s h. elim (get_elem?-set_cases sessions i k v s h) [
        | inl (e, same) ↦
            subst (Shape (P k)) same
              (record { free = λ e. blank; member = λ some_id. absurd (some_id blank) })
        | inr (ne, old) ↦
            let shape = wf.shapes k s old in
            record { free = shape.free; member = λ some_id. shape.member some_id ne }
      ];
      unique = w.unique;
    }
