-- ===== src/Server/Verdict.antt =====
-- A client is let in only with a name and a password digest of a user whose home exists.
use sftt.Base.{
  ◌≡◌, false, ap, ◌∙◌, inl, inr, none, some, Result, ok, fault, out_of_fuel, Bool-cases,
  Option-cases,
}
use sftt.Base.Int.{is_neg}
use sftt.Base.Same.{same_bytes, same_bytes-eq}
use sftt.Version.{check_version}
use sftt.Server.{User}
use sftt.Server.Requests.{
  Env, ValidateReq, Verdict, refuses, admits, home_verdict, base_verdict, verdict,
}
use sftt.Server.Table.{Evidence}

-- An answer that admits a user stands on evidence.
abbrev pub Sound : Env → ValidateReq → Result Verdict → Type 0
Sound env req (ok (refuses status)) = Unit
Sound env req (ok (admits base)) = Evidence env req base
Sound env req fault = Unit
Sound env req out_of_fuel = Unit

home_verdict-Sound :
    (env : Env) (req : ValidateReq) (base : User)
    → env.find_user_base_by_name req.name ≡ some base
    → env.find_user_auth_by_name req.name ≡ some req.passwd_md5
    → is_neg (check_version req.ver env.ver).0 ≡ false
    → Sound env req (ok (home_verdict env base))
unfolding home_verdict
home_verdict-Sound env req base b a new = elim (Bool-cases (env.file_existed base.home_dir)) [
  | inl there ↦ rw there (record { base = b; auth = a; home = there; new = new })
  | inr missing ↦ rw missing tt
]

base_verdict-Sound :
    (env : Env) (req : ValidateReq) (base : User)
    → env.find_user_base_by_name req.name ≡ some base
    → is_neg (check_version req.ver env.ver).0 ≡ false
    → Sound env req (base_verdict env req (some base))
unfolding base_verdict
base_verdict-Sound env req base b new = elim (Option-cases (env.find_user_auth_by_name req.name)) [
  | inl none_there ↦ rw none_there tt
  | inr (passwd_md5, a) ↦ elim (Bool-cases (same_bytes passwd_md5 req.passwd_md5)) [
    | inl same ↦
        let e = same_bytes-eq passwd_md5 req.passwd_md5 same in
        rw (a, same) (home_verdict-Sound env req base b (a ∙ ap some e) new)
    | inr other ↦ rw (a, other) tt
  ]
]

base_none-Sound : (env : Env) (req : ValidateReq) → Sound env req (base_verdict env req none)
unfolding base_verdict
base_none-Sound env req = tt

pub verdict-Sound : (env : Env) (req : ValidateReq) → Sound env req (verdict env req)
unfolding verdict
verdict-Sound env req = elim (Bool-cases (is_neg (check_version req.ver env.ver).0)) [
  | inl old ↦ rw old tt
  | inr new ↦ elim (Option-cases (env.find_user_base_by_name req.name)) [
    | inl nobody ↦ rw (new, nobody) (base_none-Sound env req)
    | inr (base, b) ↦ rw (new, b) (base_verdict-Sound env req base b new)
  ]
]
