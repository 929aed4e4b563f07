-- ===== src/Account/Sessions.antt =====
-- The session that a login opens is one in the tenant of the chosen account.
use sams_backend.Base.{
  ℕ, String, [], some, Bool, string_eq, Action, pure, gets, require_that, ◌>>=◌, ◌>>◌, value_error,
  bind-steps, Returns, Returns-bind, Returns-pure, ◌≡◌, refl,
}
use sams_backend.Account.{Control, Outside, ParentRow, Session}
use sams_backend.Account.Directory.{get_or_create_identity, get_db_pool, check_parent_tenant_link}
use sams_backend.Account.Memberships.{upsert_user_tenant_map}
use sams_backend.Account.Tokens.{all_roles, create_access_token, issue_refresh_token}
use sams_backend.Account.Candidates.{Candidate}
use sams_backend.Account.Login.{
  Login, open_session, parent_login, user_login, login_of, complete_login, local_parent_id,
}
use sams_backend.Account.Genuine.{Genuine, is_admin, is_parent_of, is_user_of}

unfoldable pub Into : String → Login → Type 0
Into tenant login = login.tenant_id ≡ tenant

-- A chosen candidate becomes a session in its own tenant.
module _ (out : Outside) (email : String) (tenant : String) where
  parent_login-Into : (p : ParentRow) → Returns (Into tenant) (parent_login out email tenant p)
  unfolding parent_login Into
  parent_login-Into p =
      let made : ℕ → Login =
        λ user_id. record { user_id = user_id; tenant_id = tenant; role = "parent"; roles = [] } in
      let m4 : ℕ → Action Control Login =
        λ user_id. upsert_user_tenant_map out.now email tenant "parent" >> pure (made user_id) in
      let m3 : Action Control Login = local_parent_id email tenant p >>= m4 in
      let m2 : Action Control Login = get_db_pool out tenant >> m3 in
      let m1 : Bool → Action Control Login =
        λ linked. require_that linked (value_error "Invalid email or password") >> m2 in
      Returns-bind (Into tenant) (gets (check_parent_tenant_link p.id tenant)) m1 λ linked.
        Returns-bind (Into tenant) (require_that linked (value_error "Invalid email or password"))
          (λ _. m2)
          λ _.
            Returns-bind (Into tenant) (get_db_pool out tenant) (λ _. m3)
              λ _. Returns-bind (Into tenant) (local_parent_id email tenant p) m4 λ user_id.
                Returns-bind (Into tenant) (upsert_user_tenant_map out.now email tenant "parent")
                  (λ _. pure (made user_id)) (λ _. Returns-pure (Into tenant) (made user_id) refl)

login_of-Into :
    (out : Outside) (email : String) (s : Control) (c : Candidate)
    → Genuine email s c
    → Returns (Into c.tenant_id) (login_of out email c)
unfolding login_of user_login Into
login_of-Into out email s _ (is_admin a h) =
    Returns-pure (Into "")
      (record { user_id = a.id; tenant_id = ""; role = "super_admin"; roles = [] }) refl
login_of-Into out email s _ (is_parent_of t p h k) = parent_login-Into out email t p
login_of-Into out email s _ (is_user_of t u h) =
    let made : Login = record {
      user_id = u.id;
      tenant_id = t;
      role = u.role;
      roles = all_roles u;
    } in
    Returns-bind (Into t) (upsert_user_tenant_map out.now email t u.role) (λ _. pure made)
      (λ _. Returns-pure (Into t) made refl)

-- A session that is valid in one tenant.
abbrev pub SessionIn : String → Session → Type 0
SessionIn tenant made = made.access_token.tenant_id ≡ tenant

pub open_session-SessionIn :
    (out : Outside) (email : String) (identity_id : ℕ) (tenant : String) (login : Login)
    → Into tenant login
    → Returns (SessionIn tenant) (open_session out email identity_id login)
unfolding open_session create_access_token Into
open_session-SessionIn out email identity_id tenant login h =
    let made : String → Session = λ refresh_token. record {
      access_token =
          create_access_token out login.user_id login.tenant_id login.role email login.roles
            (some identity_id);
      refresh_token = refresh_token;
    } in
    Returns-bind (SessionIn tenant) (issue_refresh_token out identity_id login.tenant_id login.role)
      (λ token. pure (made token)) (λ token. Returns-pure (SessionIn tenant) (made token) h)

pub complete_login-SessionIn :
    (out : Outside) (email : String) (v : Control) (c : Candidate)
    → Genuine email v c
    → Returns (SessionIn c.tenant_id) (complete_login out email c)
unfolding complete_login
complete_login-SessionIn out email v c g s s' made h =
    let (identity, t) = get_or_create_identity email s in
    let (login, u, first, rest) =
      bind-steps (login_of out email c) (open_session out email identity.id) t s' made h in
    open_session-SessionIn out email identity.id c.tenant_id login
      (login_of-Into out email v c g t u login first) u s' made rest
