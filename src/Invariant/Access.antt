-- ===== src/Invariant/Access.antt =====
-- The requests of /auth and /users keep whatever their statements keep.
use ats_proxy_manager.Prelude.{ℕ, Bool, Option, none, some, Str}
use ats_proxy_manager.Domain.Enums.{Error, UserRole, not_found}
use ats_proxy_manager.Domain.Models.{User, Session}
use ats_proxy_manager.Runtime.{Runtime}
use ats_proxy_manager.Auth.{Crypto, TokenIds}
use ats_proxy_manager.Store.{
  Db, World, Result, ok, err, M, guard, or_raise, statement, ignore, ◌>>=◌,
}
use ats_proxy_manager.Store.Sat.{
  Keeps, Post, Sat-bind, Sat-guard, Sat-or_raise, Sat-pure, Sat-ignore, Sat-get_now, Sat-then,
}
use ats_proxy_manager.Repository.Sat.{Sat-read}
use ats_proxy_manager.Repository.UserRepo
use ats_proxy_manager.Repository.SessionRepo
use ats_proxy_manager.Repository.AuditRepo
use ats_proxy_manager.Repository.SessionRepo.{is_live}
use ats_proxy_manager.Prelude.Table.{select_first}
use ats_proxy_manager.Handler.Answer.{bad_request_answer, respond-Sat}
use ats_proxy_manager.Handler.Middleware.{Context, Passage, refused, passed, require_role}
use ats_proxy_manager.Handler.AuthHandler
use ats_proxy_manager.Handler.UserHandler
use ats_proxy_manager.Handler.UserHandler.{caller_of, update_parsed, delete_parsed}
use ats_proxy_manager.Server.Access.{
  UserRequest, AccessRequest, login, refresh, beacon, logout, users, on_passage, admins,
  serve_users, serve_access, authenticated,
}
use ats_proxy_manager.Service.AuthService
use ats_proxy_manager.Service.AuthService.{as_error, failed_as, done_on_error}
use ats_proxy_manager.Service.ConfigService.Edit.{Caller}
use ats_proxy_manager.Service.UserService
use ats_proxy_manager.Service.UserService.{log_audit}

module _ {P : Db → Type 0} where
  pub as_error-Keeps : {A : Type 0} (m : M A) (e : Error) → Keeps P m → Keeps P (as_error m e)
  unfolding as_error
  as_error-Keeps {A} m e s = record { at = λ w p. of_outcome (m w) (s.at w p) }
    where
      of_outcome : (o : Result A × World) → Post P (λ _. P) o → Post P (λ _. P) (failed_as e o)
      of_outcome (ok a, w) h = h
      of_outcome (err x, w) h = h

  -- A query for one row.
  pub get-Keeps :
      {A : Type 0} (g : ℕ → Db → Option A) (e : Error)
      → Keeps P (statement (λ now db. some (g now db, db)) >>= λ found. or_raise found e)
  get-Keeps g e =
      Sat-then _ _ (λ db p. p) (Sat-read g (λ db p. p))
        λ found. Sat-or_raise found e (λ db p. p) (λ a db _ p. p)

  guard-Keeps : (b : Bool) (e : Error) → Keeps P (guard b e)
  guard-Keeps b e = Sat-guard b e (λ db p. p) (λ db _ p. p)

  or_raise-Keeps : {A : Type 0} (o : Option A) (e : Error) → Keeps P (or_raise o e)
  or_raise-Keeps o e = Sat-or_raise o e (λ db p. p) (λ a db _ p. p)

  bad-Keeps : {A : Type 0} → Keeps P (bad_request_answer {B = A})
  unfolding bad_request_answer
  bad-Keeps = Sat-pure _ (λ db p. p)

-- The statements about sessions.
pub record SessionsKeep (P : Db → Type 0) : Type 0 where
  pub last_login : (id : ℕ) → Keeps P (UserRepo.update_last_login id)
  pub begin : (s : SessionRepo.NewSession) → Keeps P (SessionRepo.create s)
  pub renew : (id expiry : ℕ) → Keeps P (SessionRepo.update_beacon id expiry)
  pub retoken :
      (id : ℕ) (hash : Str) (expiry : ℕ) → Keeps P (SessionRepo.update_tokens id hash expiry)
  pub revoke : (id : ℕ) → Keeps P (SessionRepo.revoke id)

-- The statements about users.
pub record UsersKeep (P : Db → Type 0) : Type 0 where
  pub create : (u : UserRepo.NewUser) → Keeps P (UserRepo.create u)
  pub update : (u : User) → Keeps P (UserRepo.update u)
  pub delete : (id : ℕ) → Keeps P (UserRepo.delete id)
  pub audit : (e : AuditRepo.Entry) → Keeps P (AuditRepo.create e)

module _ {P : Db → Type 0} (rt : Runtime) (crypto : Crypto) (keep : UsersKeep P) where
  log-Keeps : (by : Caller) (action : Str) (id : ℕ) → Keeps P (log_audit by action id)
  unfolding log_audit
  log-Keeps by action id = Sat-ignore _ (keep.audit _)

  create-Keeps :
      (req : UserService.CreateUserRequest) (salt : ℕ) (role : UserRole) (by : Caller)
      → Keeps P (UserService.create crypto req salt role by)
  unfolding UserService.create
  create-Keeps req salt role by = Sat-bind _ _ (guard-Keeps _ _) λ _.
      Sat-bind _ _ (guard-Keeps _ _) λ _. Sat-bind _ _ (guard-Keeps _ _) λ _.
        Sat-bind _ _ (or_raise-Keeps _ _) λ hash.
          Sat-bind _ _ (keep.create _)
            λ user. Sat-bind _ _ (log-Keeps by _ user.id) λ _. Sat-pure user (λ db p. p)

  update-Keeps :
      (id : ℕ) (req : UserService.UpdateUserRequest) (role : UserRole) (by : Caller)
      → Keeps P (UserService.update id req role by)
  unfolding UserService.update UserRepo.get_by_id
  update-Keeps id req role by = Sat-bind _ _ (get-Keeps _ _) λ user.
      Sat-bind _ _ (guard-Keeps _ _) λ _.
        Sat-bind _ _ (keep.update _)
          λ _. Sat-bind _ _ (log-Keeps by _ id) λ _. Sat-pure _ (λ db p. p)

  delete-Keeps : (id : ℕ) (role : UserRole) (by : Caller) → Keeps P (UserService.delete id role by)
  unfolding UserService.delete
  delete-Keeps id role by =
      Sat-bind _ _ (guard-Keeps _ _) λ _.
        Sat-bind _ _ (guard-Keeps _ _) λ _. Sat-bind _ _ (keep.delete id) λ _. log-Keeps by _ id

  pub serve_users-Keeps :
      (r : UserRequest) (ip ua : Str) (ctx : Context) → Keeps P (serve_users rt crypto r ip ua ctx)
  unfolding serve_users UserHandler.create UserHandler.update UserHandler.delete bad_request_answer
  serve_users-Keeps (UserRequest.create none salt) ip ua ctx = Sat-ignore _ bad-Keeps
  serve_users-Keeps (UserRequest.create (some req) salt) ip ua ctx =
      Sat-ignore _ (respond-Sat _ _ _ _ (create-Keeps req salt ctx.role _))
  serve_users-Keeps (UserRequest.update i body) ip ua ctx = of_update (rt.uuid_parse i) body
    where
      of_update :
          (o : Option ℕ) (b : Option UserService.UpdateUserRequest)
          → Keeps P (ignore (update_parsed rt o b ctx ip ua))
      of_update none b = Sat-ignore _ bad-Keeps
      of_update (some i) none = Sat-ignore _ bad-Keeps
      of_update (some i) (some req) =
          Sat-ignore _ (respond-Sat _ _ _ _ (update-Keeps i req ctx.role _))
  serve_users-Keeps (UserRequest.delete i) ip ua ctx = of_delete (rt.uuid_parse i)
    where
      of_delete : (o : Option ℕ) → Keeps P (ignore (delete_parsed rt o ctx ip ua))
      of_delete none = Sat-ignore _ bad-Keeps
      of_delete (some i) = Sat-ignore _ (respond-Sat _ _ _ _ (delete-Keeps i ctx.role _))

-- Beacons and logouts need no more than this.
module _ {P : Db → Type 0} (renew : (id expiry : ℕ) → Keeps P (SessionRepo.update_beacon id expiry))
    (revoke : (id : ℕ) → Keeps P (SessionRepo.revoke id)) where
  pub beacon-Keeps : (hash : Str) → Keeps P (AuthService.beacon hash)
  unfolding AuthService.beacon SessionRepo.get_by_token_hash
  beacon-Keeps hash =
      Sat-bind _ _ (as_error-Keeps _ _ (get-Keeps _ _))
        λ session. Sat-bind _ _ Sat-get_now λ now. renew session.id _

  pub logout-Keeps : (hash : Str) → Keeps P (AuthService.logout hash)
  unfolding AuthService.logout SessionRepo.get_by_token_hash
  logout-Keeps hash = record {
    at = λ w p.
        of_outcome (SessionRepo.get_by_token_hash hash w)
          ((get-Keeps (λ now db. select_first (is_live hash now) db.sessions) not_found).at w p);
  }
    where
      of_outcome :
          (o : Result Session × World)
          → Post P (λ _. P) o
          → Post P (λ _. P) (done_on_error (λ s. SessionRepo.revoke s.id) o)
      of_outcome (ok s, w) p = (revoke s.id).at w p
      of_outcome (err x, w) p = p

module _ {P : Db → Type 0} (rt : Runtime) (crypto : Crypto) (secret : Str)
    (keep : SessionsKeep P) where
  login-Keeps :
      (email password ip ua : Str) (ids : TokenIds)
      → Keeps P (AuthService.login rt crypto secret email password ip ua ids)
  unfolding AuthService.login UserRepo.get_by_email
  login-Keeps email password ip ua ids = Sat-bind _ _ (as_error-Keeps _ _ (get-Keeps _ _)) λ user.
      Sat-bind _ _ (guard-Keeps _ _) λ _. Sat-bind _ _ (guard-Keeps _ _) λ _.
        Sat-bind _ _ Sat-get_now λ now. Sat-bind _ _ (or_raise-Keeps _ _) λ tokens.
          Sat-bind _ _ (keep.begin _)
            λ _. Sat-bind _ _ (Sat-ignore _ (keep.last_login user.id)) λ _. Sat-pure _ (λ db p. p)

  refresh-Keeps :
      (token : Str) (ids : TokenIds) → Keeps P (AuthService.refresh rt crypto secret token ids)
  unfolding AuthService.refresh SessionRepo.get_by_refresh_token_hash UserRepo.get_by_id
  refresh-Keeps token ids = Sat-bind _ _ Sat-get_now λ now.
      Sat-bind _ _ (or_raise-Keeps _ _) λ user_id.
        Sat-bind _ _ (as_error-Keeps _ _ (get-Keeps _ _)) λ session.
          Sat-bind _ _ (as_error-Keeps _ _ (get-Keeps _ _)) λ user.
            Sat-bind _ _ (or_raise-Keeps _ _)
              λ tokens. Sat-bind _ _ (keep.retoken session.id _ _) λ _. Sat-pure _ (λ db p. p)

  pub passage-Keeps :
      (p : Passage) (h : Context → M (Unit {0}))
      → ((ctx : Context) → Keeps P (h ctx))
      → Keeps P (on_passage p h)
  passage-Keeps (refused status error) h k = Sat-pure tt (λ db p. p)
  passage-Keeps (passed ctx) h k = k ctx

  pub authenticated-Keeps :
      (header : Str) (h : Context → M (Unit {0}))
      → ((ctx : Context) → Keeps P (h ctx))
      → Keeps P (authenticated rt crypto secret header h)
  unfolding authenticated
  authenticated-Keeps header h k = Sat-bind _ _ Sat-get_now λ now. passage-Keeps _ h k

  -- A request keeps what its statements about sessions keep, and what the requests of /users keep.
  pub serve_access-Keeps :
      (r : AccessRequest) (ip ua : Str)
      → ((u : UserRequest) (ctx : Context) → Keeps P (serve_users rt crypto u ip ua ctx))
      → Keeps P (serve_access rt crypto secret r ip ua)
  unfolding serve_access AuthHandler.login AuthHandler.refresh AuthHandler.beacon AuthHandler.logout
      bad_request_answer
  serve_access-Keeps (login none ids) ip ua k = Sat-ignore _ bad-Keeps
  serve_access-Keeps (login (some body) ids) ip ua k =
      Sat-ignore _ (respond-Sat _ _ _ _ (login-Keeps body.email body.password ip ua ids))
  serve_access-Keeps (refresh none ids) ip ua k = Sat-ignore _ bad-Keeps
  serve_access-Keeps (refresh (some token) ids) ip ua k =
      Sat-ignore _ (respond-Sat _ _ _ _ (refresh-Keeps token ids))
  serve_access-Keeps (beacon header) ip ua k =
      authenticated-Keeps header _
        λ ctx. Sat-ignore _ (respond-Sat _ _ _ _ (beacon-Keeps keep.renew keep.revoke _))
  serve_access-Keeps (logout header) ip ua k = authenticated-Keeps header _ λ ctx. Sat-ignore _ (
      Sat-bind _ _ (Sat-ignore _ (logout-Keeps keep.renew keep.revoke _))
        λ _. Sat-pure _ (λ db p. p))
  serve_access-Keeps (users r header) ip ua k =
      authenticated-Keeps header _ λ ctx. passage-Keeps (require_role admins ctx) _ (k r)
