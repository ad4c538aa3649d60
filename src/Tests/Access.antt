-- ===== src/Tests/Access.antt =====
-- A login, a logout and the requests of /users, on tables with two users.
use ats_proxy_manager.Prelude.{
  List, ℕ, ◌+◌, ◌*◌, ◌/◌, ◌++◌, ltb, Bool, true, false, Option, none, some, [], ◌∷◌, ◌≡◌, refl,
  codes, Str, str_eq,
}
use ats_proxy_manager.Prelude.Table.{select_first, some_row, find, update_where}
use ats_proxy_manager.Domain.Enums.{UserRole, UserRole_is_valid, unauthorized}
use ats_proxy_manager.Domain.Models.{User, Session}
use ats_proxy_manager.Store.{
  Db, World, Result, ok, err, idle, pure, guard, or_raise, statement, get_now, ignore, ◌>>=◌,
}
use ats_proxy_manager.Repository.Keys.{find_user}
use ats_proxy_manager.Repository.ProxyRepo.{second, minute}
use ats_proxy_manager.Repository.UserRepo
use ats_proxy_manager.Repository.SessionRepo
use ats_proxy_manager.Repository.AuditRepo
use ats_proxy_manager.Service.UserService
use ats_proxy_manager.Repository.SessionRepo.{is_live, session_row}
use ats_proxy_manager.Auth.{TokenIds, generate_token, parse_token, token_expiry, refresh_expiry}
use ats_proxy_manager.Handler.Middleware.{bearer, auth_middleware, passed, refused, require_role}
use ats_proxy_manager.Handler.Middleware.Bearer.{context_of, nobody, auth_middleware-generate_token}
use ats_proxy_manager.Handler.UserHandler
use ats_proxy_manager.Handler.Answer.{respond}
use ats_proxy_manager.Handler.UserHandler.{caller_of}
use ats_proxy_manager.Server.{initial, after_access}
use ats_proxy_manager.Server.Access.{
  UserRequest, AccessRequest, serve_users, serve_access, authenticated,
}
use ats_proxy_manager.Service.AuthService
use ats_proxy_manager.Service.AuthService.{LoginResponse, as_error}
use ats_proxy_manager.Laws.Users.{Allowed}
use ats_proxy_manager.Laws.UserRoutes.{serve-Allowed}
use ats_proxy_manager.Laws.Sessions.{LoggedIn, login-LoggedIn}
use ats_proxy_manager.Laws.Logout.{OnlyOpen, SessionCall, after_calls, calm_at, logout-beacon}
use ats_proxy_manager.Laws.Revocation.{Revoked, access-Revoked, is_root_user, access_root}
use ats_proxy_manager.Tests.Samples.{sample, sample_uuid}
use ats_proxy_manager.Tests.Story.{admin}
use ats_proxy_manager.Tests.Tokens.{plain_tokens, plain_tokens-ReadsSigned}

abbrev alice : User
alice = record {
  id = 1;
  username = codes "alice";
  email = codes "a@x";
  password_hash = 7 ∷ codes "pw";
  role = UserRole.admin;
  created_at = 0;
  updated_at = 0;
  last_login = none;
  is_active = true;
}

abbrev two_users : Db
two_users = initial (admin ∷ alice ∷ []) 2

abbrev ids : TokenIds
ids = record { access = 5; refresh = 6 }

abbrev secret : Str
secret = codes "s"

abbrev world : World
world = record { db = two_users; faults = []; now = 10; tx = idle }

abbrev login_run : Result LoginResponse × World
login_run =
    AuthService.login sample plain_tokens secret (codes "a@x") (codes "pw") (codes "ip")
      (codes "ua") ids world

abbrev is_ok : Result LoginResponse × World → Bool
is_ok (ok r, w) = true
is_ok (err e, w) = false

abbrev response : Result LoginResponse × World → LoginResponse
response (ok r, w) = r
response (err e, w) = record {
  token = [];
  refresh_token = [];
  expires_in = 0;
  user = record { id = []; email = []; username = []; role = UserRole.root };
}

outcome : (o : Result LoginResponse × World) → is_ok o ≡ true → o ≡ (ok (response o), o.1)
outcome (ok r, w) h = refl
outcome (err e, w) h = cc h

login_ok : is_ok login_run ≡ true
unfolding AuthService.login UserRepo.get_by_email SessionRepo.create UserRepo.update_last_login
    initial as_error ◌>>=◌ guard or_raise statement get_now ignore pure generate_token plain_tokens
    select_first some_row str_eq
login_ok = refl

login-LoggedIn_example :
    LoggedIn sample plain_tokens secret
      (codes "a@x")
      (codes "pw")
      ids
      two_users.users
      (response login_run)
      login_run.1.db
login-LoggedIn_example =
    login-LoggedIn sample plain_tokens secret (codes "a@x") (codes "pw") (codes "ip") (codes "ua")
      ids world login_run.1 (response login_run) (outcome login_run login_ok)

abbrev or_empty : Option (Str × Str) → Str × Str
or_empty none = ([], [])
or_empty (some ts) = ts

abbrev tokens : Str × Str
tokens = or_empty (generate_token sample plain_tokens secret alice ids 10)

generated : generate_token sample plain_tokens secret alice ids 10 ≡ some tokens
unfolding generate_token plain_tokens
generated = refl

in_time : ltb (20 * minute) ((10 + token_expiry) / second * second) ≡ true
unfolding token_expiry
in_time = refl

in_a_day : ltb (20 * minute) ((10 + refresh_expiry) / second * second) ≡ true
unfolding refresh_expiry
in_a_day = refl

auth_middleware-generate_token_example :
    (auth_middleware plain_tokens secret (20 * minute) (bearer ++ tokens.0)
      ≡ passed (context_of alice tokens.0))
    × ((auth_middleware plain_tokens secret (20 * minute) (bearer ++ tokens.1)
          ≡ passed (nobody tokens.1))
        × (require_role (UserRole.root ∷ UserRole.admin ∷ []) (nobody tokens.1)
            ≡ refused 403 (codes "forbidden")))
auth_middleware-generate_token_example =
    auth_middleware-generate_token sample plain_tokens secret alice ids 10 tokens.0 tokens.1
      (20 * minute) (20 * minute) (plain_tokens-ReadsSigned secret) sample_uuid generated in_time
      in_a_day

-- An admin promotes itself to root.
abbrev promotion : UserRequest
promotion =
    UserRequest.update (1 ∷ [])
      (some (record { username = none; email = none; role = some UserRole.root }))

serve-Allowed_example :
    Allowed UserRole.admin
      (caller_of (context_of alice []) (codes "ip") (codes "ua"))
      1
      (find_user 1 two_users)
      (find_user 1
        (serve_users sample plain_tokens promotion
          (codes "ip")
          (codes "ua")
          (context_of alice [])
          world).1.db)
serve-Allowed_example =
    serve-Allowed sample plain_tokens promotion (context_of alice []) (codes "ip") (codes "ua") 1
      world

-- A session of alice for the hash "t".
abbrev session : Option ℕ → Session
session revoked_at = record {
  id = 9;
  user_id = 1;
  token_hash = codes "t";
  refresh_token_hash = none;
  ip_address = none;
  user_agent = none;
  last_beacon = 10;
  expires_at = 100;
  created_at = 10;
  revoked_at = revoked_at;
}

abbrev with_session : Option ℕ → Db
with_session revoked_at = record two_users { sessions = session revoked_at ∷ [] }

only_open : OnlyOpen (codes "t") 20 (with_session none).sessions
unfolding some_row select_first str_eq
only_open = (session none, refl, refl)

-- Another holder's beacon, and one with the same token.
abbrev others : List (SessionCall × ℕ × List Bool)
others = (SessionCall.beacon (codes "u"), 22, []) ∷ (SessionCall.beacon (codes "t"), 25, []) ∷ []

logout-beacon_example :
    let after =
      after_calls others (AuthService.logout (codes "t") (calm_at 20 (with_session none))).1.db in
    let again =
      AuthService.beacon (codes "t") (record { db = after; faults = []; now = 30; tx = idle }) in
    (again.0 ≡ err unauthorized) × (again.1.db ≡ after)
logout-beacon_example = logout-beacon (codes "t") 20 30 others [] (with_session none) only_open

revoked : Revoked 9 1 (with_session (some 15))
unfolding find
revoked = (session (some 15), (refl, (refl, refl)))

access-Revoked_example : Revoked 9 1 (
    after_access sample plain_tokens secret
      (AccessRequest.beacon (bearer ++ tokens.0))
      (codes "ip")
      (codes "ua")
      []
      20
      (with_session (some 15)))
access-Revoked_example =
    access-Revoked sample plain_tokens secret (AccessRequest.beacon (bearer ++ tokens.0))
      (codes "ip") (codes "ua") [] 20 (with_session (some 15)) 9 1 revoked

-- An admin renames root.
abbrev renaming : AccessRequest
renaming =
    AccessRequest.users
      (UserRequest.update (0 ∷ [])
        (some (record { username = some (codes "r"); email = none; role = none })))
      (bearer ++ tokens.0)

still_root :
    is_root_user (
      find_user 0 (
        after_access sample plain_tokens secret renaming (codes "ip") (codes "ua") [] 20 two_users))
    ≡ true
unfolding after_access initial find serve_access authenticated ◌>>=◌ get_now auth_middleware
    parse_token plain_tokens generate_token require_role serve_users ignore pure UserHandler.update
    respond statement UserRepo.get_by_id UserRepo.update sample UserService.update or_raise guard
    UserRole_is_valid some_row str_eq UserService.log_audit AuditRepo.create update_where
still_root = refl

access_root_example : is_root_user (find_user 0 two_users) ≡ true
access_root_example =
    access_root sample plain_tokens secret renaming (codes "ip") (codes "ua") [] 20 two_users 0
      still_root
