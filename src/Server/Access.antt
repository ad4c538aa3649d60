-- ===== src/Server/Access.antt =====
-- The requests about login and users that backend/internal/handler/router.go routes: those of /auth
-- are for anyone or for any caller, those of /users pass `RequireRole` first.
use ats_proxy_manager.Prelude.{ℕ, Option, List, [], ◌∷◌, Str}
use ats_proxy_manager.Domain.Enums.{UserRole}
use ats_proxy_manager.Runtime.{Runtime}
use ats_proxy_manager.Auth.{Crypto, TokenIds}
use ats_proxy_manager.Store.{M, pure, ignore, get_now, ◌>>=◌}
use ats_proxy_manager.Handler.Middleware.{
  Context, Passage, refused, passed, auth_middleware, require_role,
}
use ats_proxy_manager.Handler.AuthHandler
use ats_proxy_manager.Handler.AuthHandler.{LoginBody}
use ats_proxy_manager.Handler.UserHandler
use ats_proxy_manager.Service.UserService.{CreateUserRequest, UpdateUserRequest}

-- The salt is what bcrypt draws.
pub data UserRequest : Type 0 where
  create : Option CreateUserRequest → ℕ → UserRequest
  update : Str → Option UpdateUserRequest → UserRequest
  delete : Str → UserRequest

pub data AccessRequest : Type 0 where
  login : Option LoginBody → TokenIds → AccessRequest
  refresh : Option Str → TokenIds → AccessRequest
  -- with the header `Authorization`
  beacon logout : Str → AccessRequest
  users : UserRequest → Str → AccessRequest

abbrev pub admins : List UserRole
admins = UserRole.root ∷ UserRole.admin ∷ []

abbrev pub on_passage : Passage → (Context → M (Unit {0})) → M (Unit {0})
on_passage (refused status error) h = pure tt
on_passage (passed ctx) h = h ctx

module _ (rt : Runtime) (crypto : Crypto) where
  unfoldable pub serve_users : UserRequest → Str → Str → Context → M (Unit {0})
  serve_users (create body salt) ip ua ctx =
      ignore (UserHandler.create rt crypto body salt ctx ip ua)
  serve_users (update id body) ip ua ctx = ignore (UserHandler.update rt id body ctx ip ua)
  serve_users (delete id) ip ua ctx = ignore (UserHandler.delete rt id ctx ip ua)

  module _ (secret : Str) where
    -- The routes behind `AuthMiddleware`.
    unfoldable pub authenticated : Str → (Context → M (Unit {0})) → M (Unit {0})
    authenticated header h = do
      now ← get_now
      on_passage (auth_middleware crypto secret now header) h

    -- What is answered is left out. `ip` and `ua` are those of the request.
    unfoldable pub serve_access : AccessRequest → Str → Str → M (Unit {0})
    serve_access (login body ids) ip ua = ignore (AuthHandler.login rt crypto secret body ids ip ua)
    serve_access (refresh body ids) ip ua = ignore (AuthHandler.refresh rt crypto secret body ids)
    serve_access (beacon header) ip ua =
        authenticated header λ ctx. ignore (AuthHandler.beacon rt ctx)
    serve_access (logout header) ip ua =
        authenticated header λ ctx. ignore (AuthHandler.logout rt ctx)
    serve_access (users r header) ip ua =
        authenticated header λ ctx. on_passage (require_role admins ctx) (serve_users r ip ua)
