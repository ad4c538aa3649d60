-- ===== src/Laws/UserRoutes.antt =====
-- Whom the routes of /users let add, change and switch off: backend/internal/handler/user_handler.go.
use ats_proxy_manager.Prelude.{ℕ, Option, none, some, refl, Str}
use ats_proxy_manager.Domain.Models.{User}
use ats_proxy_manager.Auth.{Crypto}
use ats_proxy_manager.Store.{World, ignore, pure}
use ats_proxy_manager.Store.Outcomes.{Sat-db}
use ats_proxy_manager.Repository.Keys.{find_user}
use ats_proxy_manager.Service.ConfigService.Edit.{Caller}
use ats_proxy_manager.Runtime.{Runtime}
use ats_proxy_manager.Handler.Answer.{respond, bad_request_answer, respond-Sat}
use ats_proxy_manager.Handler.Middleware.{Context}
use ats_proxy_manager.Handler.UserHandler
use ats_proxy_manager.Handler.UserHandler.{caller_of}
use ats_proxy_manager.Server.Access.{UserRequest, serve_users}
use ats_proxy_manager.Service.UserService.{UpdateUserRequest}
use ats_proxy_manager.Laws.Users.{Allowed, same, create-Allowed, update-Allowed, delete-Allowed}

-- Whatever an authenticated caller asks of /users and whichever statements fail, the row of each ID
-- is afterwards what the caller is allowed: a new one has a role that the caller may create; an old
-- one keeps its password, and its role or gets one that the caller may create; and access is
-- taken away by root only, and not from the caller itself.
pub serve-Allowed :
    (rt : Runtime) (crypto : Crypto) (r : UserRequest) (ctx : Context) (ip ua : Str) (id : ℕ)
    (w : World)
    → Allowed ctx.role
        (caller_of ctx ip ua)
        id
        (find_user id w.db)
        (find_user id (serve_users rt crypto r ip ua ctx w).1.db)
unfolding serve_users UserHandler.create UserHandler.update UserHandler.delete respond
    bad_request_answer pure ignore
serve-Allowed rt crypto r ctx ip ua id w = of_request r
  where
    old : Option User
    old = find_user id w.db

    by : Caller
    by = caller_of ctx ip ua

    of_update :
        (o : Option ℕ) (b : Option UpdateUserRequest)
        → Allowed ctx.role by id old
            (find_user id (ignore (UserHandler.update_parsed rt o b ctx ip ua) w).1.db)
    of_update none b = same ctx.role by id old
    of_update (some i) none = same ctx.role by id old
    of_update (some i) (some req) =
        Sat-db _ w (respond-Sat _ _ _ _ (update-Allowed ctx.role by id old i req)) refl

    of_delete :
        (o : Option ℕ)
        → Allowed ctx.role by id old
            (find_user id (ignore (UserHandler.delete_parsed rt o ctx ip ua) w).1.db)
    of_delete none = same ctx.role by id old
    of_delete (some i) = Sat-db _ w (respond-Sat _ _ _ _ (delete-Allowed ctx.role by id old i)) refl

    of_request :
        (r : UserRequest)
        → Allowed ctx.role by id old (find_user id (serve_users rt crypto r ip ua ctx w).1.db)
    of_request (UserRequest.create none salt) = same ctx.role by id old
    of_request (UserRequest.create (some req) salt) =
        Sat-db _ w (respond-Sat _ _ _ _ (create-Allowed ctx.role by id old crypto req salt)) refl
    of_request (UserRequest.update i body) = of_update (rt.uuid_parse i) body
    of_request (UserRequest.delete i) = of_delete (rt.uuid_parse i)
