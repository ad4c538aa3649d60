-- ===== src/Server/Routes.antt =====
-- The routes of /configs and /proxies that change something, as backend/internal/handler/router.go puts
-- them behind `AuthMiddleware`, and some behind `RequireRole`.
use ats_proxy_manager.Prelude.{Bool, true, false, Option, ℤ, Str, ◌≡◌, ◌∙◌, ◌||◌, arith, refl}
use ats_proxy_manager.Domain.Enums.{UserRole, is_root, is_admin}
use ats_proxy_manager.Runtime.{Runtime}
use ats_proxy_manager.Auth.{Crypto}
use ats_proxy_manager.Store.{World, M, pure, ignore, get_now, ◌>>=◌}
use ats_proxy_manager.Handler.Middleware.{
  Context, Passage, refused, passed, auth_middleware, require_role, has_role, with_role,
}
use ats_proxy_manager.Handler.Middleware.Bearer.{Untrusted, auth_middleware-Untrusted}
use ats_proxy_manager.Handler.ConfigHandler
use ats_proxy_manager.Handler.ProxyHandler
use ats_proxy_manager.Service.ConfigInput.{CreateConfigRequest}
use ats_proxy_manager.Server.Access.{
  UserRequest, AccessRequest, admins, on_passage, authenticated, serve_access,
}

pub data Route : Type 0 where
  create_config : Option CreateConfigRequest → Route
  update_config : Str → Option CreateConfigRequest → Route
  delete_config submit approve reject clone delete_proxy : Str → Route
  assign_config : Str → Option (Option Str) → Route
  start_log_capture : Str → Option ℤ → Route

-- `r.With(RequireRole(RoleRoot, RoleAdmin))`.
unfoldable pub is_restricted : Route → Bool
is_restricted (delete_config id) = true
is_restricted (delete_proxy id) = true
is_restricted (assign_config id body) = true
is_restricted _ = false

module _ (rt : Runtime) where
  unfoldable pub handle : Route → Str → Str → Context → M (Unit {0})
  handle (create_config body) ip ua ctx = ignore (ConfigHandler.create rt body ctx ip ua)
  handle (update_config id body) ip ua ctx = ignore (ConfigHandler.update rt id body ctx ip ua)
  handle (delete_config id) ip ua ctx = ignore (ConfigHandler.delete rt id ctx ip ua)
  handle (submit id) ip ua ctx = ignore (ConfigHandler.submit rt id ctx ip ua)
  handle (approve id) ip ua ctx = ignore (ConfigHandler.approve rt id ctx ip ua)
  handle (reject id) ip ua ctx = ignore (ConfigHandler.reject rt id ctx ip ua)
  handle (clone id) ip ua ctx = ignore (ConfigHandler.clone rt id ctx ip ua)
  handle (delete_proxy id) ip ua ctx = ignore (ProxyHandler.delete rt id ctx ip ua)
  handle (assign_config id body) ip ua ctx =
      ignore (ProxyHandler.assign_config rt id body ctx ip ua)
  handle (start_log_capture id body) ip ua ctx =
      ignore (ProxyHandler.start_log_capture rt id body ctx ip ua)

  abbrev pub gated : Bool → Route → Str → Str → Context → M (Unit {0})
  gated true r ip ua ctx = on_passage (require_role admins ctx) (handle r ip ua)
  gated false r ip ua ctx = handle r ip ua ctx

  unfoldable pub serve_route : Crypto → Str → Route → Str → Str → Str → M (Unit {0})
  serve_route crypto secret r header ip ua =
      authenticated rt crypto secret header (gated (is_restricted r) r ip ua)

-- The header has the token of an admin or of root.
abbrev pub is_by_admin : Passage → Bool
is_by_admin (refused status error) = false
is_by_admin (passed ctx) = is_root ctx.role || is_admin ctx.role

-- A request whose header has no "Bearer " and then a token that the library accepts with the server's
-- secret at this time, be it missing, malformed, forged or expired: no route of /configs and /proxies
-- that may change something, no route of /users, no beacon and no logout changes anything.
pub serve_route_closed :
    (rt : Runtime) (crypto : Crypto) (secret : Str) (r : Route) (q : UserRequest)
    (header ip ua : Str) (w : World)
    → Untrusted crypto secret w.now header
    → ((serve_route rt crypto secret r header ip ua w).1.db ≡ w.db)
      × ((serve_access rt crypto secret (AccessRequest.users q header) ip ua w).1.db ≡ w.db)
      × ((serve_access rt crypto secret (AccessRequest.beacon header) ip ua w).1.db ≡ w.db)
      × ((serve_access rt crypto secret (AccessRequest.logout header) ip ua w).1.db ≡ w.db)
unfolding serve_route serve_access authenticated get_now ◌>>=◌ pure
serve_route_closed rt crypto secret r q header ip ua w h = (closed _, closed _, closed _, closed _)
  where
    of_refused :
        (handler : Context → M (Unit {0}))
        → (error : Str) × (auth_middleware crypto secret w.now header ≡ refused 401 error)
        → (authenticated rt crypto secret header handler w).1.db ≡ w.db
    of_refused handler (error, is) = rw is refl

    closed :
        (handler : Context → M (Unit {0}))
        → (authenticated rt crypto secret header handler w).1.db ≡ w.db
    closed handler = of_refused handler (auth_middleware-Untrusted crypto secret w.now header h)

by_admin-has_role : (role : UserRole) → has_role admins role ≡ (is_root role || is_admin role)
unfolding has_role
by_admin-has_role role = ground arith

-- With a token of anyone but an admin or root, deleting a config, deleting a proxy and assigning a
-- config to a proxy leave every table as it was.
pub serve_route_restricted :
    (rt : Runtime) (crypto : Crypto) (secret : Str) (id : Str) (body : Option (Option Str))
    (header ip ua : Str) (w : World)
    → is_by_admin (auth_middleware crypto secret w.now header) ≡ false
    → ((serve_route rt crypto secret (delete_config id) header ip ua w).1.db ≡ w.db)
      × (((serve_route rt crypto secret (delete_proxy id) header ip ua w).1.db ≡ w.db)
          × ((serve_route rt crypto secret (assign_config id body) header ip ua w).1.db ≡ w.db))
unfolding serve_route authenticated get_now ◌>>=◌ require_role pure is_restricted
serve_route_restricted rt crypto secret id body header ip ua w h =
    let passage = auth_middleware crypto secret w.now header in
    (
      of_passage (delete_config id) passage h,
      (of_passage (delete_proxy id) passage h, of_passage (assign_config id body) passage h),
    )
  where
    of_role :
        (r : Route) (b : Bool) (ctx : Context)
        → b ≡ false
        → (on_passage (with_role b ctx) (handle rt r ip ua) w).1.db ≡ w.db
    of_role r true ctx e = cc e
    of_role r false ctx e = refl

    of_passage :
        (r : Route) (p : Passage)
        → is_by_admin p ≡ false
        → (on_passage p (gated rt true r ip ua) w).1.db ≡ w.db
    of_passage r (refused status error) e = refl
    of_passage r (passed ctx) e =
        of_role r (has_role admins ctx.role) ctx (by_admin-has_role ctx.role ∙ e)
