-- ===== src/Invariant/Routes.antt =====
-- The routes that backend/internal/handler/router.go puts behind the middleware keep the rules.
use ats_proxy_manager.Prelude.{Option, none, [], ◌∷◌, false, Str, ℕ, Bool, true, some}
use ats_proxy_manager.Runtime.{Runtime}
use ats_proxy_manager.Store.{M}
use ats_proxy_manager.Store.Sat.{Keeps, Sat-ignore}
use ats_proxy_manager.Auth.{Crypto}
use ats_proxy_manager.Store.Sat.{Sat-statement}
use ats_proxy_manager.Repository.Sat.{Sat-checked, Sat-affected}
use ats_proxy_manager.Repository.UserRepo
use ats_proxy_manager.Repository.UserRepo.{set_user}
use ats_proxy_manager.Repository.SessionRepo
use ats_proxy_manager.Repository.SessionRepo.{set_session}
use ats_proxy_manager.Repository.AuditRepo
use ats_proxy_manager.Invariant.Access.{SessionsKeep, UsersKeep, passage-Keeps}
use ats_proxy_manager.Handler.Answer.{Answer, with_parsed, respond-Sat, bad_request_answer}
use ats_proxy_manager.Handler.Middleware.{Context, require_role}
use ats_proxy_manager.Handler.ConfigHandler
use ats_proxy_manager.Handler.ProxyHandler
use ats_proxy_manager.Server.Routes.{Route, handle, gated}
use ats_proxy_manager.Server.Access.{admins}
use ats_proxy_manager.Store.Sat.{Sat-pure}
use ats_proxy_manager.Invariant.Lifecycle.{Inv, Tables-suc}
use ats_proxy_manager.Invariant.Edit.{create-Inv, update-Inv, clone-Inv, delete-Keeps}
use ats_proxy_manager.Invariant.Workflow.{submit-Keeps, approve-Keeps, reject-Keeps}
use ats_proxy_manager.Invariant.Proxies.{
  assign_config-Keeps, delete_proxy-Keeps, start_log_capture-Keeps,
}

pub sessions-Inv : SessionsKeep Inv
unfolding UserRepo.update_last_login SessionRepo.create SessionRepo.update_beacon
    SessionRepo.update_tokens SessionRepo.revoke set_user set_session
sessions-Inv = record {
  last_login = λ id. Sat-statement _ (λ db h. h) (λ now db h. h);
  begin = λ s. Sat-checked _ _ _ (λ db h. h) (λ now db h _. Tables-suc h);
  renew = λ id expiry. Sat-statement _ (λ db h. h) (λ now db h. h);
  retoken = λ id hash expiry. Sat-statement _ (λ db h. h) (λ now db h. h);
  revoke = λ id. Sat-statement _ (λ db h. h) (λ now db h. h);
}

pub users-Inv : UsersKeep Inv
unfolding UserRepo.create UserRepo.update UserRepo.delete set_user AuditRepo.create
users-Inv = record {
  create = λ u. Sat-checked _ _ _ (λ db h. h) (λ now db h _. Tables-suc h);
  update = λ u. Sat-affected _ _ (Sat-checked _ _ _ (λ db h. h) (λ now db h _. h));
  delete = λ id. Sat-affected _ _ (Sat-statement _ (λ db h. h) (λ now db h. h));
  audit = λ e. Sat-checked _ _ _ (λ db h. h) (λ now db h _. Tables-suc h);
}

module _ (rt : Runtime) (crypto : Crypto) (secret : Str) where
  parsed-Inv :
      {A B : Type 0} (o : Option A) (f : A → M (Answer B))
      → ((a : A) → Keeps Inv (f a))
      → Keeps Inv (with_parsed o f)
  unfolding bad_request_answer
  parsed-Inv none f k = Sat-pure _ (λ db h. h)
  parsed-Inv (some a) f k = k a

  config_id-Inv :
      (body : Option Str) (f : Option ℕ → M (Answer (Unit {0})))
      → ((o : Option ℕ) → Keeps Inv (f o))
      → Keeps Inv (ProxyHandler.with_config rt body f)
  config_id-Inv none f k = k none
  config_id-Inv (some []) f k = k none
  config_id-Inv (some (c ∷ s)) f k = parsed-Inv (rt.uuid_parse (c ∷ s)) _ (λ i. k (some i))

  handle-Inv : (r : Route) (ip ua : Str) (ctx : Context) → Keeps Inv (handle rt r ip ua ctx)
  unfolding handle ConfigHandler.create ConfigHandler.update ConfigHandler.delete
      ConfigHandler.submit ConfigHandler.approve ConfigHandler.reject ConfigHandler.clone
      ProxyHandler.delete ProxyHandler.assign_config ProxyHandler.start_log_capture
  handle-Inv (Route.create_config body) ip ua ctx =
      Sat-ignore _ (parsed-Inv body _ λ req. respond-Sat _ _ _ _ (create-Inv rt req _))
  handle-Inv (Route.update_config id body) ip ua ctx = Sat-ignore _ (
      parsed-Inv (rt.uuid_parse id) _
        λ i. parsed-Inv body _ λ req. respond-Sat _ _ _ _ (update-Inv rt i req _))
  handle-Inv (Route.delete_config id) ip ua ctx =
      Sat-ignore _ (parsed-Inv (rt.uuid_parse id) _ λ i. respond-Sat _ _ _ _ (delete-Keeps rt i _))
  handle-Inv (Route.submit id) ip ua ctx =
      Sat-ignore _ (parsed-Inv (rt.uuid_parse id) _ λ i. respond-Sat _ _ _ _ (submit-Keeps i _))
  handle-Inv (Route.approve id) ip ua ctx =
      Sat-ignore _ (parsed-Inv (rt.uuid_parse id) _ λ i. respond-Sat _ _ _ _ (approve-Keeps rt i _))
  handle-Inv (Route.reject id) ip ua ctx =
      Sat-ignore _ (parsed-Inv (rt.uuid_parse id) _ λ i. respond-Sat _ _ _ _ (reject-Keeps i _))
  handle-Inv (Route.clone id) ip ua ctx =
      Sat-ignore _ (parsed-Inv (rt.uuid_parse id) _ λ i. respond-Sat _ _ _ _ (clone-Inv rt i _))
  handle-Inv (Route.delete_proxy id) ip ua ctx =
      Sat-ignore _
        (parsed-Inv (rt.uuid_parse id) _ λ i. respond-Sat _ _ _ _ (delete_proxy-Keeps rt i _))
  handle-Inv (Route.assign_config id body) ip ua ctx = Sat-ignore _ (
      parsed-Inv (rt.uuid_parse id) _ λ i.
        parsed-Inv body _
          λ c. config_id-Inv c _ λ o. respond-Sat _ _ _ _ (assign_config-Keeps rt i o _))
  handle-Inv (Route.start_log_capture id body) ip ua ctx = Sat-ignore _ (
      parsed-Inv (rt.uuid_parse id) _
        λ i. parsed-Inv body _ λ m. respond-Sat _ _ _ _ (start_log_capture-Keeps i _ _))

  pub gated-Inv :
      (b : Bool) (r : Route) (ip ua : Str) (ctx : Context) → Keeps Inv (gated rt b r ip ua ctx)
  gated-Inv true r ip ua ctx =
      passage-Keeps rt crypto secret sessions-Inv (require_role admins ctx) _ (handle-Inv r ip ua)
  gated-Inv false r ip ua ctx = handle-Inv r ip ua ctx
