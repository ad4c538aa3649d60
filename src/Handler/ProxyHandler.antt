-- ===== src/Handler/ProxyHandler.antt =====
-- The handlers of backend/internal/handler/proxy_handler.go that change something.
use ats_proxy_manager.Prelude.{
  ℕ, Option, none, some, [], ◌∷◌, ℤ, pos, negsuc, ◌==◌, if◌then◌else◌, Str,
}
use ats_proxy_manager.Runtime.{Runtime}
use ats_proxy_manager.Store.{M}
use ats_proxy_manager.Handler.Answer.{Answer, respond, domain_error, with_parsed}
use ats_proxy_manager.Handler.Middleware.{Context}
use ats_proxy_manager.Handler.UserHandler.{caller_of}
use ats_proxy_manager.Service.ProxyService

module _ (rt : Runtime) where
  unfoldable pub delete : Str → Context → Str → Str → M (Answer (Unit {0}))
  delete id ctx ip ua =
      with_parsed (rt.uuid_parse id)
        λ i. respond 204 (λ u. u) domain_error (ProxyService.delete rt i (caller_of ctx ip ua))

  -- A config ID that is missing or empty means none.
  abbrev pub with_config : Option Str → (Option ℕ → M (Answer (Unit {0}))) → M (Answer (Unit {0}))
  with_config none f = f none
  with_config (some []) f = f none
  with_config (some (c ∷ s)) f = with_parsed (rt.uuid_parse (c ∷ s)) λ i. f (some i)

  -- The body is none where it cannot be decoded.
  unfoldable pub assign_config :
      Str → Option (Option Str) → Context → Str → Str → M (Answer (Unit {0}))
  assign_config id body ctx ip ua = with_parsed (rt.uuid_parse id) λ i.
      with_parsed body λ config_id. with_config config_id λ c.
        respond 200 (λ u. u) domain_error (ProxyService.assign_config rt i c (caller_of ctx ip ua))

-- A duration of 0, or none, means five minutes.
abbrev or_five : ℤ → ℤ
or_five (pos n) = if n == 0 then pos 5 else pos n
or_five (negsuc n) = negsuc n

-- The answer shows the time at which the capture ends.
unfoldable pub start_log_capture : Runtime → Str → Option ℤ → Context → Str → Str → M (Answer ℕ)
start_log_capture rt id body ctx ip ua = with_parsed (rt.uuid_parse id) λ i.
    with_parsed body λ minutes.
      respond 200 (λ t. t) domain_error
        (ProxyService.start_log_capture i (or_five minutes) (caller_of ctx ip ua))
