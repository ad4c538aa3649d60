-- ===== src/Service/ProxyService.antt =====
-- backend/internal/service/proxy_service.go: the requests that change a proxy, and the reference
-- that lists show beside each one.
use ats_proxy_manager.Prelude.{
  ℕ, ◌+◌, ◌*◌, Bool, false, not, Option, none, some, [], ◌∷◌, ◌++◌, ◌&&◌, ℤ, pos, negsuc, ltb_ℤ,
  Str, codes, str_eq,
}
use ats_proxy_manager.Domain.Enums.{active, status_eq, bad_request}
use ats_proxy_manager.Domain.Models.{Config}
use ats_proxy_manager.Runtime.{Runtime}
use ats_proxy_manager.Store.{M, pure, guard, ignore, get_now, ◌>>=◌, ◌>>◌}
use ats_proxy_manager.Repository.ConfigRepo
use ats_proxy_manager.Repository.ProxyRepo
use ats_proxy_manager.Repository.ProxyRepo.{minute}
use ats_proxy_manager.Repository.ConfigProxyRepo
use ats_proxy_manager.Repository.AuditRepo
use ats_proxy_manager.Service.ConfigService.Edit.{Caller}

unfoldable pub proxy_entry : Caller → Str → ℕ → Option Str → Option Str → AuditRepo.Entry
proxy_entry by action id old new = record {
  user_id = some by.user_id;
  action = action;
  entity_type = codes "proxy";
  entity_id = some id;
  old_value = old;
  new_value = new;
  ip_address = some by.ip;
  user_agent = some by.ua;
}

-- `ProxyConfigRef`.
pub record ProxyConfigRef : Type 0 where
  pub id : ℕ
  pub name : Str
  pub version : ℕ
  pub config_hash : Str
  pub in_sync : Bool

abbrev same_hash : Option Str → Str → Bool
same_hash none hash = false
same_hash (some h) hash = str_eq h hash

unfoldable pub build_config_ref : Config → Option Str → ProxyConfigRef
build_config_ref cfg proxy_hash = elim cfg.config_hash [
  | none ↦ record {
    id = cfg.id;
    name = cfg.name;
    version = cfg.version;
    config_hash = [];
    in_sync = false;
  }
  | some hash ↦ record {
    id = cfg.id;
    name = cfg.name;
    version = cfg.version;
    config_hash = hash;
    in_sync = same_hash proxy_hash hash;
  }
]

-- `durationMinutes <= 0 || durationMinutes > 5`, the other way round.
unfoldable pub duration_in_range : ℤ → Bool
duration_in_range minutes = ltb_ℤ (pos 0) minutes && not (ltb_ℤ (pos 5) minutes)

abbrev to_minutes : ℤ → ℕ
to_minutes (pos n) = n
to_minutes (negsuc n) = 0

unfoldable pub start_log_capture : ℕ → ℤ → Caller → M ℕ
start_log_capture id duration_minutes by = do
  guard (duration_in_range duration_minutes) bad_request
  now ← get_now
  ProxyRepo.set_capture_logs_until id (now + to_minutes duration_minutes * minute)
  ignore (AuditRepo.create (proxy_entry by (codes "proxy.capture_logs") id none none))
  pure (now + to_minutes duration_minutes * minute)

-- {"key":value}, the value already in quotes or null.
abbrev pub object_text : Str → Str → Str
object_text key value = (b'{' ∷ 34 ∷ key) ++ ((34 ∷ b':' ∷ value) ++ (b'}' ∷ []))

-- The config must exist and be active.
unfoldable pub check_active : Option ℕ → M (Unit {0})
check_active none = pure tt
check_active (some config_id) = do
  cfg ← ConfigRepo.get_by_id config_id
  guard (status_eq cfg.status active) bad_request

unfoldable pub assign_if_some : Option ℕ → ℕ → ℕ → M (Unit {0})
assign_if_some none proxy_id user_id = pure tt
assign_if_some (some config_id) proxy_id user_id = ConfigProxyRepo.assign config_id proxy_id user_id

module _ (rt : Runtime) where
  unfoldable pub delete : ℕ → Caller → M (Unit {0})
  delete id by = do
    proxy ← ProxyRepo.get_by_id id
    ProxyRepo.delete id
    ignore (
        AuditRepo.create (
          proxy_entry by (codes "proxy.delete") id
            (some (object_text (codes "hostname") (rt.quote proxy.hostname))) none))

  abbrev config_text : Option ℕ → Str
  config_text none = codes "null"
  config_text (some id) = rt.quote (rt.uuid_string id)

  unfoldable pub assign_config : ℕ → Option ℕ → Caller → M (Unit {0})
  assign_config proxy_id config_id by = do
    proxy ← ProxyRepo.get_by_id proxy_id
    check_active config_id
    ConfigProxyRepo.delete_by_proxy proxy_id
    assign_if_some config_id proxy_id by.user_id
    ignore (
        AuditRepo.create (
          proxy_entry by (codes "proxy.assign_config") proxy_id
            (some (object_text (codes "hostname") (rt.quote proxy.hostname)))
            (some (object_text (codes "config_id") (config_text config_id)))))
