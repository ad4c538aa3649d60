-- ===== src/Service/SyncService.antt =====
-- backend/internal/service/sync_service.go: what the helper beside each proxy calls.
use ats_proxy_manager.Prelude.{
  ℕ, Bool, true, false, not, Option, none, some, List, [], ◌∷◌, ◌&&◌, ◌||◌, ltb, if◌then◌else◌, Str,
  codes, str_eq, is_empty,
}
use ats_proxy_manager.Domain.Enums.{not_found, conflict, bad_request}
use ats_proxy_manager.Domain.Models.{Config, Proxy, ProxyStat}
use ats_proxy_manager.Runtime.{Runtime}
use ats_proxy_manager.Store.{World, Result, ok, err, M, pure, guard, ignore, get_now, ◌>>=◌, ◌>>◌}
use ats_proxy_manager.Repository.ConfigRepo
use ats_proxy_manager.Repository.ProxyRepo
use ats_proxy_manager.Repository.ProxyStatsRepo
use ats_proxy_manager.Repository.ProxyLogsRepo
use ats_proxy_manager.Service.Collect.{collect}
use ats_proxy_manager.Service.ConfigService.Files.{
  ConfigFiles, generate_config_files, generate_config_hash,
}

pub record RegisterRequest : Type 0 where
  pub hostname : Str
  pub config_id : Str
  pub proxy_id : Str
  pub remote_ip : Str

pub record RegisterResponse : Type 0 where
  pub proxy_id : Str
  pub config_id : Str
  pub status : Str

-- A missing row is an answer; any other error goes on.
abbrev pub missing_to_none : {A : Type 0} → Result A × World → Result (Option A) × World
missing_to_none (ok a, w) = (ok (some a), w)
missing_to_none (err not_found, w) = (ok none, w)
missing_to_none (err e, w) = (err e, w)

-- `err != nil && !errors.Is(err, ErrNotFound)`.
unfoldable pub or_none : {A : Type 0} → M A → M (Option A)
or_none m w = missing_to_none (m w)

abbrev pub is_text : Str → Option Str → Bool
is_text s none = false
is_text s (some t) = str_eq t s

-- `CaptureLogsUntil != nil && CaptureLogsUntil.After(time.Now())`.
abbrev pub capture_until : ℕ → Option ℕ → Option ℕ
capture_until now none = none
capture_until now (some until) = if ltb now until then some until else none

abbrev pub is_set : {A : Type 0} → Option A → Bool
is_set none = false
is_set (some a) = true

-- `ConfigResponse`; `capture_logs` is that `capture_until` is there.
pub record ConfigResponse : Type 0 where
  pub unchanged : Bool
  pub hash : Str
  pub config : Option ConfigFiles
  pub capture_logs : Bool
  pub capture_until : Option ℕ

abbrev pub text_or_empty : Option Str → Str
text_or_empty none = []
text_or_empty (some s) = s

-- `configHash != "" && configHash == currentHash`.
unfoldable pub is_current : Config → Str → Bool
is_current cfg current_hash =
    not (is_empty (text_or_empty cfg.config_hash))
    && str_eq (text_or_empty cfg.config_hash) current_hash

-- The answer that carries no files.
unfoldable pub unchanged_answer : Option ℕ → ConfigResponse
unchanged_answer until = record {
  unchanged = true;
  hash = [];
  config = none;
  capture_logs = is_set until;
  capture_until = until;
}

-- `LogsResponse`.
pub record LogsResponse : Type 0 where
  pub received : Bool
  pub continue_capture : Bool

pub record SyncLogLine : Type 0 where
  pub timestamp : ℕ
  pub level : Str
  pub message : Str

unfoldable pub ack : Str → Str → Str → M (Unit {0})
ack hostname hash status = do
  proxy ← ProxyRepo.get_by_hostname hostname
  if str_eq status (codes "ok") then ProxyRepo.update_config_hash proxy.id hash else pure tt

-- The fields of a stat but its proxy come from the request.
unfoldable pub stats : Str → ProxyStat → M (Unit {0})
stats hostname stat = do
  proxy ← ProxyRepo.get_by_hostname hostname
  ignore (ProxyRepo.update_last_seen proxy.id)
  ProxyStatsRepo.create (record stat { proxy_id = proxy.id })

-- A line that cannot be stored is passed over.
unfoldable pub logs : Str → List SyncLogLine → M LogsResponse
logs hostname lines = do
  proxy ← ProxyRepo.get_by_hostname hostname
  done ← collect (λ l. ignore (ProxyLogsRepo.create proxy.id l.level l.message)) lines
  now ← get_now
  pure (record {
    received = true;
    continue_capture = is_set (capture_until now proxy.capture_logs_until);
  })

module _ (rt : Runtime) where
  abbrev config_text : Option ℕ → Str
  config_text none = []
  config_text (some id) = rt.uuid_string id

  abbrev registered : Proxy → RegisterResponse
  registered p = record {
    proxy_id = rt.uuid_string p.id;
    config_id = config_text p.config_id;
    status = codes "registered";
  }

  -- An online proxy is taken over only from its own address or with its own ID.
  unfoldable pub may_register : Proxy → RegisterRequest → Bool
  may_register existing req =
      not existing.is_online
      || (is_text req.remote_ip existing.registered_ip
          || (not (is_empty req.proxy_id) && str_eq req.proxy_id (rt.uuid_string existing.id)))

  unfoldable pub re_register : Proxy → RegisterRequest → M RegisterResponse
  re_register existing req = do
    guard (may_register existing req) conflict
    ignore (ProxyRepo.update_registered_ip existing.id req.remote_ip)
    ignore (ProxyRepo.update_last_seen existing.id)
    pure (registered existing)

  -- A config ID that does not parse is left out.
  abbrev wanted_config : Str → Option ℕ
  wanted_config s = if is_empty s then none else rt.uuid_parse s

  unfoldable pub register_new : RegisterRequest → M RegisterResponse
  register_new req = do
    proxy ← ProxyRepo.create (record {
      hostname = req.hostname;
      config_id = wanted_config req.config_id;
      registered_ip = some req.remote_ip;
    })
    ignore (ProxyRepo.update_last_seen proxy.id)
    pure (registered proxy)

  unfoldable pub register_found : Option Proxy → RegisterRequest → M RegisterResponse
  register_found (some existing) req = re_register existing req
  register_found none req = register_new req

  unfoldable pub register : RegisterRequest → M RegisterResponse
  register req = do
    guard (not (is_empty req.hostname)) bad_request
    existing ← or_none (ProxyRepo.get_by_hostname req.hostname)
    register_found existing req

  -- `if configHash == ""`: the hash is computed and stored; an error of the store is dropped.
  unfoldable pub stored_or_new_hash : Config → Str → M Str
  stored_or_new_hash cfg [] = do
    hash ← generate_config_hash rt cfg.id
    ignore (ConfigRepo.update_hash cfg.id hash)
    pure hash
  stored_or_new_hash cfg (c ∷ s) = pure (c ∷ s)

  -- The generated files, with their hash.
  unfoldable pub fresh_answer : Config → Option ℕ → M ConfigResponse
  fresh_answer cfg until = do
    files ← generate_config_files rt cfg.id
    hash ← stored_or_new_hash cfg (text_or_empty cfg.config_hash)
    pure (record {
      unchanged = false;
      hash = hash;
      config = some files;
      capture_logs = is_set until;
      capture_until = until;
    })

  -- The files of the active config, unless the helper has them already.
  unfoldable pub answer_for : Option Config → Str → Option ℕ → M ConfigResponse
  answer_for none current_hash until = pure (unchanged_answer until)
  answer_for (some cfg) current_hash until =
      if is_current cfg current_hash then pure (unchanged_answer until) else fresh_answer cfg until

  unfoldable pub get_config : Str → Str → M ConfigResponse
  get_config hostname current_hash = do
    proxy ← ProxyRepo.get_by_hostname hostname
    ignore (ProxyRepo.update_last_seen proxy.id)
    cfg ← or_none (ConfigRepo.get_active_for_proxy hostname)
    now ← get_now
    answer_for cfg current_hash (capture_until now proxy.capture_logs_until)
