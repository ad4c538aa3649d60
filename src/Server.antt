-- ===== src/Server.antt =====
-- The backend as a whole: the requests that backend/internal/handler/router.go routes and the jobs
-- of backend/internal/scheduler/jobs.go, one after the other, over one database.
pub mod Access
pub mod Routes
pub mod Safety
use ats_proxy_manager.Prelude.{ℕ, ◌+◌, Bool, Option, List, [], ◌≡◌, ℤ, Str}
use ats_proxy_manager.Domain.Models.{ProxyStat, User, Session, AuditLog}
use ats_proxy_manager.Runtime.{Runtime}
use ats_proxy_manager.Auth.{Crypto}
use ats_proxy_manager.Server.Routes.{Route, serve_route}
use ats_proxy_manager.Server.Access.{AccessRequest, serve_access}
use ats_proxy_manager.Store.{Db, M, ignore, idle}
use ats_proxy_manager.Scheduler.{Job, tick}
use ats_proxy_manager.Service.ConfigInput.{CreateConfigRequest}
use ats_proxy_manager.Service.ConfigService.Edit.{Caller}
use ats_proxy_manager.Service.ConfigService.Edit
use ats_proxy_manager.Service.ConfigService.Workflow
use ats_proxy_manager.Service.ProxyService
use ats_proxy_manager.Service.SyncService
use ats_proxy_manager.Service.SyncService.{RegisterRequest, SyncLogLine}

pub data Request : Type 0 where
  create : CreateConfigRequest → Caller → Request
  update : ℕ → CreateConfigRequest → Caller → Request
  clone delete submit approve reject : ℕ → Caller → Request
  assign_config : ℕ → Option ℕ → Caller → Request
  delete_proxy : ℕ → Caller → Request
  start_log_capture : ℕ → ℤ → Caller → Request
  register : RegisterRequest → Request
  get_config : Str → Str → Request
  ack : Str → Str → Str → Request
  stats : Str → ProxyStat → Request
  logs : Str → List SyncLogLine → Request
  job : Job → Request

module _ (rt : Runtime) where
  -- The service method that the handler of a request calls; the answer is left out.
  unfoldable pub serve : Request → M (Unit {0})
  serve (create req by) = ignore (Edit.create rt req by)
  serve (update id req by) = ignore (Edit.update rt id req by)
  serve (clone id by) = ignore (Edit.clone rt id by)
  serve (delete id by) = ignore (Edit.delete rt id by)
  serve (submit id by) = ignore (Workflow.submit id by)
  serve (approve id by) = ignore (Workflow.approve rt id by)
  serve (reject id by) = ignore (Workflow.reject id by)
  serve (assign_config p c by) = ignore (ProxyService.assign_config rt p c by)
  serve (delete_proxy p by) = ignore (ProxyService.delete rt p by)
  serve (start_log_capture p minutes by) = ignore (ProxyService.start_log_capture p minutes by)
  serve (register req) = ignore (SyncService.register rt req)
  serve (get_config hostname hash) = ignore (SyncService.get_config rt hostname hash)
  serve (ack hostname hash status) = ignore (SyncService.ack hostname hash status)
  serve (stats hostname stat) = ignore (SyncService.stats hostname stat)
  serve (logs hostname lines) = ignore (SyncService.logs hostname lines)
  serve (job j) = tick j

  -- What a request does to the database, at a time and under a schedule of failures.
  unfoldable pub after : Request → List Bool → ℕ → Db → Db
  unfolding serve
  after r faults now db = (serve r (record { db = db; faults = faults; now = now; tx = idle })).1.db

-- The same for the requests of /auth and /users, with the address and the agent they come from.
unfoldable pub after_access :
    Runtime → Crypto → Str → AccessRequest → Str → Str → List Bool → ℕ → Db → Db
after_access rt crypto secret r ip ua faults now db =
    (serve_access rt crypto secret r ip ua
      (record { db = db; faults = faults; now = now; tx = idle })).1.db

-- The same for the routes of /configs and /proxies, with their handlers, for a header `Authorization`.
unfoldable pub after_route :
    Runtime → Crypto → Str → Route → Str → Str → Str → List Bool → ℕ → Db → Db
after_route rt crypto secret r header ip ua faults now db =
    (serve_route rt crypto secret r header ip ua
      (record { db = db; faults = faults; now = now; tx = idle })).1.db

-- The tables as the migrations leave them: only users, whose IDs lie below the next one.
unfoldable pub initial : List User → ℕ → Db
initial users serial = record {
  users = users;
  sessions = [];
  configs = [];
  domain_rules = [];
  ip_range_rules = [];
  parent_proxies = [];
  client_acl_rules = [];
  proxies = [];
  config_proxies = [];
  proxy_stats = [];
  proxy_logs = [];
  audit_logs = [];
  serial = serial;
}

-- One request or job, whatever fails and whenever it comes.
pub data Step (rt : Runtime) (crypto : Crypto) (secret : Str) : Db → Db → Type 0 where
  served :
      (r : Request) (faults : List Bool) (now : ℕ) (db db' : Db)
      → db' ≡ after rt r faults now db
      → Step rt crypto secret db db'
  routed :
      (r : Route) (header ip ua : Str) (faults : List Bool) (now : ℕ) (db db' : Db)
      → db' ≡ after_route rt crypto secret r header ip ua faults now db
      → Step rt crypto secret db db'
  accessed :
      (r : AccessRequest) (ip ua : Str) (faults : List Bool) (now : ℕ) (db db' : Db)
      → db' ≡ after_access rt crypto secret r ip ua faults now db
      → Step rt crypto secret db db'

pub data Reach (rt : Runtime) (crypto : Crypto) (secret : Str) (from : Db) : Db → Type 0 where
  here : Reach rt crypto secret from from
  next :
      {db db' : Db}
      → Reach rt crypto secret from db
      → Step rt crypto secret db db'
      → Reach rt crypto secret from db'
