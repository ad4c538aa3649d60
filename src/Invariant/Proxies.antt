-- ===== src/Invariant/Proxies.antt =====
-- The requests of `ProxyService` and `SyncService` and the jobs of the scheduler keep the rules of
-- Invariant/Lifecycle.
use ats_proxy_manager.Prelude.{ℕ, false, Option, none, some, List, [], ◌∷◌, ◌≡◌, arith, ℤ, Str}
use ats_proxy_manager.Prelude.Table.{some_row-delete_where, some_row-delete_where_none}
use ats_proxy_manager.Domain.Enums.{not_found, bad_request, conflict}
use ats_proxy_manager.Domain.Models.{Config, Proxy, ProxyStat}
use ats_proxy_manager.Runtime.{Runtime}
use ats_proxy_manager.Store.{Db, World, Result, ok, err, M, pure, ignore}
use ats_proxy_manager.Store.Sat.{
  Sat, Keeps, Post, Sat-pure, Sat-bind, Sat-then, Sat-post, Sat-pre, Sat-guard, Sat-ignore,
  Sat-get_now, Sat-statement, Sat-if,
}
use ats_proxy_manager.Repository.Keys.{find_proxy}
use ats_proxy_manager.Repository.Sat.{Sat-get, Sat-checked}
use ats_proxy_manager.Repository.ConfigRepo
use ats_proxy_manager.Repository.ConfigProxyRepo
use ats_proxy_manager.Repository.ProxyRepo
use ats_proxy_manager.Service.Collect.{collect-Keeps}
use ats_proxy_manager.Service.ConfigService.Edit.{Caller}
use ats_proxy_manager.Service.ProxyService
use ats_proxy_manager.Service.ProxyService.{
  start_log_capture, check_active, assign_if_some, assign_config,
}
use ats_proxy_manager.Service.SyncService.{
  RegisterRequest, SyncLogLine, or_none, missing_to_none, re_register, register_new, register_found,
  register, ack, stats, logs, stored_or_new_hash, is_current, unchanged_answer, fresh_answer,
  answer_for, get_config,
}
use ats_proxy_manager.Scheduler.{
  Job, tick, proxy_status_check, proxy_cleanup, log_cleanup, stats_cleanup,
}
use ats_proxy_manager.Invariant.Lifecycle.{Inv, assigned_in, Tables-sub}
use ats_proxy_manager.Invariant.Assignments.{Tables-assign}
use ats_proxy_manager.Invariant.Statements
use ats_proxy_manager.Invariant.Statements.{With}
use ats_proxy_manager.Invariant.ConfigStatements.{update_hash-Inv}
use ats_proxy_manager.Invariant.Edit.{audit-Inv}
use ats_proxy_manager.Invariant.Workflow.{
  get_by_id-Keeps, generate_config_files-Keeps, generate_config_hash-Keeps,
}

-- A statement that keeps the rules with whatever else is known keeps the rules.
plain : {A : Type 0} (m : M A) → Keeps (With (λ _. Unit {0})) m → Keeps Inv m
plain m h = Sat-pre m (λ db t. (t, tt)) (Sat-post m (λ db t. t.0) (λ _ db t. t.0) h)

proxy-get_by_id-Keeps : {P : Db → Type 0} (id : ℕ) → Keeps P (ProxyRepo.get_by_id id)
unfolding ProxyRepo.get_by_id
proxy-get_by_id-Keeps id =
    Sat-post _ (λ db p. p) (λ c db p. p.0) (Sat-get (λ db. find_proxy id db) not_found (λ db p. p))

get_by_hostname-Keeps : {P : Db → Type 0} (h : Str) → Keeps P (ProxyRepo.get_by_hostname h)
unfolding ProxyRepo.get_by_hostname
get_by_hostname-Keeps h = Sat-post _ (λ db p. p) (λ c db p. p.0) (Sat-get _ not_found (λ db p. p))

get_active_for_proxy-Keeps :
    {P : Db → Type 0} (h : Str) → Keeps P (ConfigRepo.get_active_for_proxy h)
unfolding ConfigRepo.get_active_for_proxy
get_active_for_proxy-Keeps h =
    Sat-post _ (λ db p. p) (λ c db p. p.0) (Sat-get _ not_found (λ db p. p))

-- No config has the proxy.
abbrev Free : ℕ → Db → Type 0
Free p db = (j : ℕ) → assigned_in j p db.config_proxies ≡ false

delete_by_proxy-Free :
    (p : ℕ) → Sat Inv (ConfigProxyRepo.delete_by_proxy p) Inv (λ _ db. Inv db × Free p db)
unfolding ConfigProxyRepo.delete_by_proxy
delete_by_proxy-Free p =
    Sat-statement _ (λ db t. t)
      λ now db t. (
        Tables-sub (λ i q h. some_row-delete_where _ _ db.config_proxies h) t,
        λ j. some_row-delete_where_none _ _ db.config_proxies (λ x sel. ground arith),
      )

assign-Inv :
    (id p user_id : ℕ)
    → Sat (λ db. Inv db × Free p db) (ConfigProxyRepo.assign id p user_id) Inv (λ _. Inv)
unfolding ConfigProxyRepo.assign
assign-Inv id p user_id =
    Sat-checked _ _ _ (λ db t. t.0)
      λ now db t _. rw (t.1 id) (Tables-assign _ (λ j a b u. cc (u, t.1 j)) t.0)

assign_if_some-Inv :
    (config_id : Option ℕ) (p user_id : ℕ)
    → Sat (λ db. Inv db × Free p db) (assign_if_some config_id p user_id) Inv (λ _. Inv)
unfolding assign_if_some
assign_if_some-Inv none p user_id = Sat-pure _ (λ db t. t.0)
assign_if_some-Inv (some id) p user_id = assign-Inv id p user_id

check_active-Keeps : (config_id : Option ℕ) → Keeps Inv (check_active config_id)
unfolding check_active
check_active-Keeps none = Sat-pure _ (λ db t. t)
check_active-Keeps (some id) =
    Sat-then _ _ (λ db t. t) (get_by_id-Keeps id)
      λ cfg. Sat-guard _ bad_request (λ db t. t) (λ db _ t. t)

pub assign_config-Keeps :
    (rt : Runtime) (p : ℕ) (config_id : Option ℕ) (by : Caller)
    → Keeps Inv (assign_config rt p config_id by)
unfolding assign_config
assign_config-Keeps rt p config_id by =
    Sat-then _ _ (λ db t. t) (proxy-get_by_id-Keeps p)
      λ proxy.
        Sat-then _ _ (λ db t. t) (check_active-Keeps config_id)
          λ _.
            Sat-bind _ _ (delete_by_proxy-Free p)
              λ _. Sat-bind _ _ (assign_if_some-Inv config_id p by.user_id) λ _. audit-Inv _

pub delete_proxy-Keeps :
    (rt : Runtime) (p : ℕ) (by : Caller) → Keeps Inv (ProxyService.delete rt p by)
unfolding ProxyService.delete
delete_proxy-Keeps rt p by =
    Sat-then _ _ (λ db t. t) (proxy-get_by_id-Keeps p)
      λ proxy.
        Sat-then _ _ (λ db t. t) (plain _ (Statements.ProxyRepo-delete-With _ p)) λ _. audit-Inv _

pub start_log_capture-Keeps :
    (p : ℕ) (minutes : ℤ) (by : Caller) → Keeps Inv (start_log_capture p minutes by)
unfolding start_log_capture
start_log_capture-Keeps p minutes by =
    Sat-bind _ _ (Sat-guard _ bad_request (λ db t. t) (λ db _ t. t)) λ _.
      Sat-then _ _ (λ db t. t) Sat-get_now
        λ now.
          Sat-then _ _ (λ db t. t)
            (plain _ (Statements.ProxyRepo-set_capture_logs_until-With _ p _))
            λ _. Sat-then _ _ (λ db t. t) (audit-Inv _) λ _. Sat-pure _ (λ db t. t)

last_seen-Inv : (p : ℕ) → Keeps Inv (ignore (ProxyRepo.update_last_seen p))
last_seen-Inv p = Sat-ignore _ (plain _ (Statements.ProxyRepo-update_last_seen-With _ p))

or_none-Post :
    {A : Type 0} (P : Db → Type 0) (o : Result A × World)
    → Post P (λ _. P) o
    → Post P (λ _. P) (missing_to_none o)
or_none-Post P (ok a, w) h = h
or_none-Post P (err not_found, w) h = h
or_none-Post P (err _, w) h = h

or_none-Keeps : {A : Type 0} {P : Db → Type 0} (m : M A) → Keeps P m → Keeps P (or_none m)
unfolding or_none
or_none-Keeps {P} m h = record { at = λ w p. or_none-Post P (m w) (h.at w p) }

register_found-Keeps :
    (rt : Runtime) (found : Option Proxy) (req : RegisterRequest)
    → Keeps Inv (register_found rt found req)
unfolding register_found re_register register_new
register_found-Keeps rt (some existing) req =
    Sat-bind _ _ (Sat-guard _ conflict (λ db t. t) (λ db _ t. t)) λ _.
      Sat-then _ _ (λ db t. t)
        (Sat-ignore _ (plain _ (Statements.ProxyRepo-update_registered_ip-With _ existing.id _)))
        λ _. Sat-then _ _ (λ db t. t) (last_seen-Inv existing.id) λ _. Sat-pure _ (λ db t. t)
register_found-Keeps rt none req =
    Sat-then _ _ (λ db t. t) (plain _ (Statements.ProxyRepo-create-With _ _))
      λ proxy. Sat-then _ _ (λ db t. t) (last_seen-Inv proxy.id) λ _. Sat-pure _ (λ db t. t)

pub register-Keeps : (rt : Runtime) (req : RegisterRequest) → Keeps Inv (register rt req)
unfolding register
register-Keeps rt req = Sat-bind _ _ (Sat-guard _ bad_request (λ db t. t) (λ db _ t. t)) λ _.
    Sat-then _ _ (λ db t. t) (or_none-Keeps _ (get_by_hostname-Keeps req.hostname))
      λ found. register_found-Keeps rt found req

pub ack-Keeps : (hostname hash status : Str) → Keeps Inv (ack hostname hash status)
unfolding ack
ack-Keeps hostname hash status =
    Sat-then _ _ (λ db t. t) (get_by_hostname-Keeps hostname)
      λ proxy.
        Sat-if _ _ _ (λ _. plain _ (Statements.ProxyRepo-update_config_hash-With _ proxy.id hash))
          (λ _. Sat-pure _ (λ db t. t))

pub stats-Keeps : (hostname : Str) (stat : ProxyStat) → Keeps Inv (stats hostname stat)
unfolding stats
stats-Keeps hostname stat =
    Sat-then _ _ (λ db t. t) (get_by_hostname-Keeps hostname)
      λ proxy.
        Sat-then _ _ (λ db t. t) (last_seen-Inv proxy.id)
          λ _. plain _ (Statements.ProxyStatsRepo-create-With _ _)

pub logs-Keeps : (hostname : Str) (lines : List SyncLogLine) → Keeps Inv (logs hostname lines)
unfolding logs
logs-Keeps hostname lines =
    Sat-then _ _ (λ db t. t) (get_by_hostname-Keeps hostname)
      λ proxy.
        Sat-then _ _ (λ db t. t)
          (collect-Keeps _ lines
            (λ l. Sat-ignore _ (plain _ (Statements.ProxyLogsRepo-create-With _ proxy.id _ _))))
          λ _. Sat-then _ _ (λ db t. t) Sat-get_now λ now. Sat-pure _ (λ db t. t)

stored_or_new_hash-Keeps :
    (rt : Runtime) (cfg : Config) (hash : Str) → Keeps Inv (stored_or_new_hash rt cfg hash)
unfolding stored_or_new_hash
stored_or_new_hash-Keeps rt cfg [] =
    Sat-then _ _ (λ db t. t) (generate_config_hash-Keeps rt cfg.id)
      λ hash.
        Sat-then _ _ (λ db t. t) (Sat-ignore _ (update_hash-Inv cfg.id hash))
          λ _. Sat-pure _ (λ db t. t)
stored_or_new_hash-Keeps rt cfg (c ∷ s) = Sat-pure _ (λ db t. t)

fresh_answer-Keeps :
    (rt : Runtime) (cfg : Config) (until : Option ℕ) → Keeps Inv (fresh_answer rt cfg until)
unfolding fresh_answer
fresh_answer-Keeps rt cfg until =
    Sat-then _ _ (λ db t. t) (generate_config_files-Keeps rt cfg.id)
      λ files.
        Sat-then _ _ (λ db t. t) (stored_or_new_hash-Keeps rt cfg _) λ hash. Sat-pure _ (λ db t. t)

answer_for-Keeps :
    (rt : Runtime) (cfg : Option Config) (current : Str) (until : Option ℕ)
    → Keeps Inv (answer_for rt cfg current until)
unfolding answer_for
answer_for-Keeps rt none current until = Sat-pure _ (λ db t. t)
answer_for-Keeps rt (some cfg) current until =
    Sat-if (is_current cfg current) (pure (unchanged_answer until)) (fresh_answer rt cfg until)
      (λ _. Sat-pure _ (λ db t. t)) (λ _. fresh_answer-Keeps rt cfg until)

pub get_config-Keeps :
    (rt : Runtime) (hostname current : Str) → Keeps Inv (get_config rt hostname current)
unfolding get_config
get_config-Keeps rt hostname current =
    Sat-then _ _ (λ db t. t) (get_by_hostname-Keeps hostname)
      λ proxy.
        Sat-then _ _ (λ db t. t) (last_seen-Inv proxy.id)
          λ _.
            Sat-then _ _ (λ db t. t) (or_none-Keeps _ (get_active_for_proxy-Keeps hostname))
              λ cfg. Sat-then _ _ (λ db t. t) Sat-get_now λ now. answer_for-Keeps rt cfg current _

pub tick-Keeps : (job : Job) → Keeps Inv (tick job)
unfolding tick
tick-Keeps proxy_status_check =
    Sat-ignore _ (plain _ (Statements.ProxyRepo-mark_offline_stale-With _))
tick-Keeps proxy_cleanup = Sat-ignore _ (plain _ (Statements.ProxyRepo-delete_offline_stale-With _))
tick-Keeps log_cleanup = Sat-ignore _ (plain _ (Statements.ProxyLogsRepo-cleanup_expired-With _))
tick-Keeps stats_cleanup = Sat-ignore _ (plain _ (Statements.ProxyStatsRepo-cleanup_old-With _))
