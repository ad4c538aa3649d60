-- ===== src/Laws/Deletion.antt =====
-- `Delete` of backend/internal/service/config_service.go.
use ats_proxy_manager.Prelude.{
  ℕ, List, Bool, true, false, not, Option, none, some, ◌≡◌, ◌≢◌, refl, ◌==◌, arith, subst, ==_refl,
  ==_sound, sym, ◌∙◌, Bool-cases, inl, inr,
}
use ats_proxy_manager.Prelude.Table.{
  some_row, find-delete_where, some_row-delete_where_none, find_key,
}
use ats_proxy_manager.Domain.Enums.{Error, active, status_eq, bad_request, not_found}
use ats_proxy_manager.Domain.Models.{Config, AuditLog}
use ats_proxy_manager.Runtime.{Runtime}
use ats_proxy_manager.Store.{Db, World, ok, err, ignore}
use ats_proxy_manager.Store.Sat.{Sat, Sat-bind, Sat-guard, Sat-fact, Sat-post}
use ats_proxy_manager.Store.Outcomes.{Sat-passed, Sat-ok, Sat-err}
use ats_proxy_manager.Repository.Keys.{find_config}
use ats_proxy_manager.Repository.Sat.{Sat-checked}
use ats_proxy_manager.Repository.AuditRepo
use ats_proxy_manager.Repository.ConfigRepo
use ats_proxy_manager.Repository.ConfigRepo.{delete_config}
use ats_proxy_manager.Service.ConfigService.Edit.{Caller, delete, is_nil}
use ats_proxy_manager.Invariant.ConfigStatements.{get_by_id-Sat}
use ats_proxy_manager.Laws.Audit.{audit-Sat}
use ats_proxy_manager.Laws.Progress.{found_some_row}

-- Nothing of the config is left, and every other config is as it was.
pub record Gone (id : ℕ) (before db : Db) : Type 0 where
  pub config : find_config id db ≡ none
  pub domains : some_row (λ r. r.config_id == id) db.domain_rules ≡ false
  pub ip_ranges : some_row (λ r. r.config_id == id) db.ip_range_rules ≡ false
  pub parents : some_row (λ r. r.config_id == id) db.parent_proxies ≡ false
  pub client_acl : some_row (λ r. r.config_id == id) db.client_acl_rules ≡ false
  pub proxies : some_row (λ r. r.config_id == id) db.config_proxies ≡ false
  pub others : (other : ℕ) → other ≢ id → find_config other db ≡ find_config other before

-- The config was there, was not active, and had never been approved.
abbrev pub Deletable : ℕ → Db → Type 0
Deletable id db =
    (c : Config) × (find_config id db ≡ some c)
    × (status_eq c.status active ≡ false)
    × (c.approved_at ≡ none)

other_key : (a b : ℕ) → a ≢ b → (a == b) ≡ false
other_key a b h = elim (Bool-cases (a == b)) [
  | inl same ↦ absurd (h (==_sound a b same))
  | inr other ↦ other
]

delete_config-Gone : (id : ℕ) (db : Db) → Gone id db (delete_config id db)
unfolding delete_config
delete_config-Gone id db = record {
  config = find-delete_where (λ (c : Config). c.id) id id db.configs ∙ rw (==_refl id) refl;
  domains = some_row-delete_where_none _ _ db.domain_rules (λ r h. h);
  ip_ranges = some_row-delete_where_none _ _ db.ip_range_rules (λ r h. h);
  parents = some_row-delete_where_none _ _ db.parent_proxies (λ r h. h);
  client_acl = some_row-delete_where_none _ _ db.client_acl_rules (λ r h. h);
  proxies = some_row-delete_where_none _ _ db.config_proxies (λ r h. h);
  others = λ other ne.
      find-delete_where (λ (c : Config). c.id) other id db.configs
      ∙ rw (other_key other id ne) refl;
}

is_nil-none : (o : Option ℕ) → is_nil o ≡ true → o ≡ none
is_nil-none none h = refl
is_nil-none (some t) h = cc

inactive_of_not : (b : Bool) → not b ≡ true → b ≡ false
inactive_of_not b h = ground arith

statement-Sat :
    (id : ℕ) (c : Config) (before : Db)
    → find_config id before ≡ some c
    → Sat (λ db. db ≡ before) (ConfigRepo.delete id) (λ db. db ≡ before) (λ _. Gone id before)
unfolding ConfigRepo.delete
statement-Sat id c before found =
    Sat-bind _ _
      (Sat-checked {Q = λ affected db. (affected ≡ true) × Gone id before db} _ _ _ (λ db t. t)
        (λ now db t _. (
          subst (λ (x : Db). some_row (λ r. r.id == id) x.configs ≡ true) (sym t)
              (found_some_row (λ (x : Config). x.id) id (λ r. r.id == id) before.configs c found
                (rw (find_key (λ (x : Config). x.id) id before.configs found) (==_refl id))),
          subst (λ x. Gone id x (delete_config id db)) t (delete_config-Gone id db),
        )))
      λ affected. Sat-fact _ λ yes. Sat-passed affected not_found yes

Gone-audit :
    (id : ℕ) (before db : Db) (logs : List AuditLog) (n : ℕ)
    → Gone id before db
    → Gone id before (record db { audit_logs = logs; serial = n })
Gone-audit id before db logs n g = record {
  config = g.config;
  domains = g.domains;
  ip_ranges = g.ip_ranges;
  parents = g.parents;
  client_acl = g.client_acl;
  proxies = g.proxies;
  others = g.others;
}

-- The audit entry comes last, and its error is dropped.
audit_last :
    {P I Q : Db → Type 0} (e : AuditRepo.Entry)
    → ((db : Db) (logs : List AuditLog) (n : ℕ)
        → P db
        → P (record db { audit_logs = logs; serial = n }))
    → ((db : Db) → P db → Q db)
    → Sat P (ignore (AuditRepo.create e)) I (λ _. Q)
audit_last e stable h = Sat-post _ (λ db i. i) (λ _. h) (audit-Sat e stable)

service-Sat :
    (rt : Runtime) (id : ℕ) (by : Caller) (before : Db)
    → Sat
        (λ db. db ≡ before)
        (delete rt id by)
        (λ db. db ≡ before)
        (λ _ db. Deletable id before × Gone id before db)
unfolding delete
service-Sat rt id by before = Sat-bind _ _ (get_by_id-Sat id (λ db t. t)) λ c.
    Sat-bind _ _
      (Sat-guard
        {Q = λ _ db.
          (status_eq c.status active ≡ false) × ((find_config id before ≡ some c) × (db ≡ before))}
        _ bad_request (λ db t. t.0)
        (λ db b t. (
          inactive_of_not (status_eq c.status active) b,
          (subst (λ x. find_config id x ≡ some c) t.0 t.1, t.0),
        )))
      λ _. Sat-fact _ λ inactive. Sat-fact _ λ found.
        Sat-bind _ _
          (Sat-guard {Q = λ _ db. (c.approved_at ≡ none) × (db ≡ before)} _ bad_request (λ db t. t)
            (λ db b t. (is_nil-none c.approved_at b, t)))
          λ _. Sat-fact _ λ never.
            Sat-bind _ _ (statement-Sat id c before found)
              λ _. audit_last _ (Gone-audit id before) (λ db g. ((c, found, inactive, never), g))

-- A deletion that succeeds was of a config that existed, was not active and had never been
-- approved; it leaves neither the config nor a rule or an assignment of it, and every other config
-- as it was.
pub delete-Gone :
    (rt : Runtime) (id : ℕ) (by : Caller) (w w' : World)
    → delete rt id by w ≡ (ok tt, w')
    → Deletable id w.db × Gone id w.db w'.db
delete-Gone rt id by w w' h = Sat-ok (delete rt id by) w w' tt (service-Sat rt id by w.db) refl h

-- A deletion that fails leaves every table as it was.
pub delete_undone :
    (rt : Runtime) (id : ℕ) (by : Caller) (w w' : World) (e : Error)
    → delete rt id by w ≡ (err e, w')
    → w'.db ≡ w.db
delete_undone rt id by w w' e h =
    Sat-err (delete rt id by) w w' e (service-Sat rt id by w.db) refl h
