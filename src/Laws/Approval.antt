-- ===== src/Laws/Approval.antt =====
-- `Approve` of backend/internal/service/config_service.go, when it succeeds.
use ats_proxy_manager.Prelude.{
  ℕ, List, Bool, true, some, ◌≡◌, refl, ◌∙◌, subst, ◌==◌, ◌&&◌, arith, Bool-cases, some_unique, inl,
  inr, Str, ap,
}
use ats_proxy_manager.Prelude.Table.{
  update_where, find-update_where, find-update_where_inv, find_key,
}
use ats_proxy_manager.Domain.Enums.{invalid_status, forbidden, pending_approval, active, status_eq}
use ats_proxy_manager.Domain.Models.{Config, AuditLog}
use ats_proxy_manager.Runtime.{Runtime}
use ats_proxy_manager.Store.{Db, World, ok}
use ats_proxy_manager.Store.Sat.{
  Sat, Sat-pure, Sat-bind, Sat-then, Sat-guard, Sat-fact, Sat-statement, Sat-post,
}
use ats_proxy_manager.Store.Outcomes.{Sat-ok}
use ats_proxy_manager.Repository.Keys.{find_config}
use ats_proxy_manager.Repository.Sat.{Sat-checked}
use ats_proxy_manager.Repository.ConfigRepo
use ats_proxy_manager.Service.ConfigService.Files.{generate_config_hash, hash_files}
use ats_proxy_manager.Service.ConfigService.Edit.{Caller}
use ats_proxy_manager.Service.ConfigService.Workflow.{approve}
use ats_proxy_manager.Invariant.Lifecycle.{config_at, active_at-some}
use ats_proxy_manager.Invariant.ConfigStatements.{
  Alone, get_by_id-Sat, deactivated_self, deactivated-Alone,
}
use ats_proxy_manager.Invariant.Workflow.{submitter}
use ats_proxy_manager.Laws.Audit.{audit-Keeps}
use ats_proxy_manager.Laws.Files.{FailsWhole, files_of, files-Sat}

-- A config that this user has just approved, in these tables.
pub record Approved (rt : Runtime) (id user_id : ℕ) (c : Config) (db : Db) : Type 0 where
  pub found : find_config id db ≡ some c
  pub status : c.status ≡ active
  pub submitted_by : c.submitted_by ≡ some user_id
  pub approved_by : c.approved_by ≡ some user_id
  -- the hash is that of the files which the rules in the tables give
  pub hash : c.config_hash ≡ some (hash_files rt (files_of rt id c.default_action db))
  -- no other active config has one of its proxies
  pub alone : Alone id db

module _ (rt : Runtime) (id : ℕ) where
  pub hash-Sat :
      {P : Db → Type 0} (cfg : Config)
      → FailsWhole rt
      → ((db : Db) → P db → find_config id db ≡ some cfg)
      → Sat P
          (generate_config_hash rt id)
          (λ _. Unit {0})
          (λ h db. (h ≡ hash_files rt (files_of rt id cfg.default_action db)) × P db)
  unfolding generate_config_hash
  hash-Sat cfg whole found =
      Sat-bind _ _ (files-Sat rt id cfg whole (λ db t. tt) found)
        λ f. Sat-pure _ (λ db t. (ap (hash_files rt) t.0, t.1))

  -- What `ConfigRepo.Approve` writes.
  abbrev pub approved_row : ℕ → Str → ℕ → Config → Config
  approved_row user_id hash now r = record r {
    status = active;
    approved_by = some user_id;
    approved_at = some now;
    modified_by = some user_id;
    modified_at = now;
    config_hash = some hash;
  }

  -- What is known before `ConfigRepo.Approve`.
  abbrev pub Ready : ℕ → Config → Str → Db → Type 0
  Ready user_id cfg hash db =
      (hash ≡ hash_files rt (files_of rt id cfg.default_action db))
      × (find_config id db ≡ some cfg)
      × Alone id db

  abbrev pub is_target : Config → Bool
  is_target r = r.id == id && status_eq r.status pending_approval

  -- The row that is found becomes the approved one, and no other config becomes active.
  pub approved-found :
      (user_id : ℕ) (cfg : Config) (hash : Str) (now : ℕ) (db : Db)
      → status_eq cfg.status pending_approval ≡ true
      → find_config id db ≡ some cfg
      → config_at id (update_where is_target (approved_row user_id hash now) db.configs)
        ≡ some (approved_row user_id hash now cfg)
  approved-found user_id cfg hash now db pending e =
      let key : cfg.id ≡ id = find_key (λ (x : Config). x.id) id db.configs e in
      let hit : is_target cfg ≡ true = ground (arith, key, pending) in
      find-update_where (λ (x : Config). x.id) id is_target (approved_row user_id hash now)
        db.configs (λ x. refl)
      ∙ rw e (rw hit refl)

  approved-Alone :
      (user_id : ℕ) (hash : Str) (now : ℕ) (db : Db)
      → Alone id db
      → Alone id (record db {
        configs = update_where is_target (approved_row user_id hash now) db.configs;
      })
  approved-Alone user_id hash now db alone j q a u v =
      let (y, e, act) =
        active_at-some j (update_where is_target (approved_row user_id hash now) db.configs) a in
      let (x, ex, ey) =
        find-update_where_inv (λ (c : Config). c.id) j is_target (approved_row user_id hash now)
          db.configs y (λ x. refl) e in
      let key : x.id ≡ j = find_key (λ (c : Config). c.id) j db.configs ex in
      elim (Bool-cases (is_target x)) [
        | inl hit ↦ ground (arith, hit, key)
        | inr other ↦ alone j q (rw ex (ground (arith, ey, other, act))) u v
      ]

  pub approved-Approved :
      (user_id : ℕ) (cfg : Config) (hash : Str) (now : ℕ) (db : Db)
      → status_eq cfg.status pending_approval ≡ true
      → cfg.submitted_by ≡ some user_id
      → Ready user_id cfg hash db
      → (c : Config) × Approved rt id user_id c (record db {
        configs = update_where is_target (approved_row user_id hash now) db.configs;
      })
  approved-Approved user_id cfg hash now db pending own (h, e, alone) = (
    approved_row user_id hash now cfg,
    record {
      found = approved-found user_id cfg hash now db pending e;
      status = refl;
      submitted_by = own;
      approved_by = refl;
      hash = ap some h;
      alone = approved-Alone user_id hash now db alone;
    },
  )

  approve-Sat :
      (user_id : ℕ) (cfg : Config) (hash : Str)
      → status_eq cfg.status pending_approval ≡ true
      → cfg.submitted_by ≡ some user_id
      → Sat
          (Ready user_id cfg hash)
          (ConfigRepo.approve id user_id hash)
          (λ _. Unit {0})
          (λ _ db. (c : Config) × Approved rt id user_id c db)
  unfolding ConfigRepo.approve
  approve-Sat user_id cfg hash pending own =
      Sat-bind _ _
        (Sat-checked {Q = λ _ db. (c : Config) × Approved rt id user_id c db} _ _ _ (λ db t. tt)
          λ now db t _. approved-Approved user_id cfg hash now db pending own t)
        λ affected. Sat-guard affected invalid_status (λ db t. tt) (λ db _ t. t)

  -- The audit log is no part of it.
  pub logged-Approved :
      (user_id : ℕ) (c : Config) (db : Db) (logs : List AuditLog) (n : ℕ)
      → Approved rt id user_id c db
      → Approved rt id user_id c (record db { audit_logs = logs; serial = n })
  logged-Approved user_id c db logs n a = record {
    found = a.found;
    status = a.status;
    submitted_by = a.submitted_by;
    approved_by = a.approved_by;
    hash = a.hash;
    alone = a.alone;
  }

  -- The last read finds the row.
  Approved-read :
      (user_id : ℕ) (c : Config) (db : Db)
      → ((d : Config) × Approved rt id user_id d db) × (find_config id db ≡ some c)
      → Approved rt id user_id c db
  Approved-read user_id c db ((d, a), e) =
      subst (λ x. Approved rt id user_id x db) (some_unique d c a.found e) a

  service-Sat :
      (by : Caller)
      → FailsWhole rt
      → Sat (λ _. Unit {0}) (approve rt id by) (λ _. Unit {0}) (Approved rt id by.user_id)
  unfolding approve ConfigRepo.deactivate_others
  service-Sat by whole = Sat-bind _ _ (get_by_id-Sat {P = λ _. Unit} id (λ db t. tt)) λ cfg.
      Sat-bind _ _
        (Sat-guard
          {Q = λ _ db.
            (status_eq cfg.status pending_approval ≡ true) × (find_config id db ≡ some cfg)}
          _ invalid_status (λ db t. tt) (λ db b t. (b, t.1)))
        λ _. Sat-fact _ λ pending.
          Sat-bind _ _
            (Sat-guard
              {Q = λ _ db. (cfg.submitted_by ≡ some by.user_id) × (find_config id db ≡ some cfg)} _
              forbidden (λ db t. tt) (λ db own t. (submitter by.user_id cfg.submitted_by own, t)))
            λ _. Sat-fact _ λ own. Sat-bind _ _ (hash-Sat cfg whole (λ db t. t)) λ hash.
              Sat-bind _ _
                (Sat-statement {Q = λ _. Ready by.user_id cfg hash} _ (λ db t. tt)
                  λ now db t. (t.0, deactivated_self id cfg db t.1, deactivated-Alone id db))
                λ _. Sat-bind _ _ (approve-Sat by.user_id cfg hash pending own) λ _.
                  Sat-then _ _ (λ db t. tt)
                    (audit-Keeps {P = λ db. (d : Config) × Approved rt id by.user_id d db} _
                      (λ db logs n t. (t.0, logged-Approved by.user_id t.0 db logs n t.1)))
                    λ _.
                      Sat-post _ (λ db t. t) (λ c db t. Approved-read by.user_id c db t)
                        (get_by_id-Sat id (λ db t. tt))

-- Where no query breaks off after some of its rows, and whatever else fails: an approval that
-- succeeds answers with the config as the tables now hold it: active, approved by the caller, who
-- had submitted it, with the hash of the files that its rules in the tables give; and no other
-- active config is assigned to one of its proxies.
pub approve-Approved :
    (rt : Runtime) (id : ℕ) (by : Caller) (w w' : World) (c : Config)
    → FailsWhole rt
    → approve rt id by w ≡ (ok c, w')
    → Approved rt id by.user_id c w'.db
approve-Approved rt id by w w' c whole h =
    Sat-ok (approve rt id by) w w' c (service-Sat rt id by whole) tt h
