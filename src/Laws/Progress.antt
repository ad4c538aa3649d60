-- ===== src/Laws/Progress.antt =====
-- `Submit`, `Approve` and `Reject` of backend/internal/service/config_service.go succeed on a
-- config in the right status, where no statement fails for a reason outside the program.
use ats_proxy_manager.Prelude.{
  ℕ, Bool, false, Option, sym, subst, ap, List, [], ◌∷◌, true, some, ◌≡◌, refl, arith, Str, ==_refl,
}
use ats_proxy_manager.Prelude.Table.{some_row, find, find_key}
use ats_proxy_manager.Domain.Enums.{
  invalid_status, forbidden, not_found, pending_approval, status_eq,
}
use ats_proxy_manager.Domain.Models.{Config, AuditLog}
use ats_proxy_manager.Runtime.{Runtime}
use ats_proxy_manager.Store.{
  Db, World, ok, query, fetch, send_query, is_aborted, next_fault, later_faults, ignore,
}
use ats_proxy_manager.Store.Total.{
  Total, Calm, Answered, Success, Total-statement, Total-pure, Total-or_raise, Total-bind,
  Total-fact, Total-guard, Total-ignore, Total-ok, Total-exists, Total-post,
}
use ats_proxy_manager.Repository.Keys.{find_config, has_user, is_value, checked}
use ats_proxy_manager.Repository.ConfigRepo
use ats_proxy_manager.Repository.AuditRepo
use ats_proxy_manager.Repository.DomainRuleRepo
use ats_proxy_manager.Repository.IpRangeRuleRepo
use ats_proxy_manager.Repository.ParentProxyRepo
use ats_proxy_manager.Repository.ClientAclRepo
use ats_proxy_manager.Service.ConfigService.Files.{
  generate_config_files, generate_config_hash, hash_files,
}
use ats_proxy_manager.Service.ConfigService.Edit.{Caller, audit_entry}
use ats_proxy_manager.Service.ConfigService.Workflow.{approve, status_entry}
use ats_proxy_manager.Invariant.ConfigStatements.{deactivated_self, deactivated-Alone}
use ats_proxy_manager.Laws.Files.{files_of, domains_of, ip_ranges_of, parents_of, client_acl_of}
use ats_proxy_manager.Laws.Approval.{Approved, Ready, approved-Approved, logged-Approved, is_target}

pub found_some_row :
    {A : Type 0} (key : A → ℕ) (k : ℕ) (p : A → Bool) (xs : List A) (x : A)
    → find key k xs ≡ some x
    → p x ≡ true
    → some_row p xs ≡ true
unfolding find some_row
found_some_row key k p [] x e h = cc
found_some_row key k p (y ∷ xs) x e h = ground (arith, found_some_row key k p xs x)

get_by_id-Total :
    {P : Db → Type 0} (id : ℕ) (c : Config)
    → ((db : Db) → P db → find_config id db ≡ some c)
    → Total P (ConfigRepo.get_by_id id) (λ d db. (d ≡ c) × P db)
unfolding ConfigRepo.get_by_id
get_by_id-Total {P} id c h =
    Total-bind _ _
      (Total-statement {Q = λ found db. (found ≡ some c) × P db} _ (λ now db p. (h db p, p)))
      λ found. Total-fact _ λ is. Total-or_raise found not_found c is (λ db p. (refl, p))

-- A query of which no statement fails has all its rows.
query-Total :
    {A : Type 0} {P : Db → Type 0} (cut : List Bool → Option ℕ) (rows : Db → List A)
    → Total P (query cut rows) (λ xs db. (xs ≡ rows db) × P db)
unfolding query
query-Total {A} {P} cut rows = record { at = λ w c p. of_send w c p (is_aborted w.tx) c.1 }
  where
    All : List A → Db → Type 0
    All xs db = (xs ≡ rows db) × P db

    of_fetch :
        (w : World)
        → Calm w
        → P w.db
        → (b : Bool) (o : Option ℕ) → b ≡ false
        → Success All (fetch b o rows w)
    of_fetch w c p true o e = cc e
    of_fetch w c p false o e = (c, (refl, p))

    of_send :
        (w : World)
        → Calm w
        → P w.db
        → (b : Bool) → b ≡ false
        → Success All (send_query b cut rows w)
    of_send w c p true e = cc e
    of_send w c p false e =
        of_fetch (record w { faults = later_faults w.faults }) (rw c.0 refl, c.1) p
          (next_fault w.faults) (cut (later_faults w.faults)) (rw c.0 refl)

hash-Total :
    {P : Db → Type 0} (rt : Runtime) (id : ℕ) (cfg : Config)
    → ((db : Db) → P db → find_config id db ≡ some cfg)
    → Total P
        (generate_config_hash rt id)
        (λ h db. (h ≡ hash_files rt (files_of rt id cfg.default_action db)) × P db)
unfolding generate_config_hash generate_config_files DomainRuleRepo.list_by_config
    IpRangeRuleRepo.list_by_config ParentProxyRepo.list_by_config ClientAclRepo.list_by_config
hash-Total {P} rt id cfg found =
    Total-bind _ _
      (Total-bind _ _ (query-Total _ (domains_of rt id)) λ domains.
        Total-bind _ _ (query-Total _ (ip_ranges_of rt id)) λ ip_ranges.
          Total-bind _ _ (query-Total _ (parents_of rt id)) λ parents.
            Total-bind _ _ (query-Total _ (client_acl_of rt id)) λ client_acl.
              Total-bind _ _ (get_by_id-Total id cfg (λ db t. found db t.1.1.1.1)) λ c.
                Total-pure {Q = λ f db. (f ≡ files_of rt id cfg.default_action db) × P db} _ λ db t.
                  let (same, (a, (p, (r, (d, h))))) = t in
                  (rw a (rw p (rw r (rw d (rw same refl)))), h))
      λ files. Total-pure _ (λ db t. (ap (hash_files rt) t.0, t.1))

-- The user who acts is there, and so is the config.
abbrev Known : ℕ → ℕ → Config → Db → Type 0
Known user_id id c db = (has_user user_id db ≡ true) × (find_config id db ≡ some c)

audit-Total :
    {P : Db → Type 0} (e : AuditRepo.Entry) (user_id : ℕ)
    → e.user_id ≡ some user_id
    → ((db : Db) → P db → has_user user_id db ≡ true)
    → ((db : Db) (logs : List AuditLog) (n : ℕ)
        → P db
        → P (record db { audit_logs = logs; serial = n }))
    → Total P (ignore (AuditRepo.create e)) (λ _. P)
unfolding AuditRepo.create
audit-Total e user_id is user stable =
    Total-ignore _ (Total-statement _ (λ now db p. rw is (rw (user db p) (stable db _ _ p))))

status-user :
    (by : Caller) (action : Str) (id : ℕ) (old new : Str)
    → (status_entry by action id old new).user_id ≡ some by.user_id
unfolding status_entry audit_entry
status-user by action id old new = refl

checked-Answered :
    {A : Type 0} (Q : A → Db → Type 0) (b : Bool) (a : A) (db : Db)
    → b ≡ true
    → Q a db
    → Answered Q (checked b (a, db))
checked-Answered Q true a db e q = q
checked-Answered Q false a db e q = cc

-- What holds once the row is written.
abbrev Done : Runtime → ℕ → ℕ → Config → Db → Type 0
Done rt id user_id c db = (has_user user_id db ≡ true) × Approved rt id user_id c db

approve-Total :
    (rt : Runtime) (id : ℕ) (by : Caller) (cfg : Config)
    → status_eq cfg.status pending_approval ≡ true
    → is_value by.user_id cfg.submitted_by ≡ true
    → cfg.submitted_by ≡ some by.user_id
    → Total (Known by.user_id id cfg) (approve rt id by) (Approved rt id by.user_id)
unfolding approve ConfigRepo.deactivate_others ConfigRepo.approve
approve-Total rt id by cfg pending own submitter =
    Total-bind _ _ (get_by_id-Total id cfg (λ db t. t.1)) λ d. Total-fact _ λ same.
      Total-bind _ _ (Total-guard _ invalid_status (rw same pending)) λ _.
        Total-bind _ _ (Total-guard _ forbidden (rw same own)) λ _.
          Total-bind _ _ (hash-Total rt id cfg (λ db t. t.1)) λ hash.
            Total-bind _ _
              (Total-statement {Q = λ _. ReadyBy hash} _ (λ now db t.
                (t.1.0, (t.0, deactivated_self id cfg db t.1.1, deactivated-Alone id db))))
              λ _. Total-bind _ _ (written hash) λ _. Total-exists _ λ c.
                Total-bind _ _
                  (audit-Total _ by.user_id (status-user by _ id _ _) (λ db t. t.0)
                    (λ db logs n t. (t.0, logged-Approved rt id by.user_id c db logs n t.1)))
                  λ _.
                    Total-post _
                      (λ d db t. subst (λ x. Approved rt id by.user_id x db) (sym t.0) t.1.1)
                      (get_by_id-Total id c (λ db t. t.1.found))
  where
    ReadyBy : Str → Db → Type 0
    ReadyBy hash db = (has_user by.user_id db ≡ true) × Ready rt id by.user_id cfg hash db

    DoneBy : Bool → Db → Type 0
    DoneBy affected db = (affected ≡ true) × ((c : Config) × Done rt id by.user_id c db)

    found_row :
        (db : Db) → find_config id db ≡ some cfg → some_row (is_target rt id) db.configs ≡ true
    found_row db e =
        found_some_row (λ (x : Config). x.id) id (is_target rt id) db.configs cfg e
          (ground (arith, find_key (λ (x : Config). x.id) id db.configs e, pending))

    written :
        (hash : Str)
        → Total
            (ReadyBy hash)
            (ConfigRepo.approve id by.user_id hash)
            (λ _ db. (c : Config) × Done rt id by.user_id c db)
    written hash =
        Total-bind _ _
          (Total-statement {Q = DoneBy} _ (λ now db t.
            let (c, a) = approved-Approved rt id by.user_id cfg hash now db pending submitter t.1 in
            checked-Answered DoneBy _ _ _ t.0 (found_row db t.1.1, (c, (t.0, a)))))
          λ affected. Total-fact _ λ yes. Total-guard affected invalid_status yes

-- Where no statement fails for a reason outside the program, a user approves a pending config that
-- the same user has submitted: the call succeeds, and leaves the config approved.
pub approve_succeeds :
    (rt : Runtime) (id : ℕ) (by : Caller) (cfg : Config) (w : World)
    → Calm w
    → has_user by.user_id w.db ≡ true
    → find_config id w.db ≡ some cfg
    → cfg.status ≡ pending_approval
    → cfg.submitted_by ≡ some by.user_id
    → (c : Config) × (w' : World) × (approve rt id by w ≡ (ok c, w'))
      × Approved rt id by.user_id c w'.db
approve_succeeds rt id by cfg w calm user found pending own =
    Total-ok (approve rt id by) w
      (approve-Total rt id by cfg (rw pending refl) (rw own (==_refl by.user_id)) own) calm
      (user, found)
