-- ===== src/Invariant/Workflow.antt =====
-- `Submit`, `Approve` and `Reject` of `ConfigService` keep the rules of Invariant/Lifecycle.
use ats_proxy_manager.Prelude.{ℕ, true, Option, none, some, ◌≡◌, ap, ==_sound}
use ats_proxy_manager.Domain.Enums.{invalid_status, forbidden}
use ats_proxy_manager.Runtime.{Runtime}
use ats_proxy_manager.Store.{Db}
use ats_proxy_manager.Store.Sat.{Keeps, Sat-pure, Sat-bind, Sat-then, Sat-post, Sat-guard, Sat-fact}
use ats_proxy_manager.Repository.Keys.{find_config, is_value}
use ats_proxy_manager.Repository.ConfigRepo
use ats_proxy_manager.Service.ConfigService.Files.{generate_config_files, generate_config_hash}
use ats_proxy_manager.Service.ConfigService.Edit.{Caller}
use ats_proxy_manager.Service.ConfigService.Workflow.{submit, reject, approve}
use ats_proxy_manager.Invariant.Lifecycle.{Inv}
use ats_proxy_manager.Invariant.ConfigStatements.{
  get_by_id-Sat, submit-Inv, reject-Inv, deactivate_others-Sat, approve-Sat,
}
use ats_proxy_manager.Invariant.Edit.{
  DomainRuleRepo-list-Keeps, IpRangeRuleRepo-list-Keeps, ParentProxyRepo-list-Keeps,
  ClientAclRepo-list-Keeps, audit-Inv,
}

-- Reading a config keeps everything.
pub get_by_id-Keeps : {P : Db → Type 0} (id : ℕ) → Keeps P (ConfigRepo.get_by_id id)
get_by_id-Keeps id = Sat-post _ (λ db p. p) (λ c db p. p.0) (get_by_id-Sat id (λ db p. p))

pub generate_config_files-Keeps :
    {P : Db → Type 0} (rt : Runtime) (id : ℕ) → Keeps P (generate_config_files rt id)
unfolding generate_config_files
generate_config_files-Keeps rt id =
    Sat-then _ _ (λ db p. p) (DomainRuleRepo-list-Keeps rt.rows_before_error rt.row_order id)
      λ domains.
        Sat-then _ _ (λ db p. p) (IpRangeRuleRepo-list-Keeps rt.rows_before_error rt.row_order id)
          λ ip_ranges.
            Sat-then _ _ (λ db p. p)
              (ParentProxyRepo-list-Keeps rt.rows_before_error rt.row_order id)
              λ parents.
                Sat-then _ _ (λ db p. p)
                  (ClientAclRepo-list-Keeps rt.rows_before_error rt.row_order id)
                  λ client_acl.
                    Sat-then _ _ (λ db p. p) (get_by_id-Keeps id) λ cfg. Sat-pure _ (λ db p. p)

pub generate_config_hash-Keeps :
    {P : Db → Type 0} (rt : Runtime) (id : ℕ) → Keeps P (generate_config_hash rt id)
unfolding generate_config_hash
generate_config_hash-Keeps rt id =
    Sat-then _ _ (λ db p. p) (generate_config_files-Keeps rt id) λ files. Sat-pure _ (λ db p. p)

pub submit-Keeps : (id : ℕ) (by : Caller) → Keeps Inv (submit id by)
unfolding submit
submit-Keeps id by =
    Sat-then _ _ (λ db t. t) (submit-Inv id by.user_id)
      λ _. Sat-then _ _ (λ db t. t) (audit-Inv _) λ _. get_by_id-Keeps id

pub reject-Keeps : (id : ℕ) (by : Caller) → Keeps Inv (reject id by)
unfolding reject
reject-Keeps id by =
    Sat-then _ _ (λ db t. t) (reject-Inv id)
      λ _. Sat-then _ _ (λ db t. t) (audit-Inv _) λ _. get_by_id-Keeps id

pub submitter : (u : ℕ) (o : Option ℕ) → is_value u o ≡ true → o ≡ some u
submitter u none h = cc
submitter u (some v) h = ap some (==_sound v u h)

pub approve-Keeps : (rt : Runtime) (id : ℕ) (by : Caller) → Keeps Inv (approve rt id by)
unfolding approve
approve-Keeps rt id by = Sat-bind _ _ (get_by_id-Sat id (λ db t. t)) λ cfg.
    Sat-bind _ _
      (Sat-guard {Q = λ _ db. Inv db × (find_config id db ≡ some cfg)} _ invalid_status
        (λ db t. t.0) (λ db _ t. t))
      λ _.
        Sat-bind _ _
          (Sat-guard
            {Q = λ _ db.
              (cfg.submitted_by ≡ some by.user_id) × (Inv db × (find_config id db ≡ some cfg))}
            _ forbidden (λ db t. t.0) (λ db own t. (submitter by.user_id cfg.submitted_by own, t)))
          λ _.
            Sat-then _ _ (λ db t. t.1.0) (generate_config_hash-Keeps rt id)
              λ hash. Sat-fact _ (λ own. Sat-bind _ _ (deactivate_others-Sat id cfg) λ _.
                Sat-bind _ _ (approve-Sat id by.user_id hash cfg own)
                  λ _. Sat-then _ _ (λ db t. t) (audit-Inv _) λ _. get_by_id-Keeps id)
