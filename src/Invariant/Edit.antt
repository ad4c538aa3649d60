-- ===== src/Invariant/Edit.antt =====
-- `Create`, `Update`, `Clone` and `Delete` of `ConfigService` keep the rules of
-- Invariant/Lifecycle, whichever of their statements fail.
use ats_proxy_manager.Prelude.{Bool, Option, List, ℕ, true, false, some, ◌≡◌, ◌∙◌, arith}
use ats_proxy_manager.Domain.Enums.{
  ConfigStatus, draft, active, bad_request, invalid_status, status_eq,
}
use ats_proxy_manager.Domain.Models.{Config}
use ats_proxy_manager.Runtime.{Runtime}
use ats_proxy_manager.Store.{Db, ignore}
use ats_proxy_manager.Store.Sat.{
  Sat, Keeps, Sat-pure, Sat-bind, Sat-then, Sat-post, Sat-guard, Sat-ignore, Sat-with_tx, Sat-pre,
}
use ats_proxy_manager.Repository.Keys.{find_config}
use ats_proxy_manager.Repository.Sat.{Sat-query}
use ats_proxy_manager.Repository.ConfigRepo
use ats_proxy_manager.Repository.DomainRuleRepo
use ats_proxy_manager.Repository.IpRangeRuleRepo
use ats_proxy_manager.Repository.ParentProxyRepo
use ats_proxy_manager.Repository.ClientAclRepo
use ats_proxy_manager.Repository.ConfigProxyRepo
use ats_proxy_manager.Repository.AuditRepo
use ats_proxy_manager.Repository.Order.{PriorityOrder, HostnameOrder}
use ats_proxy_manager.Service.Collect.{collect-Keeps}
use ats_proxy_manager.Service.ConfigInput.{
  CreateConfigRequest, DomainRuleInput, IpRangeRuleInput, ParentProxyInput, ClientAclInput,
}
use ats_proxy_manager.Service.ConfigService.Rules.{
  create_domains, create_ip_ranges, create_parents, create_client_acl, assign_all,
}
use ats_proxy_manager.Service.ConfigService.Edit.{
  Caller, create_body, create, clear_rules, update_body, update, clone_body, clone, delete,
}
use ats_proxy_manager.Invariant.Lifecycle.{Inv, active_at-of}
use ats_proxy_manager.Invariant.Statements.{
  With, AuditRepo-create-With, DomainRuleRepo-create-With, IpRangeRuleRepo-create-With,
  ParentProxyRepo-create-With, ClientAclRepo-create-With, DomainRuleRepo-delete_by_config-With,
  IpRangeRuleRepo-delete_by_config-With, ParentProxyRepo-delete_by_config-With,
  ClientAclRepo-delete_by_config-With, ConfigProxyRepo-delete_by_config-With,
}
use ats_proxy_manager.Invariant.ConfigStatements.{
  Inactive, get_by_id-Sat, create-Sat, update-With, delete-Inv, assign-With,
}

-- The queries keep everything.
module _ {P : Db → Type 0} where
  pub DomainRuleRepo-list-Keeps :
      (cut : List Bool → Option ℕ) (o : PriorityOrder) (id : ℕ)
      → Keeps P (DomainRuleRepo.list_by_config cut o id)
  unfolding DomainRuleRepo.list_by_config
  DomainRuleRepo-list-Keeps cut o id = Sat-query _ _

  pub IpRangeRuleRepo-list-Keeps :
      (cut : List Bool → Option ℕ) (o : PriorityOrder) (id : ℕ)
      → Keeps P (IpRangeRuleRepo.list_by_config cut o id)
  unfolding IpRangeRuleRepo.list_by_config
  IpRangeRuleRepo-list-Keeps cut o id = Sat-query _ _

  pub ParentProxyRepo-list-Keeps :
      (cut : List Bool → Option ℕ) (o : PriorityOrder) (id : ℕ)
      → Keeps P (ParentProxyRepo.list_by_config cut o id)
  unfolding ParentProxyRepo.list_by_config
  ParentProxyRepo-list-Keeps cut o id = Sat-query _ _

  pub ClientAclRepo-list-Keeps :
      (cut : List Bool → Option ℕ) (o : PriorityOrder) (id : ℕ)
      → Keeps P (ClientAclRepo.list_by_config cut o id)
  unfolding ClientAclRepo.list_by_config
  ClientAclRepo-list-Keeps cut o id = Sat-query _ _

  pub ConfigProxyRepo-list-Keeps :
      (cut : List Bool → Option ℕ) (o : HostnameOrder) (id : ℕ)
      → Keeps P (ConfigProxyRepo.list_by_config cut o id)
  unfolding ConfigProxyRepo.list_by_config
  ConfigProxyRepo-list-Keeps cut o id = Sat-query _ _

-- The loops over rules, for a config that is not active.
module _ (id : ℕ) where
  abbrev Editing : Db → Type 0
  Editing = With (Inactive id)

  domains-Editing : (k : ℕ) (ds : List DomainRuleInput) → Keeps Editing (create_domains k ds)
  unfolding create_domains
  domains-Editing k ds = collect-Keeps _ ds (λ d. DomainRuleRepo-create-With (Inactive id) _)

  ip_ranges-Editing : (k : ℕ) (rs : List IpRangeRuleInput) → Keeps Editing (create_ip_ranges k rs)
  unfolding create_ip_ranges
  ip_ranges-Editing k rs = collect-Keeps _ rs (λ d. IpRangeRuleRepo-create-With (Inactive id) _)

  parents-Editing : (k : ℕ) (ps : List ParentProxyInput) → Keeps Editing (create_parents k ps)
  unfolding create_parents
  parents-Editing k ps = collect-Keeps _ ps (λ d. ParentProxyRepo-create-With (Inactive id) _)

  client_acl-Editing : (k : ℕ) (rs : List ClientAclInput) → Keeps Editing (create_client_acl k rs)
  unfolding create_client_acl
  client_acl-Editing k rs = collect-Keeps _ rs (λ d. ClientAclRepo-create-With (Inactive id) _)

  assign_all-Editing : (user_id : ℕ) (pids : List ℕ) → Keeps Editing (assign_all id user_id pids)
  unfolding assign_all
  assign_all-Editing user_id pids = collect-Keeps _ pids (λ pid. assign-With id pid user_id)

  clear_rules-Editing : (k : ℕ) → Keeps Editing (clear_rules k)
  unfolding clear_rules
  clear_rules-Editing k =
      Sat-then _ _ (λ db t. t) (DomainRuleRepo-delete_by_config-With (Inactive id) k)
        λ _.
          Sat-then _ _ (λ db t. t) (IpRangeRuleRepo-delete_by_config-With (Inactive id) k)
            λ _.
              Sat-then _ _ (λ db t. t) (ParentProxyRepo-delete_by_config-With (Inactive id) k)
                λ _.
                  Sat-then _ _ (λ db t. t) (ClientAclRepo-delete_by_config-With (Inactive id) k)
                    λ _. ConfigProxyRepo-delete_by_config-With (Inactive id) k

  audit-Editing : (e : AuditRepo.Entry) → Keeps Editing (ignore (AuditRepo.create e))
  audit-Editing e = Sat-ignore _ (AuditRepo-create-With (Inactive id) e)

create_body-Sat :
    (req : CreateConfigRequest) (by : Caller) → Sat Inv (create_body req by) Inv (λ _. Inv)
unfolding create_body ConfigRepo.create
create_body-Sat req by = Sat-bind _ _ (create-Sat _ 1) λ cfg.
    Sat-then _ _ (λ db t. t.0) (domains-Editing cfg.id cfg.id _)
      λ domains.
        Sat-then _ _ (λ db t. t.0) (ip_ranges-Editing cfg.id cfg.id _)
          λ ip_ranges.
            Sat-then _ _ (λ db t. t.0) (parents-Editing cfg.id cfg.id _)
              λ parents.
                Sat-then _ _ (λ db t. t.0) (client_acl-Editing cfg.id cfg.id _)
                  λ client_acl.
                    Sat-then _ _ (λ db t. t.0) (assign_all-Editing cfg.id by.user_id _)
                      λ done.
                        Sat-then _ _ (λ db t. t.0) (audit-Editing cfg.id _)
                          λ _. Sat-pure _ (λ db t. t.0)

pub create-Inv :
    (rt : Runtime) (req : CreateConfigRequest) (by : Caller) → Keeps Inv (create rt req by)
unfolding create
create-Inv rt req by = Sat-bind _ _ (Sat-guard _ bad_request (λ db t. t) (λ db _ t. t)) λ _.
    Sat-bind _ _ (Sat-guard _ bad_request (λ db t. t) (λ db _ t. t)) λ _.
      Sat-with_tx _ (λ db t. t) (Sat-post _ (λ db t. tt) (λ a db t. t) (create_body-Sat req by))

-- What `Update` knows once it has read a draft.
draft-Editing :
    (id : ℕ) (cfg : Config)
    → status_eq cfg.status draft ≡ true
    → (db : Db) → Inv db × (find_config id db ≡ some cfg)
    → With (Inactive id) db
draft-Editing id cfg d db (t, e) =
    (t, active_at-of id db.configs cfg e ∙ draft_not_active cfg.status d)
  where
    draft_not_active : (s : ConfigStatus) → status_eq s draft ≡ true → status_eq s active ≡ false
    draft_not_active s h = ground arith

update_body-Sat :
    (id : ℕ) (req : CreateConfigRequest) (by : Caller)
    → Sat Inv (update_body id req by) Inv (λ _. Inv)
unfolding update_body
update_body-Sat id req by = Sat-bind _ _ (get_by_id-Sat id (λ db t. t)) λ cfg.
    Sat-bind _ _
      (Sat-guard {Q = λ _. With (Inactive id)} _ invalid_status (λ db t. t.0)
        (λ db d t. draft-Editing id cfg d db t))
      λ _.
        Sat-then _ _ (λ db t. t.0) (update-With id _)
          λ _.
            Sat-then _ _ (λ db t. t.0) (clear_rules-Editing id id)
              λ _.
                Sat-then _ _ (λ db t. t.0) (domains-Editing id id _)
                  λ domains.
                    Sat-then _ _ (λ db t. t.0) (ip_ranges-Editing id id _)
                      λ ip_ranges.
                        Sat-then _ _ (λ db t. t.0) (parents-Editing id id _)
                          λ parents.
                            Sat-then _ _ (λ db t. t.0) (client_acl-Editing id id _)
                              λ client_acl.
                                Sat-then _ _ (λ db t. t.0) (assign_all-Editing id by.user_id _)
                                  λ done.
                                    Sat-then _ _ (λ db t. t.0) (audit-Editing id _)
                                      λ _.
                                        Sat-bind _ _ (get_by_id-Sat id (λ db t. t.0))
                                          λ updated. Sat-pure _ (λ db t. t.0.0)

pub update-Inv :
    (rt : Runtime) (id : ℕ) (req : CreateConfigRequest) (by : Caller)
    → Keeps Inv (update rt id req by)
unfolding update
update-Inv rt id req by = Sat-bind _ _ (Sat-guard _ bad_request (λ db t. t) (λ db _ t. t)) λ _.
    Sat-with_tx _ (λ db t. t) (Sat-post _ (λ db t. tt) (λ a db t. t) (update_body-Sat id req by))

clone_body-Sat :
    (rt : Runtime) (id : ℕ) (by : Caller) → Sat Inv (clone_body rt id by) Inv (λ _. Inv)
unfolding clone_body
clone_body-Sat rt id by = Sat-bind _ _ (get_by_id-Sat id (λ db t. t)) λ original.
    Sat-bind _ _ (Sat-pre _ (λ db t. t.0) (create-Sat _ _)) λ cfg.
      Sat-then _ _ (λ db t. t.0) (DomainRuleRepo-list-Keeps rt.rows_before_error rt.row_order id)
        λ orig_domains.
          Sat-then _ _ (λ db t. t.0) (domains-Editing cfg.id cfg.id _)
            λ domains.
              Sat-then _ _ (λ db t. t.0)
                (IpRangeRuleRepo-list-Keeps rt.rows_before_error rt.row_order id)
                λ orig_ip_ranges.
                  Sat-then _ _ (λ db t. t.0) (ip_ranges-Editing cfg.id cfg.id _)
                    λ ip_ranges.
                      Sat-then _ _ (λ db t. t.0)
                        (ParentProxyRepo-list-Keeps rt.rows_before_error rt.row_order id)
                        λ orig_parents.
                          Sat-then _ _ (λ db t. t.0) (parents-Editing cfg.id cfg.id _)
                            λ parents.
                              Sat-then _ _ (λ db t. t.0)
                                (ClientAclRepo-list-Keeps rt.rows_before_error rt.row_order id)
                                λ orig_acl.
                                  Sat-then _ _ (λ db t. t.0) (client_acl-Editing cfg.id cfg.id _)
                                    λ client_acl.
                                      Sat-then _ _ (λ db t. t.0)
                                        (ConfigProxyRepo-list-Keeps rt.rows_before_error
                                          rt.hostname_order id)
                                        λ orig_proxies.
                                          Sat-then _ _ (λ db t. t.0)
                                            (assign_all-Editing cfg.id by.user_id _)
                                            λ done.
                                              Sat-then _ _ (λ db t. t.0) (audit-Editing cfg.id _)
                                                λ _. Sat-pure _ (λ db t. t.0)

pub clone-Inv : (rt : Runtime) (id : ℕ) (by : Caller) → Keeps Inv (clone rt id by)
unfolding clone
clone-Inv rt id by =
    Sat-with_tx _ (λ db t. t) (Sat-post _ (λ db t. tt) (λ a db t. t) (clone_body-Sat rt id by))

-- An entry of the audit log keeps the rules.
pub audit-Inv : (e : AuditRepo.Entry) → Keeps Inv (ignore (AuditRepo.create e))
audit-Inv e = Sat-ignore _ (
    Sat-pre _ (λ db t. (t, tt))
      (Sat-post _ (λ db t. t.0) (λ _ db t. t.0) (AuditRepo-create-With (λ _. Unit {0}) e)))

pub delete-Keeps : (rt : Runtime) (id : ℕ) (by : Caller) → Keeps Inv (delete rt id by)
unfolding delete
delete-Keeps rt id by = Sat-bind _ _ (get_by_id-Sat id (λ db t. t)) λ cfg.
    Sat-bind _ _ (Sat-guard {Q = λ _. Inv} _ bad_request (λ db t. t.0) (λ db _ t. t.0)) λ _.
      Sat-bind _ _ (Sat-guard _ bad_request (λ db t. t) (λ db _ t. t))
        λ _. Sat-then _ _ (λ db t. t) (delete-Inv id) λ _. audit-Inv _
