-- ===== src/Laws/Files.antt =====
-- `GenerateConfigFiles` and `GenerateConfigHash` as functions of the tables.
use ats_proxy_manager.Prelude.{ℕ, Bool, none, some, List, ◌≡◌, refl, ◌==◌, some_unique}
use ats_proxy_manager.Prelude.Table.{select_all}
use ats_proxy_manager.Domain.Enums.{RuleAction}
use ats_proxy_manager.Domain.Models.{Config, DomainRule, IpRangeRule, ParentProxy, ClientAclRule}
use ats_proxy_manager.Runtime.{Runtime}
use ats_proxy_manager.Store.{Db}
use ats_proxy_manager.Store.Sat.{Sat, Sat-bind, Sat-pure}
use ats_proxy_manager.Repository.Keys.{find_config}
use ats_proxy_manager.Repository.Sat.{Sat-rows}
use ats_proxy_manager.Repository.DomainRuleRepo
use ats_proxy_manager.Repository.IpRangeRuleRepo
use ats_proxy_manager.Repository.ParentProxyRepo
use ats_proxy_manager.Repository.ClientAclRepo
use ats_proxy_manager.Generate.Files.{
  generate_parent_config, generate_sni_yaml, generate_ip_allow_yaml,
}
use ats_proxy_manager.Service.ConfigService.Files.{ConfigFiles, generate_config_files}
use ats_proxy_manager.Invariant.ConfigStatements.{get_by_id-Sat}

-- No query breaks off after some of its rows: it fails as a whole or not at all.
abbrev pub FailsWhole : Runtime → Type 0
FailsWhole rt = (left : List Bool) → rt.rows_before_error left ≡ none

module _ (rt : Runtime) (id : ℕ) where
  abbrev pub domains_of : Db → List DomainRule
  domains_of db =
      rt.row_order.sort DomainRule (λ r. r.priority)
        (select_all (λ r. r.config_id == id) db.domain_rules)

  abbrev pub ip_ranges_of : Db → List IpRangeRule
  ip_ranges_of db =
      rt.row_order.sort IpRangeRule (λ r. r.priority)
        (select_all (λ r. r.config_id == id) db.ip_range_rules)

  abbrev pub parents_of : Db → List ParentProxy
  parents_of db =
      rt.row_order.sort ParentProxy (λ p. p.priority)
        (select_all (λ p. p.config_id == id) db.parent_proxies)

  abbrev pub client_acl_of : Db → List ClientAclRule
  client_acl_of db =
      rt.row_order.sort ClientAclRule (λ r. r.priority)
        (select_all (λ r. r.config_id == id) db.client_acl_rules)

  -- The files of a config with this default action.
  abbrev pub files_of : RuleAction → Db → ConfigFiles
  files_of default_action db = record {
    parent_config =
        generate_parent_config rt (ip_ranges_of db) (domains_of db) (parents_of db) default_action;
    sni_yaml =
        generate_sni_yaml rt (rt.slice_order.sort DomainRule (λ r. r.priority) (domains_of db));
    ip_allow_yaml = generate_ip_allow_yaml rt (client_acl_of db);
  }

  pub files-Sat :
      {P I : Db → Type 0} (cfg : Config)
      → FailsWhole rt
      → ((db : Db) → P db → I db)
      → ((db : Db) → P db → find_config id db ≡ some cfg)
      → Sat P (generate_config_files rt id) I (λ f db. (f ≡ files_of cfg.default_action db) × P db)
  unfolding generate_config_files DomainRuleRepo.list_by_config IpRangeRuleRepo.list_by_config
      ParentProxyRepo.list_by_config ClientAclRepo.list_by_config
  files-Sat {P} cfg whole hi found =
      Sat-bind _ _ (Sat-rows rt.rows_before_error domains_of whole hi) λ domains.
        Sat-bind _ _ (Sat-rows rt.rows_before_error ip_ranges_of whole (λ db t. hi db t.1))
          λ ip_ranges.
            Sat-bind _ _ (Sat-rows rt.rows_before_error parents_of whole (λ db t. hi db t.1.1))
              λ parents.
                Sat-bind _ _
                  (Sat-rows rt.rows_before_error client_acl_of whole (λ db t. hi db t.1.1.1))
                  λ client_acl. Sat-bind _ _ (get_by_id-Sat id (λ db t. hi db t.1.1.1.1)) λ c.
                    Sat-pure _ λ db t.
                      let ((a, (p, (r, (d, h)))), e) = t in
                      let same : c ≡ cfg = some_unique c cfg e (found db h) in
                      (rw a (rw p (rw r (rw d (rw same refl)))), h)
