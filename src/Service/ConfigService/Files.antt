-- ===== src/Service/ConfigService/Files.antt =====
-- `GetByID`, `GenerateConfigFiles` and `GenerateConfigHash` of
-- backend/internal/service/config_service.go.
use ats_proxy_manager.Prelude.{ℕ, ◌++◌, Str}
use ats_proxy_manager.Store.{M, pure, ◌>>=◌}
use ats_proxy_manager.Runtime.{Runtime}
use ats_proxy_manager.Domain.Models.{DomainRule}
use ats_proxy_manager.Repository.ConfigRepo
use ats_proxy_manager.Repository.DomainRuleRepo
use ats_proxy_manager.Repository.IpRangeRuleRepo
use ats_proxy_manager.Repository.ParentProxyRepo
use ats_proxy_manager.Repository.ClientAclRepo
use ats_proxy_manager.Repository.ConfigProxyRepo
use ats_proxy_manager.Generate.Files.{
  generate_parent_config, generate_sni_yaml, generate_ip_allow_yaml,
}
use ats_proxy_manager.Service.ConfigService.Rules.{ConfigDetail}

-- `ConfigFiles`.
pub record ConfigFiles : Type 0 where
  pub parent_config : Str
  pub sni_yaml : Str
  pub ip_allow_yaml : Str

module _ (rt : Runtime) where
  unfoldable pub get_by_id : ℕ → M ConfigDetail
  get_by_id id = do
    cfg ← ConfigRepo.get_by_id id
    domains ← DomainRuleRepo.list_by_config rt.rows_before_error rt.row_order id
    ip_ranges ← IpRangeRuleRepo.list_by_config rt.rows_before_error rt.row_order id
    parents ← ParentProxyRepo.list_by_config rt.rows_before_error rt.row_order id
    client_acl ← ClientAclRepo.list_by_config rt.rows_before_error rt.row_order id
    proxies ← ConfigProxyRepo.list_by_config rt.rows_before_error rt.hostname_order id
    pure (record {
      config = cfg;
      domains = domains;
      ip_ranges = ip_ranges;
      parent_proxies = parents;
      client_acl = client_acl;
      proxies = proxies;
    })

  -- `generateParentConfig` sorts the slice of domain rules in place, so `generateSNIYaml` gets it
  -- sorted.
  unfoldable pub generate_config_files : ℕ → M ConfigFiles
  generate_config_files id = do
    domains ← DomainRuleRepo.list_by_config rt.rows_before_error rt.row_order id
    ip_ranges ← IpRangeRuleRepo.list_by_config rt.rows_before_error rt.row_order id
    parents ← ParentProxyRepo.list_by_config rt.rows_before_error rt.row_order id
    client_acl ← ClientAclRepo.list_by_config rt.rows_before_error rt.row_order id
    cfg ← ConfigRepo.get_by_id id
    pure (record {
      parent_config = generate_parent_config rt ip_ranges domains parents cfg.default_action;
      sni_yaml = generate_sni_yaml rt (rt.slice_order.sort DomainRule (λ r. r.priority) domains);
      ip_allow_yaml = generate_ip_allow_yaml rt client_acl;
    })

  -- `h.Write` three times: the hash of the three texts one after the other.
  unfoldable pub hash_files : ConfigFiles → Str
  hash_files f = rt.sha256_hex (f.parent_config ++ (f.sni_yaml ++ f.ip_allow_yaml))

  unfoldable pub generate_config_hash : ℕ → M Str
  generate_config_hash id = do files ← generate_config_files id; pure (hash_files files)
