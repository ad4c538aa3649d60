-- ===== src/Invariant/Statements.antt =====
-- Each statement of backend/internal/repository keeps the rules of Invariant/Lifecycle.
use ats_proxy_manager.Prelude.{ℕ, List, Str}
use ats_proxy_manager.Prelude.Table.{some_row-delete_where}
use ats_proxy_manager.Domain.Enums.{not_found}
use ats_proxy_manager.Domain.Models.{
  Config, DomainRule, IpRangeRule, ParentProxy, ClientAclRule, ProxyStat,
}
use ats_proxy_manager.Store.{Db}
use ats_proxy_manager.Store.Sat.{Keeps, Sat-statement}
use ats_proxy_manager.Repository.Sat.{Sat-checked, Sat-affected}
use ats_proxy_manager.Repository.DomainRuleRepo
use ats_proxy_manager.Repository.IpRangeRuleRepo
use ats_proxy_manager.Repository.ParentProxyRepo
use ats_proxy_manager.Repository.ClientAclRepo
use ats_proxy_manager.Repository.ConfigProxyRepo
use ats_proxy_manager.Repository.ProxyRepo
use ats_proxy_manager.Repository.AuditRepo
use ats_proxy_manager.Repository.ProxyStatsRepo
use ats_proxy_manager.Repository.ProxyLogsRepo
use ats_proxy_manager.Invariant.Lifecycle.{Tables, Tables-suc, Tables-sub}

-- The rules, and what else is known of the configs.
abbrev pub With : (List Config → Type 0) → Db → Type 0
With R db = Tables db.configs db.config_proxies db.serial × R db.configs

-- Statements that leave `configs` and `config_proxies` alone.
module _ (R : List Config → Type 0) where
  pub AuditRepo-create-With : (r : AuditRepo.Entry) → Keeps (With R) (AuditRepo.create r)
  unfolding AuditRepo.create
  AuditRepo-create-With r = Sat-checked _ _ _ (λ db p. p) (λ now db p _. (Tables-suc p.0, p.1))

  pub DomainRuleRepo-create-With : (r : DomainRule) → Keeps (With R) (DomainRuleRepo.create r)
  unfolding DomainRuleRepo.create
  DomainRuleRepo-create-With r = Sat-checked _ _ _ (λ db p. p) (λ now db p _. (Tables-suc p.0, p.1))

  pub IpRangeRuleRepo-create-With : (r : IpRangeRule) → Keeps (With R) (IpRangeRuleRepo.create r)
  unfolding IpRangeRuleRepo.create
  IpRangeRuleRepo-create-With r =
      Sat-checked _ _ _ (λ db p. p) (λ now db p _. (Tables-suc p.0, p.1))

  pub ParentProxyRepo-create-With : (r : ParentProxy) → Keeps (With R) (ParentProxyRepo.create r)
  unfolding ParentProxyRepo.create
  ParentProxyRepo-create-With r =
      Sat-checked _ _ _ (λ db p. p) (λ now db p _. (Tables-suc p.0, p.1))

  pub ClientAclRepo-create-With : (r : ClientAclRule) → Keeps (With R) (ClientAclRepo.create r)
  unfolding ClientAclRepo.create
  ClientAclRepo-create-With r = Sat-checked _ _ _ (λ db p. p) (λ now db p _. (Tables-suc p.0, p.1))

  pub ProxyRepo-create-With : (r : ProxyRepo.NewProxy) → Keeps (With R) (ProxyRepo.create r)
  unfolding ProxyRepo.create
  ProxyRepo-create-With r = Sat-checked _ _ _ (λ db p. p) (λ now db p _. (Tables-suc p.0, p.1))

  pub ProxyStatsRepo-create-With : (r : ProxyStat) → Keeps (With R) (ProxyStatsRepo.create r)
  unfolding ProxyStatsRepo.create
  ProxyStatsRepo-create-With r = Sat-checked _ _ _ (λ db p. p) (λ now db p _. (Tables-suc p.0, p.1))

  pub ProxyLogsRepo-create-With :
      (id : ℕ) (level message : Str) → Keeps (With R) (ProxyLogsRepo.create id level message)
  unfolding ProxyLogsRepo.create
  ProxyLogsRepo-create-With id level message =
      Sat-checked _ _ _ (λ db p. p) (λ now db p _. (Tables-suc p.0, p.1))

  pub DomainRuleRepo-delete_by_config-With :
      (id : ℕ) → Keeps (With R) (DomainRuleRepo.delete_by_config id)
  unfolding DomainRuleRepo.delete_by_config
  DomainRuleRepo-delete_by_config-With id = Sat-statement _ (λ db p. p) (λ now db p. p)

  pub IpRangeRuleRepo-delete_by_config-With :
      (id : ℕ) → Keeps (With R) (IpRangeRuleRepo.delete_by_config id)
  unfolding IpRangeRuleRepo.delete_by_config
  IpRangeRuleRepo-delete_by_config-With id = Sat-statement _ (λ db p. p) (λ now db p. p)

  pub ParentProxyRepo-delete_by_config-With :
      (id : ℕ) → Keeps (With R) (ParentProxyRepo.delete_by_config id)
  unfolding ParentProxyRepo.delete_by_config
  ParentProxyRepo-delete_by_config-With id = Sat-statement _ (λ db p. p) (λ now db p. p)

  pub ClientAclRepo-delete_by_config-With :
      (id : ℕ) → Keeps (With R) (ClientAclRepo.delete_by_config id)
  unfolding ClientAclRepo.delete_by_config
  ClientAclRepo-delete_by_config-With id = Sat-statement _ (λ db p. p) (λ now db p. p)

  pub ProxyRepo-update_registered_ip-With :
      (id : ℕ) (ip : Str) → Keeps (With R) (ProxyRepo.update_registered_ip id ip)
  unfolding ProxyRepo.update_registered_ip
  ProxyRepo-update_registered_ip-With id ip = Sat-statement _ (λ db p. p) (λ now db p. p)

  pub ProxyRepo-update_last_seen-With : (id : ℕ) → Keeps (With R) (ProxyRepo.update_last_seen id)
  unfolding ProxyRepo.update_last_seen
  ProxyRepo-update_last_seen-With id = Sat-statement _ (λ db p. p) (λ now db p. p)

  pub ProxyRepo-update_config_hash-With :
      (id : ℕ) (hash : Str) → Keeps (With R) (ProxyRepo.update_config_hash id hash)
  unfolding ProxyRepo.update_config_hash
  ProxyRepo-update_config_hash-With id hash = Sat-statement _ (λ db p. p) (λ now db p. p)

  pub ProxyRepo-set_capture_logs_until-With :
      (id until : ℕ) → Keeps (With R) (ProxyRepo.set_capture_logs_until id until)
  unfolding ProxyRepo.set_capture_logs_until
  ProxyRepo-set_capture_logs_until-With id until = Sat-statement _ (λ db p. p) (λ now db p. p)

  pub ProxyRepo-mark_offline_stale-With : Keeps (With R) (ProxyRepo.mark_offline_stale)
  unfolding ProxyRepo.mark_offline_stale
  ProxyRepo-mark_offline_stale-With = Sat-statement _ (λ db p. p) (λ now db p. p)

  pub ProxyStatsRepo-cleanup_old-With : Keeps (With R) (ProxyStatsRepo.cleanup_old)
  unfolding ProxyStatsRepo.cleanup_old
  ProxyStatsRepo-cleanup_old-With = Sat-statement _ (λ db p. p) (λ now db p. p)

  pub ProxyLogsRepo-cleanup_expired-With : Keeps (With R) (ProxyLogsRepo.cleanup_expired)
  unfolding ProxyLogsRepo.cleanup_expired
  ProxyLogsRepo-cleanup_expired-With = Sat-statement _ (λ db p. p) (λ now db p. p)

  pub ConfigProxyRepo-delete_by_config-With :
      (id : ℕ) → Keeps (With R) (ConfigProxyRepo.delete_by_config id)
  unfolding ConfigProxyRepo.delete_by_config
  ConfigProxyRepo-delete_by_config-With id =
      Sat-statement _ (λ db p. p)
        λ now db p. (Tables-sub (λ i q h. some_row-delete_where _ _ db.config_proxies h) p.0, p.1)

  pub ConfigProxyRepo-delete_by_proxy-With :
      (id : ℕ) → Keeps (With R) (ConfigProxyRepo.delete_by_proxy id)
  unfolding ConfigProxyRepo.delete_by_proxy
  ConfigProxyRepo-delete_by_proxy-With id =
      Sat-statement _ (λ db p. p)
        λ now db p. (Tables-sub (λ i q h. some_row-delete_where _ _ db.config_proxies h) p.0, p.1)

  pub ProxyRepo-delete_offline_stale-With : Keeps (With R) (ProxyRepo.delete_offline_stale)
  unfolding ProxyRepo.delete_offline_stale
  ProxyRepo-delete_offline_stale-With =
      Sat-statement _ (λ db p. p)
        λ now db p. (Tables-sub (λ i q h. some_row-delete_where _ _ db.config_proxies h) p.0, p.1)

  pub ProxyRepo-delete-With : (id : ℕ) → Keeps (With R) (ProxyRepo.delete id)
  unfolding ProxyRepo.delete
  ProxyRepo-delete-With id = Sat-affected _ not_found (
      Sat-statement _ (λ db p. p)
        λ now db p. (Tables-sub (λ i q h. some_row-delete_where _ _ db.config_proxies h) p.0, p.1))
