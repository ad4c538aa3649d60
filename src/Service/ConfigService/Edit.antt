-- ===== src/Service/ConfigService/Edit.antt =====
-- `Create`, `Update`, `Clone` and `Delete` of backend/internal/service/config_service.go.
use ats_proxy_manager.Prelude.{
  ℕ, ◌+◌, Bool, true, false, not, Option, none, some, List, [], ◌∷◌, ◌++◌, map, Str, codes,
  is_empty,
}
use ats_proxy_manager.Domain.Enums.{
  ConfigStatus, draft, pending_approval, approved, active, status_eq, bad_request, invalid_status,
}
use ats_proxy_manager.Domain.Models.{
  Config, DomainRule, IpRangeRule, ParentProxy, ClientAclRule, Proxy,
}
use ats_proxy_manager.Runtime.{Runtime}
use ats_proxy_manager.Store.{M, pure, guard, ignore, with_tx, ◌>>=◌, ◌>>◌}
use ats_proxy_manager.Repository.ConfigRepo
use ats_proxy_manager.Repository.DomainRuleRepo
use ats_proxy_manager.Repository.IpRangeRuleRepo
use ats_proxy_manager.Repository.ParentProxyRepo
use ats_proxy_manager.Repository.ClientAclRepo
use ats_proxy_manager.Repository.ConfigProxyRepo
use ats_proxy_manager.Repository.AuditRepo
use ats_proxy_manager.Service.ConfigInput.{
  Violation, CreateConfigRequest, DomainRuleInput, IpRangeRuleInput, ParentProxyInput,
  ClientAclInput, or_direct, validate_rules,
}
use ats_proxy_manager.Service.ConfigService.Rules.{
  ConfigDetail, create_domains, create_ip_ranges, create_parents, create_client_acl, assign_all,
  or_default_acl,
}

-- Who sends a request, and from where.
pub record Caller : Type 0 where
  pub user_id : ℕ
  pub ip : Str
  pub ua : Str

-- An entry of the audit log about one config.
unfoldable pub audit_entry : Caller → Str → ℕ → Option Str → Option Str → AuditRepo.Entry
audit_entry by action id old new = record {
  user_id = some by.user_id;
  action = action;
  entity_type = codes "config";
  entity_id = some id;
  old_value = old;
  new_value = new;
  ip_address = some by.ip;
  user_agent = some by.ua;
}

-- `jsonVal`, on a key and a value that need no escape.
unfoldable pub json_val : Str → Str → Str
json_val key value = (b'{' ∷ 34 ∷ key) ++ ((34 ∷ b':' ∷ 34 ∷ value) ++ (34 ∷ b'}' ∷ []))

abbrev pub is_valid : List Violation → Bool
is_valid [] = true
is_valid (v ∷ vs) = false

-- The text of a status.
unfoldable pub status_text : ConfigStatus → Str
status_text draft = codes "draft"
status_text pending_approval = codes "pending_approval"
status_text approved = codes "approved"
status_text active = codes "active"

-- A stored rule as an input of the loops that insert rules.
abbrev pub domain_input : DomainRule → DomainRuleInput
domain_input d = record { domain = d.domain; action = d.action; priority = d.priority }

abbrev pub ip_range_input : IpRangeRule → IpRangeRuleInput
ip_range_input r = record { cidr = r.cidr; action = r.action; priority = r.priority }

abbrev pub parent_input : ParentProxy → ParentProxyInput
parent_input p = record {
  address = p.address;
  port = p.port;
  priority = p.priority;
  enabled = p.enabled;
}

abbrev pub acl_input : ClientAclRule → ClientAclInput
acl_input a = record { cidr = a.cidr; action = a.action; priority = a.priority }

abbrev pub is_nil : Option ℕ → Bool
is_nil none = true
is_nil (some t) = false

-- The body of `Create`'s transaction.
unfoldable pub create_body : CreateConfigRequest → Caller → M ConfigDetail
create_body req by = do
  cfg ← ConfigRepo.create (record {
    name = req.name;
    description = req.description;
    default_action = or_direct req.default_action;
    created_by = some by.user_id;
  })
  domains ← create_domains cfg.id req.domains
  ip_ranges ← create_ip_ranges cfg.id req.ip_ranges
  parents ← create_parents cfg.id req.parent_proxies
  client_acl ← create_client_acl cfg.id (or_default_acl req.client_acl)
  done ← assign_all cfg.id by.user_id req.proxy_ids
  ignore (AuditRepo.create (audit_entry by (codes "config.create") cfg.id none none))
  pure (record {
    config = cfg;
    domains = domains;
    ip_ranges = ip_ranges;
    parent_proxies = parents;
    client_acl = client_acl;
    proxies = [];
  })

-- All rules and assignments of a config.
unfoldable pub clear_rules : ℕ → M (Unit {0})
clear_rules id = do
  DomainRuleRepo.delete_by_config id
  IpRangeRuleRepo.delete_by_config id
  ParentProxyRepo.delete_by_config id
  ClientAclRepo.delete_by_config id
  ConfigProxyRepo.delete_by_config id

-- The body of `Update`'s transaction.
unfoldable pub update_body : ℕ → CreateConfigRequest → Caller → M ConfigDetail
update_body id req by = do
  cfg ← ConfigRepo.get_by_id id
  guard (status_eq cfg.status draft) invalid_status
  ConfigRepo.update (record cfg {
    name = req.name;
    description = req.description;
    default_action = or_direct req.default_action;
    modified_by = some by.user_id;
  })
  clear_rules id
  domains ← create_domains id req.domains
  ip_ranges ← create_ip_ranges id req.ip_ranges
  parents ← create_parents id req.parent_proxies
  client_acl ← create_client_acl id req.client_acl
  done ← assign_all id by.user_id req.proxy_ids
  ignore (AuditRepo.create (audit_entry by (codes "config.update") id none none))
  updated ← ConfigRepo.get_by_id id
  pure (record {
    config = updated;
    domains = domains;
    ip_ranges = ip_ranges;
    parent_proxies = parents;
    client_acl = client_acl;
    proxies = [];
  })

module _ (rt : Runtime) where
  unfoldable pub create : CreateConfigRequest → Caller → M ConfigDetail
  create req by = do
    guard (not (is_empty req.name)) bad_request
    guard (is_valid (validate_rules rt req)) bad_request
    with_tx (create_body req by)

  unfoldable pub update : ℕ → CreateConfigRequest → Caller → M ConfigDetail
  update id req by = do
    guard (is_valid (validate_rules rt req)) bad_request
    with_tx (update_body id req by)

  -- The body of `Clone`'s transaction: each kind of rule is read and copied before the next.
  unfoldable pub clone_body : ℕ → Caller → M ConfigDetail
  clone_body id by = do
    original ← ConfigRepo.get_by_id id
    cfg ←
        ConfigRepo.create_with_version
          (record {
            name = original.name;
            description = original.description;
            default_action = original.default_action;
            created_by = some by.user_id;
          })
          (original.version + 1)
    orig_domains ← DomainRuleRepo.list_by_config rt.rows_before_error rt.row_order id
    domains ← create_domains cfg.id (map domain_input orig_domains)
    orig_ip_ranges ← IpRangeRuleRepo.list_by_config rt.rows_before_error rt.row_order id
    ip_ranges ← create_ip_ranges cfg.id (map ip_range_input orig_ip_ranges)
    orig_parents ← ParentProxyRepo.list_by_config rt.rows_before_error rt.row_order id
    parents ← create_parents cfg.id (map parent_input orig_parents)
    orig_acl ← ClientAclRepo.list_by_config rt.rows_before_error rt.row_order id
    client_acl ← create_client_acl cfg.id (map acl_input orig_acl)
    orig_proxies ← ConfigProxyRepo.list_by_config rt.rows_before_error rt.hostname_order id
    done ← assign_all cfg.id by.user_id (map (λ (p : Proxy). p.id) orig_proxies)
    ignore (
        AuditRepo.create (
          audit_entry by (codes "config.clone") cfg.id
            (some (json_val (codes "source_id") (rt.uuid_string id))) none))
    pure (record {
      config = cfg;
      domains = domains;
      ip_ranges = ip_ranges;
      parent_proxies = parents;
      client_acl = client_acl;
      proxies = orig_proxies;
    })

  unfoldable pub clone : ℕ → Caller → M ConfigDetail
  clone id by = with_tx (clone_body id by)

  -- {"name":%q,"status":%q}
  abbrev deleted_text : Config → Str
  deleted_text cfg =
      (b'{' ∷ 34 ∷ codes "name")
      ++ ((34 ∷ b':' ∷ rt.quote cfg.name)
          ++ ((b',' ∷ 34 ∷ codes "status")
              ++ ((34 ∷ b':' ∷ rt.quote (status_text cfg.status)) ++ (b'}' ∷ []))))

  unfoldable pub delete : ℕ → Caller → M (Unit {0})
  delete id by = do
    cfg ← ConfigRepo.get_by_id id
    guard (not (status_eq cfg.status active)) bad_request
    guard (is_nil cfg.approved_at) bad_request
    ConfigRepo.delete id
    ignore (
        AuditRepo.create (audit_entry by (codes "config.delete") id (some (deleted_text cfg)) none))
