-- ===== src/Service/ConfigService/Rules.antt =====
-- The loops of `Create`, `Update` and `Clone` of backend/internal/service/config_service.go that
-- insert a config's rules and assign its proxies.
use ats_proxy_manager.Prelude.{ℕ, List, [], ◌∷◌, pos, codes}
use ats_proxy_manager.Domain.Enums.{allow}
use ats_proxy_manager.Domain.Models.{
  Config, DomainRule, IpRangeRule, ParentProxy, ClientAclRule, Proxy,
}
use ats_proxy_manager.Store.{M}
use ats_proxy_manager.Repository.DomainRuleRepo
use ats_proxy_manager.Repository.IpRangeRuleRepo
use ats_proxy_manager.Repository.ParentProxyRepo
use ats_proxy_manager.Repository.ClientAclRepo
use ats_proxy_manager.Repository.ConfigProxyRepo
use ats_proxy_manager.Service.Collect.{collect}
use ats_proxy_manager.Service.ConfigInput.{
  DomainRuleInput, IpRangeRuleInput, ParentProxyInput, ClientAclInput,
}

-- What the service answers: the config and its rules. The user names that the struct has room for
-- are never filled in.
pub record ConfigDetail : Type 0 where
  pub config : Config
  pub domains : List DomainRule
  pub ip_ranges : List IpRangeRule
  pub parent_proxies : List ParentProxy
  pub client_acl : List ClientAclRule
  pub proxies : List Proxy

unfoldable pub domain_rule : ℕ → DomainRuleInput → DomainRule
domain_rule config_id d = record {
  id = 0;
  config_id = config_id;
  domain = d.domain;
  action = d.action;
  priority = d.priority;
  created_at = 0;
}

unfoldable pub ip_range_rule : ℕ → IpRangeRuleInput → IpRangeRule
ip_range_rule config_id r = record {
  id = 0;
  config_id = config_id;
  cidr = r.cidr;
  action = r.action;
  priority = r.priority;
  created_at = 0;
}

unfoldable pub parent_proxy : ℕ → ParentProxyInput → ParentProxy
parent_proxy config_id pp = record {
  id = 0;
  config_id = config_id;
  address = pp.address;
  port = pp.port;
  priority = pp.priority;
  enabled = pp.enabled;
  created_at = 0;
}

unfoldable pub client_acl_rule : ℕ → ClientAclInput → ClientAclRule
client_acl_rule config_id acl = record {
  id = 0;
  config_id = config_id;
  cidr = acl.cidr;
  action = acl.action;
  priority = acl.priority;
  created_at = 0;
}

unfoldable pub create_domains : ℕ → List DomainRuleInput → M (List DomainRule)
create_domains id ds = collect (λ d. DomainRuleRepo.create (domain_rule id d)) ds

unfoldable pub create_ip_ranges : ℕ → List IpRangeRuleInput → M (List IpRangeRule)
create_ip_ranges id rs = collect (λ r. IpRangeRuleRepo.create (ip_range_rule id r)) rs

unfoldable pub create_parents : ℕ → List ParentProxyInput → M (List ParentProxy)
create_parents id ps = collect (λ pp. ParentProxyRepo.create (parent_proxy id pp)) ps

unfoldable pub create_client_acl : ℕ → List ClientAclInput → M (List ClientAclRule)
create_client_acl id rules = collect (λ acl. ClientAclRepo.create (client_acl_rule id acl)) rules

unfoldable pub assign_all : ℕ → ℕ → List ℕ → M (List Unit)
assign_all id user_id pids = collect (λ pid. ConfigProxyRepo.assign id pid user_id) pids

-- The rules that `Create` gives a config whose request has no client ACL.
abbrev pub default_client_acl : List ClientAclInput
default_client_acl =
    record { cidr = codes "127.0.0.1"; action = allow; priority = pos 10 }
    ∷ record { cidr = codes "::1"; action = allow; priority = pos 20 }
    ∷ record { cidr = codes "10.0.0.0/8"; action = allow; priority = pos 30 }
    ∷ []

unfoldable pub or_default_acl : List ClientAclInput → List ClientAclInput
or_default_acl [] = default_client_acl
or_default_acl (a ∷ rest) = a ∷ rest
