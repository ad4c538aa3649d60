-- ===== src/Tests/Story.antt =====
-- A proxy registers, and a config for it is created, submitted and approved.
use ats_proxy_manager.Prelude.{ℕ, true, Option, none, some, [], ◌∷◌, ◌≡◌, refl, pos, codes, str_eq}
use ats_proxy_manager.Prelude.Table.{find, some_row, select_first, select_all, update_where}
use ats_proxy_manager.Domain.Enums.{root, direct, parent, active, RuleAction_is_valid}
use ats_proxy_manager.Domain.Models.{User, Config}
use ats_proxy_manager.Store.{query, Db, ◌>>=◌, pure, guard, or_raise, ignore, statement, with_tx}
use ats_proxy_manager.Repository.Keys.{find_config, is_assigned}
use ats_proxy_manager.Repository.ConfigRepo
use ats_proxy_manager.Repository.DomainRuleRepo
use ats_proxy_manager.Repository.IpRangeRuleRepo
use ats_proxy_manager.Repository.ParentProxyRepo
use ats_proxy_manager.Repository.ClientAclRepo
use ats_proxy_manager.Repository.ConfigProxyRepo
use ats_proxy_manager.Repository.ProxyRepo
use ats_proxy_manager.Repository.AuditRepo
use ats_proxy_manager.Generate.Files.{
  generate_parent_config, generate_sni_yaml, generate_ip_allow_yaml,
}
use ats_proxy_manager.Regex.{accepts}
use ats_proxy_manager.Service.Collect.{collect}
use ats_proxy_manager.Service.ConfigInput.{CreateConfigRequest, validate_rules, domain_pattern}
use ats_proxy_manager.Service.ConfigService.Rules.{
  domain_rule, ip_range_rule, parent_proxy, client_acl_rule, create_domains, create_ip_ranges,
  create_parents, create_client_acl, assign_all, or_default_acl,
}
use ats_proxy_manager.Service.ConfigService.Files.{
  generate_config_files, generate_config_hash, hash_files,
}
use ats_proxy_manager.Service.ConfigService.Edit.{Caller}
use ats_proxy_manager.Service.ConfigService.Edit
use ats_proxy_manager.Service.ConfigService.Workflow
use ats_proxy_manager.Service.SyncService.{register, register_found, register_new, or_none}
use ats_proxy_manager.Server.{Request, after, initial, served, Reach, here, next}
use ats_proxy_manager.Server.Safety.{Reach-one_active, Reach-Stage}
use ats_proxy_manager.Invariant.Lifecycle.{is_set, Stage}
use ats_proxy_manager.Tests.Tokens.{plain_tokens}
use ats_proxy_manager.Tests.Samples.{sample}

abbrev pub admin : User
admin = record {
  id = 0;
  username = codes "root";
  email = codes "r@x";
  password_hash = [];
  role = root;
  created_at = 0;
  updated_at = 0;
  last_login = none;
  is_active = true;
}

abbrev pub by : Caller
by = record { user_id = 0; ip = codes "ip"; ua = codes "ua" }

abbrev pub request : CreateConfigRequest
request = record {
  name = codes "c";
  description = none;
  default_action = parent;
  domains = record { domain = codes "a.io"; action = direct; priority = pos 2 } ∷ [];
  ip_ranges = [];
  parent_proxies =
      record { address = codes "p"; port = pos 3128; priority = pos 1; enabled = true } ∷ [];
  client_acl = [];
  proxy_ids = 1 ∷ [];
}

abbrev pub registration : Request
registration =
    Request.register
      (record { hostname = codes "h"; config_id = []; proxy_id = []; remote_ip = codes "ip" })

unfoldable pub start : Db
unfolding initial
start = initial (admin ∷ []) 1

-- All that the story calls is open from here on.
unfoldable pub registered : Db
unfolding sample start after initial register register_found register_new or_none
    ProxyRepo.get_by_hostname ProxyRepo.create ProxyRepo.update_last_seen select_first update_where
    some_row find str_eq Edit.create Edit.create_body validate_rules accepts domain_pattern
    ConfigRepo.create ConfigRepo.create_with_version collect create_domains create_ip_ranges
    create_parents create_client_acl assign_all domain_rule ip_range_rule parent_proxy
    client_acl_rule or_default_acl DomainRuleRepo.create IpRangeRuleRepo.create
    ParentProxyRepo.create ClientAclRepo.create ConfigProxyRepo.assign AuditRepo.create
    Edit.audit_entry Edit.json_val Edit.status_text Workflow.status_entry Workflow.submit
    Workflow.approve ConfigRepo.submit ConfigRepo.get_by_id ConfigRepo.approve
    ConfigRepo.deactivate_others generate_config_hash generate_config_files hash_files
    DomainRuleRepo.list_by_config IpRangeRuleRepo.list_by_config ParentProxyRepo.list_by_config
    ClientAclRepo.list_by_config select_all generate_parent_config generate_sni_yaml
    generate_ip_allow_yaml RuleAction_is_valid ◌>>=◌ pure guard or_raise ignore statement query
    with_tx ConfigRepo.inserted
registered = after sample registration [] 10 start

unfoldable pub created : Db
unfolding registered
created = after sample (Request.create request by) [] 20 registered

unfoldable pub submitted : Db
unfolding created
submitted = after sample (Request.submit 2 by) [] 30 created

unfoldable pub story : Db
unfolding submitted
story = after sample (Request.approve 2 by) [] 40 submitted

unfoldable pub blank : Config
unfolding ConfigRepo.inserted
blank =
    ConfigRepo.inserted
      (record { name = []; description = none; default_action = direct; created_by = none }) 1 0
      start

abbrev pub or_else : Option Config → Config → Config
or_else none d = d
or_else (some c) d = c

approved_config : Config
approved_config = or_else (find_config 2 story) blank

pub or_else_found : (o : Option Config) (d : Config) → is_set o ≡ true → o ≡ some (or_else o d)
or_else_found none d h = cc
or_else_found (some c) d h = refl

story_set : is_set (find_config 2 story) ≡ true
unfolding story query
story_set = refl

story_found : find_config 2 story ≡ some approved_config
unfolding approved_config
story_found = or_else_found (find_config 2 story) blank story_set

story_active : approved_config.status ≡ active
unfolding story approved_config query
story_active = refl

story_assigned : is_assigned 2 1 story ≡ true
unfolding story query
story_assigned = refl

story-Reach : Reach sample plain_tokens [] (initial (admin ∷ []) 1) story
unfolding story query
story-Reach =
    next
      (next
        (next (next here (served registration [] 10 start registered refl))
          (served (Request.create request by) [] 20 registered created refl))
        (served (Request.submit 2 by) [] 30 created submitted refl))
      (served (Request.approve 2 by) [] 40 submitted story refl)

Reach-one_active_example : ◌≡◌ {A = ℕ} 2 2
Reach-one_active_example =
    Reach-one_active sample plain_tokens [] (admin ∷ []) 1 story 2 2 1 approved_config
      approved_config story-Reach story_found story_found story_active story_active story_assigned
      story_assigned

Reach-Stage_example : Stage approved_config.status approved_config
Reach-Stage_example =
    Reach-Stage sample plain_tokens [] (admin ∷ []) 1 story 2 approved_config story-Reach
      story_found
