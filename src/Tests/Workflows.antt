-- ===== src/Tests/Workflows.antt =====
-- Concrete inputs for the results about requests, roles and the workflow of a config.
use ats_proxy_manager.Prelude.{
  Bool, true, false, some, [], ◌∷◌, ◌≡◌, refl, codes, str_eq, leb, ltb, ◌&&◌,
}
use ats_proxy_manager.Prelude.Table.{find, some_row}
use ats_proxy_manager.Domain.Enums.{
  UserRole, can_create, not_found, internal, pending_approval, RuleAction_is_valid,
}
use ats_proxy_manager.Domain.Models.{Config}
use ats_proxy_manager.Generate.Files.{domain_to_ats, domain_to_sni}
use ats_proxy_manager.Store.{
  World, Result, ok, err, idle, with_tx, statement, guard, pure, or_raise, ◌>>=◌,
}
use ats_proxy_manager.Repository.Keys.{find_config, has_user}
use ats_proxy_manager.Repository.ConfigRepo
use ats_proxy_manager.Repository.DomainRuleRepo
use ats_proxy_manager.Regex.{accepts}
use ats_proxy_manager.Regex.Alphabet.{AllBytes}
use ats_proxy_manager.Server.{initial}
use ats_proxy_manager.Service.Collect.{collect}
use ats_proxy_manager.Service.ConfigInput.{domain_pattern, validate_rules}
use ats_proxy_manager.Service.ConfigService.Rules.{create_domains}
use ats_proxy_manager.Service.ConfigService.Edit
use ats_proxy_manager.Service.ConfigService.Workflow
use ats_proxy_manager.Invariant.Lifecycle.{is_set}
use ats_proxy_manager.Laws.Roles.{rank, can_create-rank}
use ats_proxy_manager.Laws.Atomicity.{creating, perform, perform_undone}
use ats_proxy_manager.Laws.Domains.{is_domain_byte, domain_pattern-AllBytes}
use ats_proxy_manager.Laws.Validation.{RequestOk, validate_rules-RequestOk}
use ats_proxy_manager.Laws.Approval.{Approved, approve-Approved}
use ats_proxy_manager.Laws.Progress.{approve_succeeds}
use ats_proxy_manager.Laws.Deletion.{Deletable, Gone, delete-Gone, delete_undone}
use ats_proxy_manager.Tests.Samples.{sample}
use ats_proxy_manager.Tests.Story.{
  by, request, start, created, submitted, blank, or_else, or_else_found,
}

can_create-rank_example :
    can_create UserRole.admin UserRole.root
    ≡ (leb 1 (rank UserRole.root) && ltb (rank UserRole.root) (rank UserRole.admin))
can_create-rank_example = can_create-rank UserRole.admin UserRole.root

-- The third statement fails: the transaction has begun and the config has its row.
abbrev faulty_world : World
faulty_world = record { db = start; faults = false ∷ false ∷ true ∷ []; now = 20; tx = idle }

abbrev calm_world : World
calm_world = record { db = start; faults = []; now = 20; tx = idle }

creation_fails : perform sample (creating request) by faulty_world ≡ (err internal, calm_world)
unfolding perform Edit.create Edit.create_body with_tx ConfigRepo.create
    ConfigRepo.create_with_version ConfigRepo.inserted collect create_domains DomainRuleRepo.create
    statement guard ◌>>=◌ pure start initial validate_rules accepts domain_pattern
    RuleAction_is_valid sample str_eq some_row
creation_fails = refl

perform_undone_example : calm_world.db ≡ faulty_world.db
perform_undone_example =
    perform_undone sample (creating request) by faulty_world calm_world internal creation_fails

domain_accepted : accepts domain_pattern (codes "*.a.io") ≡ true
unfolding accepts domain_pattern
domain_accepted = refl

domain_pattern-AllBytes_example :
    AllBytes is_domain_byte (domain_to_ats (codes "*.a.io"))
    × AllBytes is_domain_byte (domain_to_sni (codes "*.a.io"))
domain_pattern-AllBytes_example = domain_pattern-AllBytes (codes "*.a.io") domain_accepted

request_accepted : validate_rules sample request ≡ []
unfolding validate_rules accepts domain_pattern RuleAction_is_valid sample str_eq
request_accepted = refl

validate_rules-RequestOk_example : RequestOk sample request
validate_rules-RequestOk_example = validate_rules-RequestOk sample request request_accepted

-- The config as it waits for its approval.
pending_config : Config
pending_config = or_else (find_config 2 submitted) blank

pending_set : is_set (find_config 2 submitted) ≡ true
unfolding submitted
pending_set = refl

abbrev pending_world : World
pending_world = record { db = submitted; faults = []; now = 40; tx = idle }

pending_found : find_config 2 submitted ≡ some pending_config
unfolding pending_config
pending_found = or_else_found (find_config 2 submitted) blank pending_set

pending_status : pending_config.status ≡ pending_approval
unfolding submitted pending_config
pending_status = refl

pending_submitter : pending_config.submitted_by ≡ some 0
unfolding submitted pending_config
pending_submitter = refl

admin_known : has_user 0 submitted ≡ true
unfolding submitted
admin_known = refl

approve_succeeds_example :
    (c : Config) × (w' : World) × (Workflow.approve sample 2 by pending_world ≡ (ok c, w'))
    × Approved sample 2 0 c w'.db
approve_succeeds_example =
    approve_succeeds sample 2 by pending_config pending_world (refl, refl) admin_known pending_found
      pending_status pending_submitter

-- The approval that is meant.
approval :
    (c : Config) × (w' : World) × (Workflow.approve sample 2 by pending_world ≡ (ok c, w'))
    × Approved sample 2 0 c w'.db
approval =
    approve_succeeds sample 2 by pending_config pending_world (refl, refl) admin_known pending_found
      pending_status pending_submitter

approve-Approved_example : Approved sample 2 0 approval.0 approval.1.db
unfolding sample
approve-Approved_example =
    approve-Approved sample 2 by pending_world approval.1 approval.0 (λ left. refl) approval.2

-- The deletion of a draft.
abbrev pub draft_world : World
draft_world = record { db = created; faults = []; now = 40; tx = idle }

deletion : Result (Unit {0}) × World
deletion = Edit.delete sample 2 by draft_world

abbrev is_ok : Result (Unit {0}) → Bool
is_ok (ok u) = true
is_ok (err e) = false

ok_outcome : (o : Result (Unit {0}) × World) → is_ok o.0 ≡ true → o ≡ (ok tt, o.1)
ok_outcome (ok u, w) h = refl
ok_outcome (err e, w) h = cc

deletion_ok : is_ok deletion.0 ≡ true
unfolding created deletion Edit.delete ConfigRepo.delete ConfigRepo.delete_config
deletion_ok = refl

deletion_outcome : Edit.delete sample 2 by draft_world ≡ (ok tt, deletion.1)
unfolding deletion
deletion_outcome = ok_outcome deletion deletion_ok

delete-Gone_example : Deletable 2 created × Gone 2 created deletion.1.db
delete-Gone_example = delete-Gone sample 2 by draft_world deletion.1 deletion_outcome

missing_fails : Edit.delete sample 9 by calm_world ≡ (err not_found, calm_world)
unfolding Edit.delete ConfigRepo.get_by_id statement or_raise ◌>>=◌ start initial find
missing_fails = refl

delete_undone_example : calm_world.db ≡ calm_world.db
delete_undone_example = delete_undone sample 9 by calm_world calm_world not_found missing_fails
