-- ===== src/Tests/Proxies.antt =====
-- Concrete inputs for the results about proxies, files and refusals.
use mathlib.Core.List.{Mem, eq-or-mem_of_mem-cons, not-mem-nil}
use mathlib.Core.Logic.{∥∥₁_elim}
use ats_proxy_manager.Prelude.{
  Bool, true, false, none, some, [], ◌∷◌, ◌≡◌, refl, pos, codes, str_eq, ◌≢◌, ◌⊎◌, inl, inr, ap,
}
use ats_proxy_manager.Prelude.Table.{select_first}
use ats_proxy_manager.Domain.Enums.{AclAction, parent, Error, pending_approval}
use ats_proxy_manager.Domain.Models.{ClientAclRule, Proxy, ParentProxy}
use ats_proxy_manager.Generate.Files.{parent_config_lines, generate_ip_allow_yaml}
use ats_proxy_manager.Store.{query, get_now, World, Result, ok, err, idle}
use ats_proxy_manager.Repository.Keys.{find_proxy}
use ats_proxy_manager.Repository.ConfigRepo
use ats_proxy_manager.Scheduler.{proxy_cleanup, tick}
use ats_proxy_manager.Service.SyncService.{
  RegisterRequest, register, ConfigResponse, get_config, answer_for, fresh_answer, is_current,
  stored_or_new_hash,
}
use ats_proxy_manager.Prelude.Lines.{one_line}
use ats_proxy_manager.Laws.Access.{
  keeps_out, read_ip_allow, deny_all, read_ip_allow-generate_ip_allow_yaml,
}
use ats_proxy_manager.Laws.Refusal.{has_status, approving, move, move_refused}
use ats_proxy_manager.Laws.Serving.{Answer, get_config-Answer}
use ats_proxy_manager.Laws.Validation.{Each}
use ats_proxy_manager.Laws.Jobs.{Spared, tick-Spared}
use ats_proxy_manager.Laws.Registration.{register_stranger}
use ats_proxy_manager.Laws.Routing.{GoesDirect, NoneEnabled, parent_config_lines-GoesDirect}
use ats_proxy_manager.Tests.Samples.{sample}
use ats_proxy_manager.Tests.Story.{by, registered, created, story}
use ats_proxy_manager.Tests.Workflows.{draft_world}

-- The proxy that has registered.
abbrev row : Proxy
row = record {
  id = 1;
  hostname = codes "h";
  config_id = none;
  is_online = true;
  last_seen = some 10;
  current_config_hash = none;
  registered_at = 10;
  registered_ip = some (codes "ip");
  capture_logs_until = none;
}

row_found : select_first (λ o. str_eq o.hostname (codes "h")) registered.proxies ≡ some row
unfolding registered
row_found = refl

abbrev intruder : RegisterRequest
intruder = record { hostname = codes "h"; config_id = []; proxy_id = []; remote_ip = codes "other" }

abbrev registered_world : World
registered_world = record { db = registered; faults = []; now = 40; tx = idle }

other_address : row.registered_ip ≢ some intruder.remote_ip
other_address = λ e. cc e

other_id : intruder.proxy_id ≢ sample.uuid_string 1
unfolding sample
other_id = λ e. cc e

register_stranger_example :
    (e : Error) × (((register sample intruder registered_world).0 ≡ err e)
      × ((register sample intruder registered_world).1.db ≡ registered))
register_stranger_example =
    register_stranger sample row intruder registered_world row_found refl other_address other_id

row_by_id : find_proxy 1 registered ≡ some row
unfolding registered
row_by_id = refl

tick-Spared_example : Spared 1 row 40 (tick proxy_cleanup registered_world).1.db
tick-Spared_example = tick-Spared proxy_cleanup registered_world 1 row row_by_id refl

abbrev disabled : ParentProxy
disabled = record {
  id = 1;
  config_id = 2;
  address = codes "p";
  port = pos 3128;
  priority = pos 1;
  enabled = false;
  created_at = 0;
}

only_disabled : (p : ParentProxy) → (p ≡ disabled) ⊎ Mem p [] → p.enabled ≡ false
only_disabled p (inl e) = ap (λ (x : ParentProxy). x.enabled) e
only_disabled p (inr m) = absurd (not-mem-nil m)

none_enabled : NoneEnabled (disabled ∷ [])
none_enabled p m = ∥∥₁_elim (eq-or-mem_of_mem-cons m) (hlevel) (only_disabled p)

parent_config_lines-GoesDirect_example :
    Each GoesDirect (parent_config_lines sample [] [] (disabled ∷ []) parent)
parent_config_lines-GoesDirect_example =
    parent_config_lines-GoesDirect sample [] [] (disabled ∷ []) parent none_enabled

abbrev denied : ClientAclRule
denied = record {
  id = 1;
  config_id = 2;
  cidr = codes "10.0.0.0/8";
  action = AclAction.deny;
  priority = pos 1;
  created_at = 0;
}

only_denied : (r : ClientAclRule) → (r ≡ denied) ⊎ Mem r [] → one_line r.cidr ≡ true
only_denied r (inl e) = ap (λ (x : ClientAclRule). one_line x.cidr) e
only_denied r (inr m) = absurd (not-mem-nil m)

flat_rules : (r : ClientAclRule) → Mem r (denied ∷ []) → one_line r.cidr ≡ true
flat_rules r m = ∥∥₁_elim (eq-or-mem_of_mem-cons m) (hlevel) (only_denied r)

read_ip_allow-generate_ip_allow_yaml_example :
    read_ip_allow (generate_ip_allow_yaml sample (denied ∷ []))
    ≡ some ((codes "10.0.0.0/8", keeps_out) ∷ deny_all)
unfolding sample
read_ip_allow-generate_ip_allow_yaml_example =
    read_ip_allow-generate_ip_allow_yaml sample (denied ∷ []) flat_rules

not_pending : has_status 2 pending_approval created ≡ false
unfolding created
not_pending = refl

move_refused_example :
    (e : Error) × (((move sample approving 2 by draft_world).0 ≡ err e)
      × ((move sample approving 2 by draft_world).1.db ≡ created))
move_refused_example = move_refused sample approving 2 by draft_world not_pending

-- The helper asks for its files after the approval.
abbrev story_world : World
story_world = record { db = story; faults = []; now = 50; tx = idle }

served : Result ConfigResponse × World
served = get_config sample (codes "h") [] story_world

abbrev is_answer : Result ConfigResponse → Bool
is_answer (ok a) = true
is_answer (err e) = false

answered :
    (o : Result ConfigResponse × World)
    → is_answer o.0 ≡ true
    → (a : ConfigResponse) × (o ≡ (ok a, o.1))
answered (ok a, w) h = (a, refl)
answered (err e, w) h = cc

served_ok : is_answer served.0 ≡ true
unfolding served story get_config answer_for fresh_answer ConfigRepo.get_active_for_proxy is_current
    stored_or_new_hash get_now query
served_ok = refl

served_answer :
    (a : ConfigResponse) × (get_config sample (codes "h") [] story_world ≡ (ok a, served.1))
unfolding served
served_answer = answered served served_ok

get_config-Answer_example : Answer sample (codes "h") [] served_answer.0 served.1.db
unfolding sample
get_config-Answer_example =
    get_config-Answer sample (codes "h") [] story_world served.1 served_answer.0 (λ left. refl)
      served_answer.1
