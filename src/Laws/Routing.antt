-- ===== src/Laws/Routing.antt =====
-- parent.config without a parent, from `generateParentConfig` of
-- backend/internal/service/config_service.go.
use mathlib.Core.List.{Mem, mem-cons_self, mem-cons_of_mem}
use mathlib.Core.List.Perm
use ats_proxy_manager.Prelude.{
  Bool, false, not, List, [], ◌∷◌, ◌++◌, ◌≡◌, ◌⊎◌, inl, inr, refl, sym, subst, ◌==◌, Str, codes,
}
use ats_proxy_manager.Prelude.Table.{select_all}
use ats_proxy_manager.Domain.Enums.{RuleAction, direct, parent}
use ats_proxy_manager.Domain.Models.{DomainRule, IpRangeRule, ParentProxy}
use ats_proxy_manager.Runtime.{Runtime}
use ats_proxy_manager.Generate.Files.{
  to_direct, rule_lines, domain_lines, default_line, infrastructure_lines, ip_range_lines,
  parent_list, parent_config_lines, domain_to_ats, cidr_to_range, join,
}
use ats_proxy_manager.Laws.Validation.{Each}

-- Blank lines and comments are no rules.
abbrev pub is_rule : Str → Bool
is_rule [] = false
is_rule (c ∷ s) = not (c == b'#')

-- The line is no rule, or one that ends in `go_direct=true`.
abbrev pub GoesDirect : Str → Type 0
GoesDirect l = (is_rule l ≡ false) ⊎ ((dest : Str) × (l ≡ dest ++ to_direct))

Each-append :
    (xs ys : List Str) → Each GoesDirect xs → Each GoesDirect ys → Each GoesDirect (xs ++ ys)
Each-append [] ys a b = b
Each-append (x ∷ xs) ys a b = (a.0, Each-append xs ys a.1 b)

rule_lines-GoesDirect : (dest : Str) (a : RuleAction) → Each GoesDirect (rule_lines dest a [])
unfolding rule_lines
rule_lines-GoesDirect dest direct = (inr (dest, refl), tt)
rule_lines-GoesDirect dest parent = tt
rule_lines-GoesDirect dest (RuleAction.other s) = tt

domain_lines-GoesDirect : (rs : List DomainRule) → Each GoesDirect (domain_lines [] rs)
unfolding domain_lines
domain_lines-GoesDirect [] = tt
domain_lines-GoesDirect (r ∷ rs) =
    Each-append (rule_lines (codes "dest_domain=" ++ domain_to_ats r.domain) r.action [])
      (domain_lines [] rs)
      (rule_lines-GoesDirect (codes "dest_domain=" ++ domain_to_ats r.domain) r.action)
      (domain_lines-GoesDirect rs)

ip_range_lines-GoesDirect :
    (rt : Runtime) (rs : List IpRangeRule) → Each GoesDirect (ip_range_lines rt [] rs)
unfolding ip_range_lines
ip_range_lines-GoesDirect rt [] = tt
ip_range_lines-GoesDirect rt (r ∷ rs) =
    Each-append (rule_lines (codes "dest_ip=" ++ cidr_to_range rt r.cidr) r.action [])
      (ip_range_lines rt [] rs)
      (rule_lines-GoesDirect (codes "dest_ip=" ++ cidr_to_range rt r.cidr) r.action)
      (ip_range_lines-GoesDirect rt rs)

default_line-GoesDirect : (a : RuleAction) → GoesDirect (default_line a [])
unfolding default_line
default_line-GoesDirect direct = inr (codes "dest_domain=.", refl)
default_line-GoesDirect parent = inr (codes "dest_domain=.", refl)
default_line-GoesDirect (RuleAction.other s) = inr (codes "dest_domain=.", refl)

infrastructure_lines-GoesDirect : Each GoesDirect infrastructure_lines
unfolding infrastructure_lines to_direct
infrastructure_lines-GoesDirect = (
  inl refl,
  (
    inr (codes "dest_ip=127.0.0.0-127.255.255.255", refl),
    (
      inl refl,
      (
        inr (codes "dest_ip=169.254.0.0-169.254.255.255", refl),
        (
          inl refl,
          (
            inr (codes "dest_domain=.svc.cluster.local", refl),
            (
              inr (codes "dest_domain=.cluster.local", refl),
              (inr (codes "dest_domain=localhost", refl), (inl refl, tt)),
            ),
          ),
        ),
      ),
    ),
  ),
)

-- No parent of the list is enabled.
abbrev pub NoneEnabled : List ParentProxy → Type 0
NoneEnabled ps = (p : ParentProxy) → Mem p ps → p.enabled ≡ false

none_selected : (ps : List ParentProxy) → NoneEnabled ps → select_all (λ p. p.enabled) ps ≡ []
unfolding select_all
none_selected [] h = refl
none_selected (p ∷ ps) h =
    rw (h p mem-cons_self) (none_selected ps (λ q m. h q (mem-cons_of_mem p m)))

no_parents : (rt : Runtime) (ps : List ParentProxy) → NoneEnabled ps → parent_list rt ps ≡ []
unfolding parent_list join
no_parents rt ps h = rw (none_selected ps h) refl

-- Where no parent is enabled, each line of parent.config is blank, a comment, or a rule that goes
-- direct, whatever the actions of the rules and the default action.
pub parent_config_lines-GoesDirect :
    (rt : Runtime) (ip_ranges : List IpRangeRule) (domain_rules : List DomainRule)
    (parents : List ParentProxy) (default_action : RuleAction)
    → NoneEnabled parents
    → Each GoesDirect (parent_config_lines rt ip_ranges domain_rules parents default_action)
unfolding parent_config_lines
parent_config_lines-GoesDirect rt ip_ranges domain_rules parents default_action h =
    let ranges = rt.slice_order.sort IpRangeRule (λ r. r.priority) ip_ranges in
    let domains = rt.slice_order.sort DomainRule (λ r. r.priority) domain_rules in
    let none_left =
      no_parents rt (rt.slice_order.sort ParentProxy (λ p. p.priority) parents) (λ p m.
        h p (Perm.subset (rt.slice_order.sort-perm ParentProxy (λ p. p.priority) parents) p m)) in
    subst
      (λ s. Each GoesDirect (
        infrastructure_lines
        ++ (ip_range_lines rt s ranges
            ++ (domain_lines s domains ++ default_line default_action s ∷ []))))
      (sym none_left)
      (Each-append infrastructure_lines
        (ip_range_lines rt [] ranges
          ++ (domain_lines [] domains ++ default_line default_action [] ∷ []))
        infrastructure_lines-GoesDirect
        (Each-append (ip_range_lines rt [] ranges)
          (domain_lines [] domains ++ default_line default_action [] ∷ [])
          (ip_range_lines-GoesDirect rt ranges)
          (Each-append (domain_lines [] domains) (default_line default_action [] ∷ [])
            (domain_lines-GoesDirect domains) (default_line-GoesDirect default_action, tt))))
