-- ===== src/Laws/Access.antt =====
-- ip_allow.yaml as a reader of its lines sees it, from `generateIPAllowYaml` of
-- backend/internal/service/config_service.go.
use mathlib.Core.List.{Mem, mem-cons_self, mem-cons_of_mem}
use mathlib.Core.List.Perm
use ats_proxy_manager.Prelude.{
  true, Option, none, some, List, [], ◌∷◌, ◌++◌, map, ◌≡◌, refl, ◌==◌, if◌then◌else◌, Str, str_eq,
  codes, ap, ◌∙◌,
}
use ats_proxy_manager.Domain.Enums.{AclAction, allow, deny}
use ats_proxy_manager.Domain.Models.{ClientAclRule}
use ats_proxy_manager.Runtime.{Runtime}
use ats_proxy_manager.Prelude.Lines.{lines_of, one_line, all_one_line, lines_of-render}
use ats_proxy_manager.Generate.Files.{ats_action, ip_allow_lines, generate_ip_allow_yaml}

-- What follows a prefix.
unfoldable pub after_prefix : Str → Str → Option Str
after_prefix [] s = some s
after_prefix (a ∷ p) [] = none
after_prefix (a ∷ p) (b ∷ s) = let rest = after_prefix p s in if a == b then rest else none

-- What an entry does with its addresses.
pub data Verdict : Type 0 where
  lets_in keeps_out : Verdict

-- An entry: the addresses and the verdict.
abbrev pub AclEntry : Type 0
AclEntry = Str × Verdict

-- The words of ip_allow.yaml for the two verdicts.
unfoldable read_action : Str → Option Verdict
read_action s =
    if str_eq s (codes "set_deny")
    then some keeps_out
    else if str_eq s (codes "set_allow")
    then some lets_in
    else none

abbrev read_word : Option Str → Option Verdict
read_word none = none
read_word (some s) = read_action s

abbrev entry_of :
    Option Str
    → Option Str
    → Option Verdict
    → Option Str
    → Option (List AclEntry)
    → Option (List AclEntry)
entry_of (some []) (some addrs) (some verdict) (some []) (some rest) =
    some ((addrs, verdict) ∷ rest)
entry_of _ _ _ _ _ = none

-- Four lines make an entry.
unfoldable pub read_entries : List Str → Option (List AclEntry)
unfolding after_prefix read_action
read_entries [] = some []
read_entries (a ∷ b ∷ c ∷ d ∷ rest) =
    entry_of (after_prefix (codes "  - apply: in") a) (after_prefix (codes "    ip_addrs: ") b)
      (read_word (after_prefix (codes "    action: ") c))
      (after_prefix (codes "    methods: ALL") d) (read_entries rest)
read_entries _ = none

abbrev after_header : Option Str → List Str → Option (List AclEntry)
after_header (some []) rest = read_entries rest
after_header _ rest = none

abbrev read_lines : List Str → Option (List AclEntry)
read_lines [] = none
read_lines (h ∷ rest) = after_header (after_prefix (codes "ip_allow:") h) rest

-- A reader of ip_allow.yaml.
unfoldable pub read_ip_allow : Str → Option (List AclEntry)
unfolding read_entries
read_ip_allow text = read_lines (lines_of text)

-- Only a rule that denies keeps its addresses out.
abbrev pub verdict : AclAction → Verdict
verdict allow = lets_in
verdict deny = keeps_out
verdict (AclAction.other s) = lets_in

-- The entry of a rule.
abbrev pub acl_entry : ClientAclRule → AclEntry
acl_entry r = (r.cidr, verdict r.action)

-- Every IPv4 and every IPv6 address is denied.
abbrev pub deny_all : List AclEntry
deny_all = (codes "0/0", keeps_out) ∷ (codes "::/0", keeps_out) ∷ []

-- The word that the code writes for an action says its verdict.
read_action-ats_action : (a : AclAction) → read_action (ats_action a) ≡ some (verdict a)
unfolding read_action str_eq
read_action-ats_action allow = refl
read_action-ats_action deny = refl
read_action-ats_action (AclAction.other s) = refl

read_entries-lines :
    (rs : List ClientAclRule)
    → read_entries (ip_allow_lines rs) ≡ some (map acl_entry rs ++ deny_all)
unfolding read_entries ip_allow_lines read_action str_eq
read_entries-lines [] = refl
read_entries-lines (r ∷ rs) = rw (read_entries-lines rs) (rw (read_action-ats_action r.action) refl)

action_one_line : (a : AclAction) → one_line (ats_action a) ≡ true
action_one_line allow = refl
action_one_line deny = refl
action_one_line (AclAction.other s) = refl

lines-one_line :
    (rs : List ClientAclRule)
    → ((r : ClientAclRule) → Mem r rs → one_line r.cidr ≡ true)
    → all_one_line (ip_allow_lines rs) ≡ true
unfolding ip_allow_lines
lines-one_line [] h = refl
lines-one_line (r ∷ rs) h =
    rw (h r mem-cons_self)
      (rw (action_one_line r.action) (lines-one_line rs (λ q m. h q (mem-cons_of_mem r m))))

-- ip_allow.yaml, read back, has the rules in order of priority, each with its address, kept out
-- where the rule denies it and let in otherwise, and then denies every other address; no CIDR may
-- contain an end of line.
pub read_ip_allow-generate_ip_allow_yaml :
    (rt : Runtime) (rules : List ClientAclRule)
    → ((r : ClientAclRule) → Mem r rules → one_line r.cidr ≡ true)
    → read_ip_allow (generate_ip_allow_yaml rt rules)
      ≡ some (map acl_entry (rt.slice_order.sort ClientAclRule (λ r. r.priority) rules) ++ deny_all)
unfolding read_ip_allow generate_ip_allow_yaml
read_ip_allow-generate_ip_allow_yaml rt rules h =
    let sorted = rt.slice_order.sort ClientAclRule (λ r. r.priority) rules in
    let flat = lines-one_line sorted (λ r m.
      h r (Perm.subset (rt.slice_order.sort-perm ClientAclRule (λ r. r.priority) rules) r m)) in
    ap read_lines (lines_of-render (codes "ip_allow:" ∷ ip_allow_lines sorted) flat)
    ∙ read_entries-lines sorted
