-- ===== src/Generate/Files.antt =====
-- `generateParentConfig`, `generateSNIYaml` and `generateIPAllowYaml`. A text that the source
-- writes line by line is the list of its lines, each ended by a newline in `render`.
use Prim.Native.Nat.{bit_or}
use ats_proxy_manager.Prelude.Lines.{render}
use ats_proxy_manager.Prelude.{
  ℕ, ◌-◌, Bool, true, false, Option, none, some, List, [], ◌∷◌, ◌++◌, map, ◌&&◌, if◌then◌else◌, pos,
  Str, codes, ◌==◌,
}
use ats_proxy_manager.Prelude.Table.{select_all}
use ats_proxy_manager.Domain.Enums.{RuleAction, direct, parent, AclAction, deny}
use ats_proxy_manager.Domain.Models.{DomainRule, IpRangeRule, ClientAclRule, ParentProxy}
use ats_proxy_manager.Runtime.{Runtime, v4, v6, IpNet}

-- `strings.Join`.
unfoldable pub join : Str → List Str → Str
join sep [] = []
join sep (x ∷ []) = x
join sep (x ∷ y ∷ xs) = x ++ (sep ++ join sep (y ∷ xs))

-- *.example.com becomes .example.com: `strings.HasPrefix(domain, "*.")`, `domain[1:]`.
unfoldable pub domain_to_ats : Str → Str
domain_to_ats (a ∷ b ∷ rest) = if a == b'*' && b == b'.' then b ∷ rest else a ∷ b ∷ rest
domain_to_ats s = s

-- .example.com becomes *.example.com.
unfoldable pub domain_to_sni : Str → Str
domain_to_sni (a ∷ rest) = if a == b'.' then b'*' ∷ a ∷ rest else a ∷ rest
domain_to_sni s = s

-- `end[i] = start[i] | ^mask[i]`, byte by byte.
unfoldable pub range_end : List ℕ → List ℕ → List ℕ
range_end (s ∷ start) (m ∷ mask) = bit_or s (255 - m) ∷ range_end start mask
range_end _ _ = []

-- `parentStr != ""`.
abbrev pub has_parents : Str → Bool
has_parents [] = false
has_parents (a ∷ s) = true

-- What follows the destination on a rule's line.
unfoldable pub to_direct : Str
to_direct = codes " go_direct=true"

unfoldable pub to_parent : Str → Str
to_parent parents =
    codes " parent=" ++ (34 ∷ (parents ++ (34 ∷ codes " round_robin=strict go_direct=false")))

-- The line of one rule, if it has one: a rule for the parents is dropped when there are none.
unfoldable pub rule_lines : Str → RuleAction → Str → List Str
unfolding to_direct to_parent
rule_lines dest direct parents = (dest ++ to_direct) ∷ []
rule_lines dest parent parents =
    if has_parents parents then (dest ++ to_parent parents) ∷ [] else []
rule_lines dest (RuleAction.other s) parents = []

unfoldable pub domain_lines : Str → List DomainRule → List Str
unfolding rule_lines domain_to_ats
domain_lines parents [] = []
domain_lines parents (r ∷ rs) =
    rule_lines (codes "dest_domain=" ++ domain_to_ats r.domain) r.action parents
    ++ domain_lines parents rs

unfoldable pub default_line : RuleAction → Str → Str
unfolding to_direct to_parent
default_line parent parents =
    if has_parents parents
    then codes "dest_domain=." ++ to_parent parents
    else codes "dest_domain=." ++ to_direct
default_line _ parents = codes "dest_domain=." ++ to_direct

-- The rules that are always there.
unfoldable pub infrastructure_lines : List Str
infrastructure_lines =
    codes "# Localhost"
    ∷ codes "dest_ip=127.0.0.0-127.255.255.255 go_direct=true"
    ∷ codes "# Link-local"
    ∷ codes "dest_ip=169.254.0.0-169.254.255.255 go_direct=true"
    ∷ codes "# Kubernetes"
    ∷ codes "dest_domain=.svc.cluster.local go_direct=true"
    ∷ codes "dest_domain=.cluster.local go_direct=true"
    ∷ codes "dest_domain=localhost go_direct=true"
    ∷ []
    ∷ []

unfoldable pub sni_lines : List DomainRule → List Str
unfolding domain_to_sni
sni_lines [] = []
sni_lines (r ∷ rs) =
    let rest = sni_lines rs in
    elim r.action [
      | direct ↦
          (codes "  - fqdn: '" ++ (domain_to_sni r.domain ++ codes "'"))
          ∷ codes "    tunnel_route: direct"
          ∷ rest
      | _ ↦ rest
    ]

abbrev pub ats_action : AclAction → Str
ats_action deny = codes "set_deny"
ats_action _ = codes "set_allow"

-- One entry of ip_allow.yaml.
abbrev pub ip_allow_entry : Str → Str → List Str
ip_allow_entry addrs action =
    codes "  - apply: in"
    ∷ (codes "    ip_addrs: " ++ addrs)
    ∷ (codes "    action: " ++ action)
    ∷ codes "    methods: ALL"
    ∷ []

unfoldable pub ip_allow_lines : List ClientAclRule → List Str
ip_allow_lines [] =
    ip_allow_entry (codes "0/0") (codes "set_deny")
    ++ ip_allow_entry (codes "::/0") (codes "set_deny")
ip_allow_lines (r ∷ rs) = ip_allow_entry r.cidr (ats_action r.action) ++ ip_allow_lines rs

module _ (rt : Runtime) where
  -- `net.IP.String` on four bytes.
  unfoldable pub dotted : List ℕ → Str
  unfolding join
  dotted bytes = join (codes ".") (map (λ b. rt.itoa (pos b)) bytes)

  range_of : Str → Option IpNet → Str
  range_of cidr none = cidr
  range_of cidr (some ipnet) = elim ipnet.ip [
    | v4 start ↦ dotted start ++ (codes "-" ++ dotted (range_end start ipnet.mask))
    | v6 bytes ↦ cidr
  ]

  unfoldable pub cidr_to_range : Str → Str
  unfolding range_of dotted range_end
  cidr_to_range cidr = range_of cidr (rt.parse_cidr cidr)

  -- The enabled parents in order of priority, as `address:port;address:port`.
  unfoldable pub parent_list : List ParentProxy → Str
  unfolding join
  parent_list parents = join (codes ";") (
      map (λ (pp : ParentProxy). pp.address ++ (codes ":" ++ rt.itoa pp.port))
        (select_all (λ pp. pp.enabled) parents))

  unfoldable pub ip_range_lines : Str → List IpRangeRule → List Str
  unfolding rule_lines cidr_to_range
  ip_range_lines parents [] = []
  ip_range_lines parents (r ∷ rs) =
      rule_lines (codes "dest_ip=" ++ cidr_to_range r.cidr) r.action parents
      ++ ip_range_lines parents rs

  unfoldable pub parent_config_lines :
      List IpRangeRule → List DomainRule → List ParentProxy → RuleAction → List Str
  unfolding infrastructure_lines ip_range_lines domain_lines default_line parent_list
  parent_config_lines ip_ranges domain_rules parents default_action =
      let sorted = rt.slice_order.sort ParentProxy (λ p. p.priority) parents in
      let parent_str = parent_list sorted in
      infrastructure_lines
      ++ (ip_range_lines parent_str (rt.slice_order.sort IpRangeRule (λ r. r.priority) ip_ranges)
          ++ (domain_lines parent_str
                (rt.slice_order.sort DomainRule (λ r. r.priority) domain_rules)
              ++ default_line default_action parent_str ∷ []))

  unfoldable pub generate_parent_config :
      List IpRangeRule → List DomainRule → List ParentProxy → RuleAction → Str
  unfolding render parent_config_lines
  generate_parent_config ip_ranges domain_rules parents default_action =
      render (parent_config_lines ip_ranges domain_rules parents default_action)

  unfoldable pub generate_sni_yaml : List DomainRule → Str
  unfolding render sni_lines
  generate_sni_yaml domain_rules =
      render
        (codes "sni:" ∷ sni_lines (rt.slice_order.sort DomainRule (λ r. r.priority) domain_rules))

  unfoldable pub generate_ip_allow_yaml : List ClientAclRule → Str
  unfolding render ip_allow_lines
  generate_ip_allow_yaml rules = render (
      codes "ip_allow:"
      ∷ ip_allow_lines (rt.slice_order.sort ClientAclRule (λ r. r.priority) rules))
