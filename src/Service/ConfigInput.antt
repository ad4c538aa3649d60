-- ===== src/Service/ConfigInput.antt =====
-- The requests of backend/internal/service/config_service.go and `validateRules`. The messages
-- that the source joins into one text are a list of values here, one for each message.
use ats_proxy_manager.Prelude.{
  ℕ, zero, suc, Bool, true, false, not, Option, none, some, List, [], ◌∷◌, ◌++◌, ◌==◌, leb, ◌&&◌,
  ◌||◌, if◌then◌else◌, ℤ, pos, ltb_ℤ, Str, codes, str_eq, is_empty,
}
use ats_proxy_manager.Domain.Enums.{
  RuleAction, direct, AclAction, RuleAction_is_valid, AclAction_is_valid,
}
use ats_proxy_manager.Regex.{Regex, one_of, seq, star, optional, plus, accepts}
use ats_proxy_manager.Runtime.{Runtime, Ip, v4, IpNet}

pub record DomainRuleInput : Type 0 where
  pub domain : Str
  pub action : RuleAction
  pub priority : ℤ

pub record IpRangeRuleInput : Type 0 where
  pub cidr : Str
  pub action : RuleAction
  pub priority : ℤ

pub record ParentProxyInput : Type 0 where
  pub address : Str
  pub port : ℤ
  pub priority : ℤ
  pub enabled : Bool

pub record ClientAclInput : Type 0 where
  pub cidr : Str
  pub action : AclAction
  pub priority : ℤ

pub record CreateConfigRequest : Type 0 where
  pub name : Str
  pub description : Option Str
  pub default_action : RuleAction
  pub domains : List DomainRuleInput
  pub ip_ranges : List IpRangeRuleInput
  pub parent_proxies : List ParentProxyInput
  pub client_acl : List ClientAclInput
  pub proxy_ids : List ℕ

-- The messages of `validateRules`; the number is the position in its list.
pub data Violation : Type 0 where
  bad_default_action : RuleAction → Violation
  domain_empty domain_wildcard domain_invalid domain_action : ℕ → Violation
  range_empty range_invalid range_action : ℕ → Violation
  range_zero : ℕ → Violation
  acl_empty acl_invalid acl_zero acl_action : ℕ → Violation
  parent_empty parent_invalid parent_port : ℕ → Violation

-- One message if the test fails.
abbrev pub unless : Bool → Violation → List Violation
unless true v = []
unless false v = v ∷ []

-- `if req.DefaultAction == "" { req.DefaultAction = ActionDirect }`.
unfoldable pub or_direct : RuleAction → RuleAction
or_direct (RuleAction.other []) = direct
or_direct a = a

abbrev pub is_letter_or_digit : ℕ → Bool
is_letter_or_digit c =
    (leb b'a' c && leb c b'z') || ((leb b'A' c && leb c b'Z') || (leb b'0' c && leb c b'9'))

abbrev pub is_label_byte : ℕ → Bool
is_label_byte c = is_letter_or_digit c || c == b'-'

-- [a-zA-Z0-9]([a-zA-Z0-9-]*[a-zA-Z0-9])?
abbrev pub label : Regex
label =
    seq (one_of is_letter_or_digit)
      (optional (seq (star (one_of is_label_byte)) (one_of is_letter_or_digit)))

abbrev pub dot : Regex
dot = one_of (λ c. c == b'.')

-- ^(\*\.)?label(\.label)+$
unfoldable pub domain_pattern : Regex
domain_pattern =
    seq (optional (seq (one_of (λ c. c == b'*')) dot)) (seq label (plus (seq dot label)))

-- `ip.To4() != nil && ip.Equal(net.IPv4zero)`.
abbrev pub is_v4_zero : Ip → Bool
is_v4_zero (v4 (zero ∷ zero ∷ zero ∷ zero ∷ [])) = true
is_v4_zero _ = false

unfoldable pub domain_violations : ℕ → DomainRuleInput → List Violation
domain_violations i d =
    if is_empty d.domain
    then domain_empty i ∷ []
    else if str_eq d.domain (codes "*.") || str_eq d.domain (codes "*")
    then domain_wildcard i ∷ []
    else unless (accepts domain_pattern d.domain) (domain_invalid i)
      ++ unless (RuleAction_is_valid d.action) (domain_action i)

-- `port >= 1024 && port <= 65535`.
unfoldable pub port_in_range : ℤ → Bool
port_in_range port = not (ltb_ℤ port (pos 1024)) && not (ltb_ℤ (pos 65535) port)

-- Numbers the items of a list from `i`, as `for i, x := range xs`.
unfoldable pub violations_from :
    {A : Type 0} → (ℕ → A → List Violation) → ℕ → List A → List Violation
violations_from f i [] = []
violations_from f i (x ∷ xs) = f i x ++ violations_from f (suc i) xs

module _ (rt : Runtime) where
  -- `ParseCIDR` after `ParseIP` has failed: the network must be there and not start at 0.0.0.0.
  unfoldable pub network_violations : Option IpNet → Violation → Violation → List Violation
  network_violations none invalid zero_net = invalid ∷ []
  network_violations (some ipnet) invalid zero_net = unless (not (is_v4_zero ipnet.ip)) zero_net

  unfoldable pub address_violations : Option Ip → Str → Violation → Violation → List Violation
  unfolding network_violations
  address_violations (some ip) cidr invalid zero_net = unless (not (is_v4_zero ip)) zero_net
  address_violations none cidr invalid zero_net =
      network_violations (rt.parse_cidr cidr) invalid zero_net

  -- `validateCIDR`, which answers with one message or none.
  unfoldable pub validate_cidr : ℕ → Str → List Violation
  unfolding address_violations
  validate_cidr i cidr = address_violations (rt.parse_ip cidr) cidr (range_invalid i) (range_zero i)

  unfoldable pub range_violations : ℕ → IpRangeRuleInput → List Violation
  unfolding validate_cidr
  range_violations i r =
      if is_empty r.cidr
      then range_empty i ∷ []
      else validate_cidr i r.cidr ++ unless (RuleAction_is_valid r.action) (range_action i)

  -- A bare address is held against the text "0.0.0.0" only.
  unfoldable pub acl_address_violations : Option Ip → ℕ → Str → List Violation
  unfolding network_violations
  acl_address_violations (some ip) i cidr =
      unless (not (str_eq cidr (codes "0.0.0.0"))) (acl_zero i)
  acl_address_violations none i cidr =
      network_violations (rt.parse_cidr cidr) (acl_invalid i) (acl_zero i)

  unfoldable pub acl_violations : ℕ → ClientAclInput → List Violation
  unfolding acl_address_violations
  acl_violations i acl =
      if is_empty acl.cidr
      then acl_empty i ∷ []
      else acl_address_violations (rt.parse_ip acl.cidr) i acl.cidr
        ++ unless (AclAction_is_valid acl.action) (acl_action i)

  abbrev pub is_some : Option Ip → Bool
  is_some none = false
  is_some (some ip) = true

  unfoldable pub parent_violations : ℕ → ParentProxyInput → List Violation
  unfolding port_in_range
  parent_violations i pp =
      (if is_empty pp.address
        then parent_empty i ∷ []
        else unless (is_some (rt.parse_ip pp.address)) (parent_invalid i))
      ++ unless (port_in_range pp.port) (parent_port i)

  -- `validateRules`: the empty list is the nil error.
  unfoldable pub validate_rules : CreateConfigRequest → List Violation
  unfolding or_direct domain_violations range_violations acl_violations parent_violations
      violations_from
  validate_rules req =
      unless (RuleAction_is_valid (or_direct req.default_action))
        (bad_default_action req.default_action)
      ++ (violations_from domain_violations 0 req.domains
          ++ (violations_from range_violations 0 req.ip_ranges
              ++ (violations_from acl_violations 0 req.client_acl
                  ++ violations_from parent_violations 0 req.parent_proxies)))
