-- ===== src/Laws/Validation.antt =====
-- What `validateRules` of backend/internal/service/config_service.go lets through.
use ats_proxy_manager.Prelude.{
  ℕ, suc, ◌≤◌, Bool, true, false, Option, none, some, List, [], ◌∷◌, ◌++◌, ◌≡◌, ◌⊎◌, inl, inr, refl,
  arith, ℤ, pos, negsuc, Str, is_empty, if◌then◌else◌,
}
use ats_proxy_manager.Domain.Enums.{RuleAction_is_valid, AclAction_is_valid}
use ats_proxy_manager.Regex.{accepts}
use ats_proxy_manager.Runtime.{Runtime, Ip, IpNet}
use ats_proxy_manager.Service.ConfigInput.{
  DomainRuleInput, IpRangeRuleInput, ParentProxyInput, ClientAclInput, CreateConfigRequest,
  Violation, unless, is_some, range_empty, range_invalid, range_zero, range_action, acl_empty,
  acl_invalid, acl_zero, acl_action, parent_empty, parent_invalid, parent_port, bad_default_action,
  or_direct, domain_pattern, is_v4_zero, domain_violations, port_in_range, violations_from,
  network_violations, address_violations, validate_cidr, range_violations, acl_address_violations,
  acl_violations, parent_violations, validate_rules,
}

abbrev pub Each : {A : Type 0} → (A → Type 0) → List A → Type 0
Each P [] = Unit
Each P (x ∷ xs) = P x × Each P xs

nil-append : {A : Type 0} (xs ys : List A) → xs ++ ys ≡ [] → (xs ≡ []) × (ys ≡ [])
nil-append [] ys h = (refl, h)
nil-append (x ∷ xs) ys h = cc

if-nil :
    (b : Bool) (v : Violation) (xs : List Violation) → (if b then v ∷ [] else xs) ≡ [] → xs ≡ []
if-nil true v xs h = cc
if-nil false v xs h = h

unless-nil : (b : Bool) (v : Violation) → unless b v ≡ [] → b ≡ true
unless-nil true v h = refl
unless-nil false v h = cc

violations_from-Each :
    {A : Type 0} {P : A → Type 0} (f : ℕ → A → List Violation)
    → ((i : ℕ) (x : A) → f i x ≡ [] → P x)
    → (i : ℕ) (xs : List A) → violations_from f i xs ≡ []
    → Each P xs
unfolding violations_from
violations_from-Each f h i [] e = tt
violations_from-Each f h i (x ∷ xs) e =
    let (here, there) = nil-append (f i x) (violations_from f (suc i) xs) e in
    (h i x here, violations_from-Each f h (suc i) xs there)

-- An accepted domain rule.
abbrev pub DomainOk : DomainRuleInput → Type 0
DomainOk d = (accepts domain_pattern d.domain ≡ true) × (RuleAction_is_valid d.action ≡ true)

domain_ok : (i : ℕ) (d : DomainRuleInput) → domain_violations i d ≡ [] → DomainOk d
unfolding domain_violations
domain_ok i d h = (ground arith, ground arith)

module _ (rt : Runtime) where
  -- The text is a network whose first address is not 0.0.0.0.
  abbrev pub NetworkOk : Str → Type 0
  NetworkOk cidr = (n : IpNet) × (rt.parse_cidr cidr ≡ some n) × (is_v4_zero n.ip ≡ false)

  -- The text is an address other than 0.0.0.0, or such a network.
  abbrev pub AddressOk : Str → Type 0
  AddressOk cidr =
      ((ip : Ip) × (rt.parse_ip cidr ≡ some ip) × (is_v4_zero ip ≡ false)) ⊎ NetworkOk cidr

  -- The text is an address, or a network whose first address is not 0.0.0.0.
  abbrev pub AclAddressOk : Str → Type 0
  AclAddressOk cidr = ((ip : Ip) × (rt.parse_ip cidr ≡ some ip)) ⊎ NetworkOk cidr

  abbrev pub RangeOk : IpRangeRuleInput → Type 0
  RangeOk r = AddressOk r.cidr × (RuleAction_is_valid r.action ≡ true)

  abbrev pub AclOk : ClientAclInput → Type 0
  AclOk a = AclAddressOk a.cidr × (AclAction_is_valid a.action ≡ true)

  -- An address, and a port that needs no privilege.
  abbrev pub ParentOk : ParentProxyInput → Type 0
  ParentOk p =
      ((ip : Ip) × (rt.parse_ip p.address ≡ some ip))
      × ((n : ℕ) × (p.port ≡ pos n) × (1024 ≤ n) × (n ≤ 65535))

  network_ok :
      (o : Option IpNet) (x z : Violation)
      → network_violations rt o x z ≡ []
      → (n : IpNet) × (o ≡ some n) × (is_v4_zero n.ip ≡ false)
  unfolding network_violations
  network_ok none x z h = cc
  network_ok (some n) x z h = (n, refl, ground arith)

  address_ok :
      (o : Option Ip) (cidr : Str) (x z : Violation)
      → address_violations rt o cidr x z ≡ []
      → ((ip : Ip) × (o ≡ some ip) × (is_v4_zero ip ≡ false)) ⊎ NetworkOk cidr
  unfolding address_violations
  address_ok (some ip) cidr x z h = inl (ip, refl, ground arith)
  address_ok none cidr x z h = inr (network_ok (rt.parse_cidr cidr) x z h)

  acl_address_ok :
      (o : Option Ip) (i : ℕ) (cidr : Str)
      → acl_address_violations rt o i cidr ≡ []
      → ((ip : Ip) × (o ≡ some ip)) ⊎ NetworkOk cidr
  unfolding acl_address_violations
  acl_address_ok (some ip) i cidr h = inl (ip, refl)
  acl_address_ok none i cidr h =
      inr (network_ok (rt.parse_cidr cidr) (acl_invalid i) (acl_zero i) h)

  port_ok : (p : ℤ) → port_in_range p ≡ true → (n : ℕ) × (p ≡ pos n) × (1024 ≤ n) × (n ≤ 65535)
  unfolding port_in_range
  port_ok (pos n) h = (n, refl, ground arith, ground arith)
  port_ok (negsuc n) h = ground arith

  parsed_ok : (o : Option Ip) → is_some rt o ≡ true → (ip : Ip) × (o ≡ some ip)
  parsed_ok none h = cc
  parsed_ok (some ip) h = (ip, refl)

  range_ok : (i : ℕ) (r : IpRangeRuleInput) → range_violations rt i r ≡ [] → RangeOk r
  unfolding range_violations validate_cidr
  range_ok i r h =
      let (a, b) =
        nil-append (validate_cidr rt i r.cidr)
          (unless (RuleAction_is_valid r.action) (range_action i))
          (if-nil (is_empty r.cidr) (range_empty i) _ h) in
      (address_ok (rt.parse_ip r.cidr) r.cidr (range_invalid i) (range_zero i) a, unless-nil _ _ b)

  acl_ok : (i : ℕ) (a : ClientAclInput) → acl_violations rt i a ≡ [] → AclOk a
  unfolding acl_violations
  acl_ok i a h =
      let (x, y) =
        nil-append (acl_address_violations rt (rt.parse_ip a.cidr) i a.cidr)
          (unless (AclAction_is_valid a.action) (acl_action i))
          (if-nil (is_empty a.cidr) (acl_empty i) _ h) in
      (acl_address_ok (rt.parse_ip a.cidr) i a.cidr x, unless-nil _ _ y)

  parent_ok : (i : ℕ) (p : ParentProxyInput) → parent_violations rt i p ≡ [] → ParentOk p
  unfolding parent_violations
  parent_ok i p h =
      let (x, y) =
        nil-append
          (if is_empty p.address
            then parent_empty i ∷ []
            else unless (is_some rt (rt.parse_ip p.address)) (parent_invalid i))
          (unless (port_in_range p.port) (parent_port i)) h in
      (
        parsed_ok (rt.parse_ip p.address)
            (unless-nil _ _ (if-nil (is_empty p.address) (parent_empty i) _ x)),
        port_ok p.port (unless-nil _ _ y),
      )

  -- All that a request must say to be stored.
  pub record RequestOk (req : CreateConfigRequest) : Type 0 where
    pub default_action : RuleAction_is_valid (or_direct req.default_action) ≡ true
    pub domains : Each DomainOk req.domains
    pub ip_ranges : Each RangeOk req.ip_ranges
    pub client_acl : Each AclOk req.client_acl
    pub parent_proxies : Each ParentOk req.parent_proxies

-- A request without a violation has a known default action (an empty one counts as direct), domains
-- that the pattern accepts, ranges that are an address or a network other than 0.0.0.0, client ACL
-- entries that are an address or such a network, known actions, and parents that are addresses
-- with a port from 1024 to 65535.
pub validate_rules-RequestOk :
    (rt : Runtime) (req : CreateConfigRequest) → validate_rules rt req ≡ [] → RequestOk rt req
unfolding validate_rules
validate_rules-RequestOk rt req h =
    let (a, h1) =
      nil-append
        (unless (RuleAction_is_valid (or_direct req.default_action))
          (bad_default_action req.default_action))
        _ h in
    let (d, h2) = nil-append (violations_from domain_violations 0 req.domains) _ h1 in
    let (r, h3) = nil-append (violations_from (range_violations rt) 0 req.ip_ranges) _ h2 in
    let (c, p) =
      nil-append (violations_from (acl_violations rt) 0 req.client_acl)
        (violations_from (parent_violations rt) 0 req.parent_proxies) h3 in
    record {
      default_action = unless-nil _ _ a;
      domains = violations_from-Each domain_violations domain_ok 0 req.domains d;
      ip_ranges = violations_from-Each (range_violations rt) (range_ok rt) 0 req.ip_ranges r;
      client_acl = violations_from-Each (acl_violations rt) (acl_ok rt) 0 req.client_acl c;
      parent_proxies =
          violations_from-Each (parent_violations rt) (parent_ok rt) 0 req.parent_proxies p;
    }
