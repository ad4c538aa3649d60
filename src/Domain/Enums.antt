-- ===== src/Domain/Enums.antt =====
-- backend/internal/domain/enums.go and errors.go.
use ats_proxy_manager.Prelude.{Bool, true, false, Str, ◌||◌}

-- `UserRole` is a Go string: any other text that a request carries is `other`.
pub data UserRole : Type 0 where
  root admin regular : UserRole
  other : Str → UserRole

pub data ConfigStatus : Type 0 where
  draft pending_approval approved active : ConfigStatus

-- `RuleAction` and `ACLAction` are Go strings too; the empty one is `other []`.
pub data RuleAction : Type 0 where
  direct parent : RuleAction
  other : Str → RuleAction

pub data AclAction : Type 0 where
  allow deny : AclAction
  other : Str → AclAction

pub data Error : Type 0 where
  not_found forbidden invalid_status conflict unauthorized bad_request : Error
  -- an error of the database or of another library, which has no domain error inside
  internal : Error

unfoldable pub UserRole_is_valid : UserRole → Bool
UserRole_is_valid (UserRole.other s) = false
UserRole_is_valid _ = true

-- `r == target` on roles that the code compares with its own constants.
abbrev pub is_admin : UserRole → Bool
is_admin UserRole.admin = true
is_admin _ = false

abbrev pub is_regular : UserRole → Bool
is_regular UserRole.regular = true
is_regular _ = false

abbrev pub is_root : UserRole → Bool
is_root UserRole.root = true
is_root _ = false

-- `CanCreate`: whether a caller with the first role may create a user with the second.
unfoldable pub can_create : UserRole → UserRole → Bool
can_create UserRole.root target = is_admin target || is_regular target
can_create UserRole.admin target = is_regular target
can_create _ target = false

-- `a == b` on statuses.
abbrev pub status_eq : ConfigStatus → ConfigStatus → Bool
status_eq draft draft = true
status_eq pending_approval pending_approval = true
status_eq approved approved = true
status_eq active active = true
status_eq _ _ = false

unfoldable pub RuleAction_is_valid : RuleAction → Bool
RuleAction_is_valid direct = true
RuleAction_is_valid parent = true
RuleAction_is_valid (RuleAction.other s) = false

unfoldable pub AclAction_is_valid : AclAction → Bool
AclAction_is_valid allow = true
AclAction_is_valid deny = true
AclAction_is_valid (AclAction.other s) = false
