-- ===== src/Laws/Roles.antt =====
-- `CanCreate` of backend/internal/domain/enums.go.
use ats_proxy_manager.Prelude.{ℕ, ltb, leb, ◌&&◌, ◌≡◌, arith}
use ats_proxy_manager.Domain.Enums.{UserRole, can_create}

-- How much a role may do; a text that is no role may do nothing.
abbrev pub rank : UserRole → ℕ
rank UserRole.root = 3
rank UserRole.admin = 2
rank UserRole.regular = 1
rank (UserRole.other s) = 0

-- A caller may create exactly the users whose role is one of the three and lies below its own.
pub can_create-rank :
    (caller target : UserRole)
    → can_create caller target ≡ (leb 1 (rank target) && ltb (rank target) (rank caller))
unfolding can_create
can_create-rank caller target = ground arith
