-- ===== src/Handler/Middleware.antt =====
-- backend/internal/handler/middleware.go: who a request is from. CORSMiddleware and
-- RequestIDMiddleware only set headers of the answer.
pub mod Bearer
use ats_proxy_manager.Prelude.{
  ℕ, Bool, true, false, Option, none, some, List, [], ◌∷◌, ◌==◌, ◌||◌, if◌then◌else◌, Str, codes,
  str_eq,
}
use ats_proxy_manager.Domain.Enums.{UserRole}
use ats_proxy_manager.Auth.{Crypto, Claims, parse_token}

-- The values that later handlers read from the request's context.
pub record Context : Type 0 where
  pub user_id : ℕ
  pub username : Str
  pub email : Str
  pub role : UserRole
  pub token_raw : Str

-- An answer instead of the handler's: its status and `error` field.
pub data Passage : Type 0 where
  refused : ℕ → Str → Passage
  passed : Context → Passage

-- What follows a prefix.
unfoldable pub after_prefix : Str → Str → Option Str
after_prefix [] s = some s
after_prefix (c ∷ p) [] = none
after_prefix (c ∷ p) (d ∷ s) = let rest = after_prefix p s in if c == d then rest else none

abbrev pub bearer : Str
bearer = codes "Bearer "

abbrev pub with_claims : Str → Option Claims → Passage
with_claims token none = refused 401 (codes "token_expired")
with_claims token (some c) = passed (record {
  user_id = c.identity.user_id;
  username = c.identity.username;
  email = c.identity.email;
  role = c.identity.role;
  token_raw = token;
})

-- The header is empty where it is missing.
unfoldable pub auth_middleware : Crypto → Str → ℕ → Str → Passage
unfolding after_prefix
auth_middleware crypto secret now [] = refused 401 (codes "unauthorized")
auth_middleware crypto secret now (c ∷ header) = elim (after_prefix bearer (c ∷ header)) [
  | none ↦ refused 401 (codes "unauthorized")
  | some token ↦ with_claims token (parse_token crypto secret now token)
]

-- `role == allowed` on the texts.
abbrev pub role_eq : UserRole → UserRole → Bool
role_eq UserRole.root UserRole.root = true
role_eq UserRole.admin UserRole.admin = true
role_eq UserRole.regular UserRole.regular = true
role_eq (UserRole.other s) (UserRole.other t) = str_eq s t
role_eq _ _ = false

unfoldable pub has_role : List UserRole → UserRole → Bool
has_role [] role = false
has_role (allowed ∷ roles) role = role_eq role allowed || has_role roles role

abbrev pub with_role : Bool → Context → Passage
with_role true ctx = passed ctx
with_role false ctx = refused 403 (codes "forbidden")

unfoldable pub require_role : List UserRole → Context → Passage
unfolding has_role
require_role roles ctx = with_role (has_role roles ctx.role) ctx
