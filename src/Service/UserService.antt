-- ===== src/Service/UserService.antt =====
-- backend/internal/service/user_service.go.
use ats_proxy_manager.Prelude.{
  ℕ, Bool, true, not, Option, none, some, ◌==◌, ◌&&◌, Str, codes, is_empty,
}
use ats_proxy_manager.Domain.Enums.{
  UserRole, UserRole_is_valid, can_create, is_root, bad_request, forbidden, internal,
}
use ats_proxy_manager.Domain.Models.{User}
use ats_proxy_manager.Auth.{Crypto}
use ats_proxy_manager.Store.{M, pure, guard, or_raise, ignore, ◌>>=◌, ◌>>◌}
use ats_proxy_manager.Repository.UserRepo
use ats_proxy_manager.Repository.AuditRepo
use ats_proxy_manager.Service.ConfigService.Edit.{Caller}

-- `logAudit`, whose error is dropped.
unfoldable pub log_audit : Caller → Str → ℕ → M (Unit {0})
log_audit by action id = ignore (
    AuditRepo.create (record {
      user_id = some by.user_id;
      action = action;
      entity_type = codes "user";
      entity_id = some id;
      old_value = none;
      new_value = none;
      ip_address = some by.ip;
      user_agent = some by.ua;
    }))

pub record CreateUserRequest : Type 0 where
  pub username : Str
  pub email : Str
  pub password : Str
  pub role : UserRole

-- The salt is what bcrypt draws.
unfoldable pub create : Crypto → CreateUserRequest → ℕ → UserRole → Caller → M User
create crypto req salt caller_role by = do
  guard (UserRole_is_valid req.role) bad_request
  guard (can_create caller_role req.role) forbidden
  guard (not (is_empty req.username) && not (is_empty req.email) && not (is_empty req.password))
      bad_request
  hash ← or_raise (crypto.hash_password salt req.password) internal
  user ←
      UserRepo.create (record {
        username = req.username;
        email = req.email;
        password_hash = hash;
        role = req.role;
      })
  log_audit by (codes "user.create") user.id
  pure user

-- A missing field is left as it is.
pub record UpdateUserRequest : Type 0 where
  pub username : Option Str
  pub email : Option Str
  pub role : Option UserRole

abbrev pub may_set : UserRole → Option UserRole → Bool
may_set caller_role none = true
may_set caller_role (some role) = can_create caller_role role

abbrev pub or_old : {A : Type 0} → Option A → A → A
or_old none old = old
or_old (some new) old = new

abbrev pub with_fields : UpdateUserRequest → User → User
with_fields req u = record u {
  username = or_old req.username u.username;
  email = or_old req.email u.email;
  role = or_old req.role u.role;
}

unfoldable pub update : ℕ → UpdateUserRequest → UserRole → Caller → M User
update id req caller_role by = do
  user ← UserRepo.get_by_id id
  guard (may_set caller_role req.role) forbidden
  UserRepo.update (with_fields req user)
  log_audit by (codes "user.update") id
  pure (with_fields req user)

unfoldable pub delete : ℕ → UserRole → Caller → M (Unit {0})
delete id caller_role by = do
  guard (is_root caller_role) forbidden
  guard (not (id == by.user_id)) bad_request
  UserRepo.delete id
  log_audit by (codes "user.delete") id
