-- ===== src/Repository/AuditRepo.antt =====
-- `Create` of backend/internal/repository/audit_repo.go.
use ats_proxy_manager.Prelude.{ℕ, ◌+◌, Option, [], ◌∷◌, ◌++◌, Str}
use ats_proxy_manager.Domain.Models.{AuditLog}
use ats_proxy_manager.Store.{M, statement}
use ats_proxy_manager.Repository.Keys.{has_user?, checked}

-- What the caller fills in.
pub record Entry : Type 0 where
  pub user_id : Option ℕ
  pub action : Str
  pub entity_type : Str
  pub entity_id : Option ℕ
  pub old_value : Option Str
  pub new_value : Option Str
  pub ip_address : Option Str
  pub user_agent : Option Str

unfoldable pub create : Entry → M (Unit {0})
create e = statement λ now db.
    let row : AuditLog = record {
      id = db.serial;
      user_id = e.user_id;
      action = e.action;
      entity_type = e.entity_type;
      entity_id = e.entity_id;
      old_value = e.old_value;
      new_value = e.new_value;
      ip_address = e.ip_address;
      user_agent = e.user_agent;
      created_at = now;
    } in
    checked (has_user? e.user_id db)
      (tt, record db { audit_logs = db.audit_logs ++ row ∷ []; serial = db.serial + 1 })
