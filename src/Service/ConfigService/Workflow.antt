-- ===== src/Service/ConfigService/Workflow.antt =====
-- `Submit`, `Approve` and `Reject` of backend/internal/service/config_service.go. None of them
-- runs in a transaction: each statement stands for itself.
use ats_proxy_manager.Prelude.{ℕ, some, Str, codes}
use ats_proxy_manager.Domain.Enums.{
  draft, pending_approval, active, status_eq, invalid_status, forbidden,
}
use ats_proxy_manager.Domain.Models.{Config}
use ats_proxy_manager.Runtime.{Runtime}
use ats_proxy_manager.Store.{M, guard, ignore, ◌>>=◌, ◌>>◌}
use ats_proxy_manager.Repository.Keys.{is_value}
use ats_proxy_manager.Repository.ConfigRepo
use ats_proxy_manager.Repository.AuditRepo
use ats_proxy_manager.Service.ConfigService.Files.{generate_config_hash}
use ats_proxy_manager.Service.ConfigService.Edit.{Caller, audit_entry, json_val, status_text}

-- An entry about a change of status.
unfoldable pub status_entry : Caller → Str → ℕ → Str → Str → AuditRepo.Entry
unfolding audit_entry json_val
status_entry by action id old new =
    audit_entry by action id (some (json_val (codes "status") old))
      (some (json_val (codes "status") new))

unfoldable pub submit : ℕ → Caller → M Config
submit id by = do
  ConfigRepo.submit id by.user_id
  ignore (
      AuditRepo.create (
        status_entry by (codes "config.submit") id (status_text draft)
          (status_text pending_approval)))
  ConfigRepo.get_by_id id

-- The reason in the request is not used.
unfoldable pub reject : ℕ → Caller → M Config
reject id by = do
  ConfigRepo.reject id
  ignore (
      AuditRepo.create (
        status_entry by (codes "config.reject") id (status_text pending_approval)
          (status_text draft)))
  ConfigRepo.get_by_id id

unfoldable pub approve : Runtime → ℕ → Caller → M Config
approve rt id by = do
  cfg ← ConfigRepo.get_by_id id
  guard (status_eq cfg.status pending_approval) invalid_status
  guard (is_value by.user_id cfg.submitted_by) forbidden
  hash ← generate_config_hash rt id
  ConfigRepo.deactivate_others id
  ConfigRepo.approve id by.user_id hash
  ignore (
      AuditRepo.create (
        status_entry by (codes "config.approve") id (status_text pending_approval)
          (status_text active)))
  ConfigRepo.get_by_id id
