-- ===== src/Laws/Audit.antt =====
-- A write to the audit log, whose error the services drop.
use ats_proxy_manager.Prelude.{ℕ, List}
use ats_proxy_manager.Domain.Models.{AuditLog}
use ats_proxy_manager.Store.{Db, ignore}
use ats_proxy_manager.Store.Sat.{Sat, Keeps, Sat-ignore}
use ats_proxy_manager.Repository.Sat.{Sat-checked}
use ats_proxy_manager.Repository.AuditRepo

module _ {P : Db → Type 0} (e : AuditRepo.Entry)
    (stable : (db : Db) (logs : List AuditLog) (n : ℕ)
      → P db
      → P (record db { audit_logs = logs; serial = n })) where
  -- Whatever speaks of other tables stays true, and the write never fails.
  pub audit-Sat : {I : Db → Type 0} → Sat P (ignore (AuditRepo.create e)) I (λ _. P)
  unfolding AuditRepo.create
  audit-Sat = Sat-ignore _ (Sat-checked _ _ _ (λ db p. p) (λ now db p _. stable db _ _ p))

  pub audit-Keeps : Keeps P (ignore (AuditRepo.create e))
  audit-Keeps = audit-Sat
