-- ===== src/Repository/ProxyLogsRepo.antt =====
-- `Create` and `CleanupExpired` of backend/internal/repository/proxy_logs_repo.go.
use ats_proxy_manager.Prelude.{ℕ, ◌+◌, some, [], ◌∷◌, ◌++◌, ltb, Str}
use ats_proxy_manager.Prelude.Table.{delete_where}
use ats_proxy_manager.Domain.Models.{ProxyLog}
use ats_proxy_manager.Store.{M, statement}
use ats_proxy_manager.Repository.Keys.{has_proxy, checked}
use ats_proxy_manager.Repository.ProxyRepo.{hour}

-- `expires_at` is an hour from now, by the column's default.
unfoldable pub create : ℕ → Str → Str → M (Unit {0})
create proxy_id level message = statement λ now db.
    let row : ProxyLog = record {
      id = db.serial;
      proxy_id = proxy_id;
      captured_at = now;
      log_level = some level;
      message = some message;
      expires_at = now + hour;
    } in
    checked (has_proxy proxy_id db)
      (tt, record db { proxy_logs = db.proxy_logs ++ row ∷ []; serial = db.serial + 1 })

unfoldable pub cleanup_expired : M (Unit {0})
cleanup_expired = statement λ now db.
    some (tt, record db { proxy_logs = delete_where (λ l. ltb l.expires_at now) db.proxy_logs })
