-- ===== src/Repository/ProxyStatsRepo.antt =====
-- `Create` and `CleanupOld` of backend/internal/repository/proxy_stats_repo.go.
use ats_proxy_manager.Prelude.{◌+◌, ◌*◌, some, [], ◌∷◌, ◌++◌, ltb}
use ats_proxy_manager.Prelude.Table.{delete_where}
use ats_proxy_manager.Domain.Models.{ProxyStat}
use ats_proxy_manager.Store.{M, statement}
use ats_proxy_manager.Repository.Keys.{has_proxy, checked}
use ats_proxy_manager.Repository.ProxyRepo.{hour}

-- The database fills in `id` and `collected_at`.
unfoldable pub create : ProxyStat → M (Unit {0})
create s = statement λ now db.
    let row : ProxyStat = record s { id = db.serial; collected_at = now } in
    checked (has_proxy s.proxy_id db)
      (tt, record db { proxy_stats = db.proxy_stats ++ row ∷ []; serial = db.serial + 1 })

unfoldable pub cleanup_old : M (Unit {0})
cleanup_old = statement λ now db. some (
  tt,
  record db {
    proxy_stats = delete_where (λ s. ltb (s.collected_at + 7 * (24 * hour)) now) db.proxy_stats;
  },
)
