-- ===== src/Scheduler.antt =====
-- backend/internal/scheduler/jobs.go: the four jobs. A tick runs one statement, and an error is
-- only logged.
use ats_proxy_manager.Store.{M, ignore}
use ats_proxy_manager.Repository.ProxyRepo
use ats_proxy_manager.Repository.ProxyLogsRepo
use ats_proxy_manager.Repository.ProxyStatsRepo

pub data Job : Type 0 where
  proxy_status_check proxy_cleanup log_cleanup stats_cleanup : Job

unfoldable pub tick : Job → M (Unit {0})
tick proxy_status_check = ignore ProxyRepo.mark_offline_stale
tick proxy_cleanup = ignore ProxyRepo.delete_offline_stale
tick log_cleanup = ignore ProxyLogsRepo.cleanup_expired
tick stats_cleanup = ignore ProxyStatsRepo.cleanup_old
