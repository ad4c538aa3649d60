-- ===== src/Repository.antt =====
-- backend/internal/repository: each method is one SQL statement, an action of `M`. The tests and
-- updates are the statements' `WHERE` and `SET` clauses, and the constraints are those of
-- backend/migrations: a statement that breaks one is refused whole.
pub mod Keys
pub mod Order
pub mod ConfigRepo
pub mod DomainRuleRepo
pub mod IpRangeRuleRepo
pub mod ParentProxyRepo
pub mod ClientAclRepo
pub mod ProxyRepo
pub mod ConfigProxyRepo
pub mod AuditRepo
pub mod ProxyStatsRepo
pub mod ProxyLogsRepo
pub mod UserRepo
pub mod SessionRepo
pub mod Sat
