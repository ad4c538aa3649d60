-- ===== src/Service.antt =====
-- backend/internal/service.
pub mod Collect
pub mod ConfigInput
pub mod ConfigService
pub mod ProxyService
pub mod SyncService
pub mod UserService
pub mod AuthService
