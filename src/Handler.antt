-- ===== src/Handler.antt =====
-- The HTTP layer: backend/internal/handler.
pub mod Response
pub mod Answer
pub mod Middleware
pub mod UserHandler
pub mod AuthHandler
pub mod ConfigHandler
pub mod ProxyHandler
pub mod SyncHandler
