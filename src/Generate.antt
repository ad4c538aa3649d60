-- ===== src/Generate.antt =====
-- The texts that the backend generates for a config: `GenerateConfigFiles` and the functions below
-- it in backend/internal/service/config_service.go.
pub mod Files
