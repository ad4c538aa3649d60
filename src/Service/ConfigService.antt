-- ===== src/Service/ConfigService.antt =====
-- `ConfigService` of backend/internal/service/config_service.go: the requests that change a
-- config, in the parts Rules, Files, Edit and Workflow.
pub mod Rules
pub mod Files
pub mod Edit
pub mod Workflow
