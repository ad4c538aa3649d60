-- ===== src/Domain.antt =====
-- backend/internal/domain: the enumerations, the errors and the models.
pub mod Enums
pub mod Models
