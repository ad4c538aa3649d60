-- ===== src/Migrate.antt =====
-- backend/internal/migrate/migrate.go. The schema that the migration files build is a parameter,
-- with what PostgreSQL makes of a file and of a question about a table or a column.
pub mod Conn
pub mod Files
pub mod Bootstrap
pub mod Run
pub mod Logic
pub mod Tracking
pub mod Again
pub mod Steps
