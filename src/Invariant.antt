-- ===== src/Invariant.antt =====
-- What holds of the tables between two requests.
pub mod Lifecycle
pub mod Assignments
pub mod Statements
pub mod ConfigStatements
pub mod Edit
pub mod Workflow
pub mod Proxies
pub mod Access
pub mod Routes
