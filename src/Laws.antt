-- ===== src/Laws.antt =====
-- What single operations do, beyond the rules that all of them keep.
pub mod Roles
pub mod Atomicity
pub mod Registration
pub mod Domains
pub mod Validation
pub mod Audit
pub mod Files
pub mod Approval
pub mod Jobs
pub mod Progress
pub mod Deletion
pub mod Routing
pub mod Access
pub mod Refusal
pub mod Lookup
pub mod Serving
pub mod Users
pub mod Settling
pub mod UserRoutes
pub mod Sessions
pub mod Logout
pub mod Revocation
