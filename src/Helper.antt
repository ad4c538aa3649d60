-- ===== src/Helper.antt =====
-- The helper beside each proxy: helper/.
pub mod Backoff
pub mod Host
pub mod Client
pub mod Manager
pub mod Loop
pub mod Logic
pub mod Requests
