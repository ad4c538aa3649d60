-- ===== src/Tests.antt =====
-- Concrete inputs, and the theorems applied to them.
mod Samples
mod Tokens
mod Story
mod Helper
mod Pages
mod Workflows
mod Proxies
mod Migrations
mod Access
mod Turns
mod Settling
mod Routes
