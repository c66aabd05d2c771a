-- ===== src/Tests.antt =====
-- Concrete runs of the model, and the theorems applied to them.
pub mod Data
pub mod Runs
pub mod Cards
pub mod Buckets
pub mod Requests
pub mod Audit
pub mod Payloads
pub mod Restarts
pub mod Deliveries
pub mod Gitlab
