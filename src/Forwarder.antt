-- ===== src/Forwarder.antt =====
-- The delivery worker, internal/forwarder: how queued items become Lark messages and cards.
pub mod Machine
pub mod Backoff
pub mod Text
pub mod Split
pub mod Targets
pub mod Batch
pub mod Cards
pub mod Workflows
pub mod Pipelines
pub mod Forms
pub mod Rounds
pub mod Effects
