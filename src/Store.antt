-- ===== src/Store.antt =====
-- internal/store/store.go: the durable store. See the header of Lib.antt for the map of its parts.
pub mod Error
pub mod Types
pub mod Db
pub mod Keys
pub mod Accounting
pub mod Dedupe
pub mod Admission
pub mod Delivery
pub mod Queue
pub mod Failure
pub mod Rate
pub mod Audit
pub mod Subscription
pub mod Workflow
pub mod Onboarding
pub mod Opening
pub mod Ledger
pub mod Call
pub mod Invariant
