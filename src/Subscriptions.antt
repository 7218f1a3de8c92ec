-- ===== src/Subscriptions.antt =====
-- The subscription engine, apps/api/src/subscriptions.
pub mod StateMachine
pub mod Proration
pub mod Model
pub mod Store
pub mod Transition
pub mod Lifecycle
pub mod Renewal
pub mod Commands
pub mod Changes
pub mod Cancellation
pub mod Creation
pub mod Redemption
mod Tests
