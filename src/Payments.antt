-- ===== src/Payments.antt =====
-- The payment state machines of the node (lexe-ln/src/payments).
pub mod Library
pub mod Inbound
pub mod Outbound
pub mod Onchain
pub mod Payment
pub mod Manager
pub mod Soundness
pub mod Transitions
pub mod Confirmations
pub mod AppView
mod Tests
