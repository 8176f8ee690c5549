-- ===== src/Transaction.antt =====
-- src/execution_transaction.rs and src/execution_transaction/: the coordinator of one distributed
-- execution, over the mirror of its accepted plan and an abstract device backend.
pub mod Mirror
pub mod Operation
pub mod State
pub mod Backend
pub mod Plan
pub mod Check
pub mod Boundary
pub mod Coordinator
pub mod Prepare
pub mod Execute
pub mod Finish
pub mod Reservation
pub mod Lifecycle
