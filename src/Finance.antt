-- ===== src/Finance.antt =====
-- The finance service (services/finance-service): accounts, transactions, balances and the outbox.
pub mod ValueObjects
pub mod Logic
pub mod Builders
pub mod Events
pub mod Store
pub mod Session
pub mod Translate
pub mod Accounts
pub mod Transactions
pub mod Invariant
pub mod Commands
pub mod Relay
pub mod Backfill
pub mod Audit
mod Tests
