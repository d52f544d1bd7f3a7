-- ===== src/Subscription.antt =====
-- The subscription service (services/subscription-service): payments, subscriptions and their periods.
pub mod Domain
pub mod Service
pub mod Paid
pub mod Calls
pub mod Reachable
pub mod Twice
mod Tests
