-- ===== src/Analytics.antt =====
-- The analytics service (services/analytics-service): the read model that follows the events of the
-- finance service.
pub mod Projector
pub mod Period
pub mod Facts
pub mod Report
pub mod Reports
pub mod Convergence
pub mod Replay
pub mod Consumer
mod Tests
