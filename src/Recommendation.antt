-- ===== src/Recommendation.antt =====
-- The recommendation service (services/recommendation-service): risk profiles, investment plans and
-- the resolution of exchange rates.
pub mod Risk
pub mod Plans
