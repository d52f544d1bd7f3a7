-- ===== src/Categorization.antt =====
-- The categorization service (services/categorization-service): the categorizers, and the service and
-- the factory that choose between them.
pub mod Catalog
pub mod Normalize
pub mod Search
pub mod Categorizers
