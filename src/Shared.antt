-- ===== src/Shared.antt =====
-- The domain core that every service carries as its own copy (`services/*/domain/shared/`,
-- `core/domain/`): the exceptions, decimals, currency codes and `Money`.
pub mod Errors
pub mod Python
pub mod Decimal
pub mod Currency
pub mod Money
mod Tests
