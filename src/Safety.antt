-- ===== src/Safety.antt =====
-- The safety rules of daemon/include/ec_systemcore/safety.hpp.
pub mod Gate
pub mod Limits
pub mod Pdo
