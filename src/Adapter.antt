-- ===== src/Adapter.antt =====
-- The identity of a network adapter, of daemon/include/ec_systemcore/adapter_identity.hpp.
pub mod Text
pub mod Identity
pub mod Resolution
