-- ===== src/Protocol.antt =====
-- daemon/include/ec_systemcore/protocol.hpp.
pub mod Bytes
pub mod Enums
pub mod Limits
pub mod Frame
pub mod Payload
