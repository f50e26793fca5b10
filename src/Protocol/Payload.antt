-- ===== src/Protocol/Payload.antt =====
-- The payload codecs of daemon/include/ec_systemcore/protocol.hpp. A decoder returns `none` where
-- the source returns false; what it may have stored into its out parameter by then is not modelled,
-- and neither is the null check of that parameter.
pub mod Hello
pub mod Control
pub mod OutputWrite
pub mod Status
pub mod Ack
pub mod PdoInput
