-- ===== src/Agent.antt =====
-- The test agent's library (talib_net_drv_ts/rpc.c).
pub mod Payload
pub mod Receive
pub mod Send
pub mod Rules
mod Tests
