-- ===== src/RxPath.antt =====
-- Rx coalescing tests (net-drv-ts/rx_path/rx_coalesce_usecs.c, rx_coalesce_frames.c).
pub mod PacketId
pub mod Capture
pub mod Doubles
pub mod Usecs
pub mod Rig
pub mod Frames
mod Tests
