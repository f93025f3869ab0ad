-- ===== src/Prologue.antt =====
-- The prologue of the suite (net-drv-ts/prologue.c): the kernel modules, the network settings and the
-- tags that describe the configuration.
pub mod Pci
pub mod Tags
pub mod Setup
mod Tests
