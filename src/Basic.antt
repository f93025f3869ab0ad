-- ===== src/Basic.antt =====
-- Tests of the basic operation (net-drv-ts/basic).
pub mod MtuTcp
