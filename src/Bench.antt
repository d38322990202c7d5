-- ===== src/Bench.antt =====
-- bench/run.mjs: the cross-engine benchmark.
pub mod Args
pub mod Stats
pub mod Engine
pub mod Measure
pub mod Driver
pub mod Select
pub mod Written
pub mod Printed
