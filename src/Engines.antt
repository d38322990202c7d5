-- ===== src/Engines.antt =====
-- The engine modules of bench/engines.
pub mod CedarNative
pub mod Decisions
pub mod Heap
pub mod Zopa
pub mod ZopaCompiled
pub mod Cedar
pub mod OpaWasm
pub mod OpaHttp
pub mod OpaAgreement
