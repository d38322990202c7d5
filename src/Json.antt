-- ===== src/Json.antt =====
-- src/json.zig: the JSON parser that zopa reads its policies and its inputs with.
pub mod Members
pub mod Values
pub mod Scan
pub mod Strings
pub mod Parser
