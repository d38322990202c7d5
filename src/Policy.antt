-- ===== src/Policy.antt =====
-- src/policy.zig: the compiled policies that a host holds by handles.
pub mod Table
pub mod Registry
