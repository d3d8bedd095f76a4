-- ===== src/Policy.antt =====
-- internal/policy: the policies, their decoding and compilation, their watch, and the choice of the
-- policy for a workload.
pub mod Types
pub mod Raw
pub mod Fields
pub mod Compile
pub mod Nulls
pub mod Decode
pub mod Manager
pub mod Watch
pub mod Match
