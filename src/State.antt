-- ===== src/State.antt =====
-- internal/state: the durable state document, its validation, its encoding, its clean-up, its
-- capacity, and the store that keeps it.
pub mod Types
pub mod Document
pub mod Cleanup
pub mod Capacity
pub mod Codec
pub mod Store
