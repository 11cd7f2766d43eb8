-- ===== src/Ring.antt =====
-- utils/ring.go: the two ring buffers behind the `Ring` interface.
pub mod Value
pub mod Bytes
