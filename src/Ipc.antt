-- ===== src/Ipc.antt =====
-- src/ipc: what processes share.
pub mod OffsetPtr
