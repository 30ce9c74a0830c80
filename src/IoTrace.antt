-- ===== src/IoTrace.antt =====
-- source/kernel/io_trace.c.
pub mod Desc
pub mod DescFrame
pub mod DescLog
pub mod Buffers
pub mod BufferLaws
pub mod InitBuffers
pub mod Examples
