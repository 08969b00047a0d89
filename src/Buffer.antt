-- ===== src/Buffer.antt =====
-- core/BufferQueue.h and core/BufferQueue.cpp: the byte buffer `Segment` and the list of segments.
pub mod Segment
pub mod Queue
