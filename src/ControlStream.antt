-- ===== src/ControlStream.antt =====
-- The control channel's line framing: CoreEngine/ControlStreamBuffer.h, and the loop of
-- CoreEngine/PipeClient.cpp that reads one message through it. Bytes are numbers.
pub mod Buffer
pub mod Lines
pub mod Extract
pub mod Room
pub mod Messages
pub mod Stream
pub mod Examples
