-- ===== src/Stream.antt =====
-- The media path: server/FrameReader.ts cuts the device's byte stream into frames,
-- server/ScrcpyConnection.ts forwards each on a WebSocket, and app/ScrcpyDemuxer.ts takes the
-- messages apart in the browser; control messages go the other way.
pub mod FrameReader
pub mod Forward
pub mod Demuxer
pub mod Pipeline
pub mod ControlChannel
mod Tests
