-- ===== src/Multiplexer.antt =====
-- packages/multiplexer: many channels over one WebSocket.
pub mod Message
pub mod Channels
pub mod Events
pub mod Delivery
pub mod Closing
mod Tests
