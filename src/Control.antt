-- ===== src/Control.antt =====
-- app/controlMessage: the messages that the browser sends to the scrcpy server on the device.
pub mod Types
pub mod Input
pub mod Uhid
pub mod Command
pub mod PushFile
mod Tests
