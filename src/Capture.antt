-- ===== src/Capture.antt =====
-- src/capture.c: what happens to a captured frame before its packet is parsed.
mod Sizes
pub mod Validate
pub mod Tcp
mod Conn
mod Verdict
mod Held
pub mod Stream
pub mod Flow
mod Kept
pub mod Isolated
pub mod Ip
pub mod Ws
pub mod Frame
mod Sent
mod Udp
mod WsFrame
mod Tests
