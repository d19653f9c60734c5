-- ===== src/Capture/Ip.antt =====
-- src/capture.c, `capture_packet_reasm_ip`, built without USE_IPV6: the IP header behind the link
-- header, and the datagrams that are put together from their fragments.
mod Header
mod Reasm
pub mod Loops
mod Copy
mod Tests
pub mod Offset
pub mod Assembly
unfoldable pub use Header.*
unfoldable pub use Reasm.*
