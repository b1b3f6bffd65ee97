-- ===== src/Protocol.antt =====
-- src/windows_adapter/AfsimNs3Protocol.hpp and .cpp: the state that is sent and its text. A writer
-- returns what it appends to the stream.
mod State
mod Write
pub mod Samples
pub mod Framing
pub mod RoundTrip
mod Examples
pub use State.*
unfoldable pub use Write.*
