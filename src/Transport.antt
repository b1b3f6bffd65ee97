-- ===== src/Transport.antt =====
-- src/windows_adapter/MessageTransportGate.hpp and .cpp: the network profile of each pair of
-- entities, and the decision for each message.
mod Hash
mod Gate
pub mod Draw
pub mod Profiles
pub mod Decide
mod Examples
unfoldable pub use Hash.*
unfoldable pub use Gate.*
