-- ===== src/Extension.antt =====
-- src/afsim_extension/source/AfsimNs3Extension.cpp: the plugin in the AFSIM simulation. A handler
-- takes what AFSIM says at that moment and returns the plugin's state after it. What the plugin
-- appends to its log file is left out.
mod Config
mod Afsim
mod State
mod Observe
mod Messages
mod Devices
mod Peers
mod Collect
mod Tick
pub mod Limits
pub mod Sound
pub mod Events
pub mod Valid
pub mod Active
pub mod Gating
pub mod Counting
pub mod Receiving
pub mod Ticking
pub mod Turns
pub mod Returns
pub mod Distinct
pub mod Steady
mod Examples
unfoldable pub use Config.*
unfoldable pub use Afsim.*
unfoldable pub use State.*
unfoldable pub use Observe.*
unfoldable pub use Messages.*
unfoldable pub use Devices.*
unfoldable pub use Peers.*
unfoldable pub use Collect.*
unfoldable pub use Tick.*
