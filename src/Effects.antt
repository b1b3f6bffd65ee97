-- ===== src/Effects.antt =====
-- src/windows_adapter/NetworkEffectGate.hpp and .cpp: the latest state of each subsystem. A
-- method returns the gate after it beside its result, also where it throws.
mod Gate
pub mod Update
mod Examples
unfoldable pub use Gate.*
