-- ===== src/Delta.antt =====
-- src/windows_adapter/StateDeltaTracker.hpp and .cpp: the state that was sent last, and what has
-- changed since. A method returns the tracker after it beside its result, also where it throws.
mod Same
mod Tracker
pub mod Index
pub mod Apply
pub mod Unchanged
pub mod Update
pub mod Branches
mod Examples
unfoldable pub use Same.*
unfoldable pub use Tracker.*
