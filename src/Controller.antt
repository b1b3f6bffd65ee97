-- ===== src/Controller.antt =====
-- src/windows_adapter/AfsimBridgeController.hpp and .cpp: the queue, the tracker and the two gates
-- behind one object. A method returns the controller after it beside its result.
mod Submit
mod Receive
mod Life
pub mod Current
pub mod Pending
pub mod Throws
pub mod Wire
mod Examples
unfoldable pub use Submit.*
unfoldable pub use Receive.*
unfoldable pub use Life.*
