-- ===== src/Tcp.antt =====
-- src/windows_adapter/TcpJsonlClient.hpp and .cpp: the queue of lines, the worker thread and its
-- socket. What the sockets do is what the steps of the worker are given.
mod Queue
pub mod Connect
mod Send
mod Lines
mod Worker
pub mod Sync
pub mod Stream
pub mod Delivery
mod Examples
unfoldable pub use Queue.*
unfoldable pub use Connect.*
unfoldable pub use Send.*
unfoldable pub use Lines.*
unfoldable pub use Worker.*
