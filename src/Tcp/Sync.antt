-- ===== src/Tcp/Sync.antt =====
-- What the server gets whatever the connection does, and when the worker is done.
pub mod Outgoing
mod Steps
mod Blank
pub mod History
pub mod Advance
pub mod Drain
pub mod Stopping
pub mod Bounds
