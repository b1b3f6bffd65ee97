-- ===== src/Runner/Path.antt =====
-- `HasActivePath`: a depth-first search over the links that are up between living nodes.
mod Search
pub mod Scan
pub mod Edges
pub mod Correct
unfoldable pub use Search.*
