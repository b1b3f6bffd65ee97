-- ===== src/Extension/Collect.antt =====
-- `CollectState`.
mod Links
mod Entities
mod State
unfoldable pub use Links.*
unfoldable pub use Entities.*
unfoldable pub use State.*
