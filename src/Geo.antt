-- ===== src/Geo.antt =====
-- src/windows_adapter/GeoCoordinates.hpp and .cpp: geodetic coordinates in a local frame.
mod Frame
pub mod Origin
mod Examples
unfoldable pub use Frame.*
