-- ===== src/Json.antt =====
-- The field scanner that src/windows_adapter/NetworkEffectGate.cpp and MessageTransportGate.cpp
-- both hold. A `std::size_t` position is a number; `npos` is `none`; a throw is `err`.
mod Error
mod Text
mod Field
mod Array
mod Examples
pub mod Objects
pub mod Number
pub use Error.*
unfoldable pub use Text.{find, starts_with, skip_space, is_space, is_digit, byte_at}
unfoldable pub use Field.{
  value_start, unescape, read_string, json_string, u64_max, read_uint64, json_uint64, json_bool,
}
unfoldable pub use Field.{json_double}
unfoldable pub use Array.{matching_end, scan_end, json_object_array}
