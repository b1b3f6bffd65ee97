-- ===== src/Json/Error.antt =====
-- The exceptions of the scanner, each with the text that the message carries.
use afsim_ns.Base.{Bytes, Result}

pub data JsonError : Type 0 where
  missing_field invalid_field not_a_string not_an_integer : Bytes → JsonError
  not_a_number not_a_boolean not_an_array not_objects : Bytes → JsonError
  integer_range unsupported_escape unterminated_string unterminated_container : JsonError
  unknown_state : JsonError
  -- `std::stod` throws by itself
  conversion : JsonError
  -- no exception: the model of a loop has run out of fuel
  out_of_fuel : JsonError

abbrev pub Json : Type 0 → Type 0
Json A = Result JsonError A
