-- ===== src/Json/Text.antt =====
-- `std::string::find`, `std::isspace`, `std::isdigit` and indexing.
use afsim_ns.Base.{
  ℕ, suc, Bool, true, false, ◌&&◌, ◌||◌, Option, none, some, [], ◌∷◌, Bytes, leb, ◌==◌,
  if◌then◌else◌, drop, get_elem?,
}

unfoldable pub starts_with : Bytes → Bytes → Bool
starts_with [] s = true
starts_with (x ∷ xs) [] = false
starts_with (x ∷ xs) (y ∷ ys) = x == y && starts_with xs ys

-- The first place of `needle` in `s`, where `s` stands at `position`.
unfoldable pub find_at : Bytes → Bytes → ℕ → Option ℕ
find_at needle [] position = if starts_with needle [] then some position else none
find_at needle (c ∷ s) position =
    let later = find_at needle s (suc position) in
    if starts_with needle (c ∷ s) then some position else later

-- `json.find(needle, begin)`, for a needle that is not empty
unfoldable pub find : Bytes → Bytes → ℕ → Option ℕ
unfolding find_at starts_with
find needle json begin = find_at needle (drop begin json) begin

-- `std::isspace` in the "C" locale: space, and 9 to 13
unfoldable pub is_space : ℕ → Bool
is_space c = c == b' ' || (leb 9 c && leb c 13)

unfoldable pub is_digit : ℕ → Bool
is_digit c = leb b'0' c && leb c b'9'

-- `while (position < json.size() && isspace(json[position])) ++position;` over the rest of the text
unfoldable pub skip_space : Bytes → ℕ → ℕ
skip_space [] position = position
skip_space (c ∷ s) position =
    let later = skip_space s (suc position) in if is_space c then later else position

-- `position < json.size() && json[position] == c`
unfoldable pub byte_at : Bytes → ℕ → ℕ → Bool
byte_at json position c = elim (get_elem? json position) [ none ↦ false | some x ↦ x == c ]
