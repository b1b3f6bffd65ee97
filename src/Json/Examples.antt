-- ===== src/Json/Examples.antt =====
-- Fields read from lines.
use afsim_ns.Base.{◌≡◌, ◌≢◌, refl, [], ◌∷◌, Bytes, codes, ok, err, arith, leb, if◌then◌else◌}
use afsim_ns.Json.Error.{integer_range, out_of_fuel, not_objects}
use afsim_ns.Json.Field.{read_uint64, u64_max}
use afsim_ns.Json.Array.{json_object_array}
use afsim_ns.Json.Number.{read_uint64_lem}
use afsim_ns.Json.Objects.{json_object_array-ends}

abbrev line : Bytes
line = codes "{\"links\": [ {\"a\":\"]\"} , {\"b\":{}} ]}"

objects :
    json_object_array line (codes "links") ≡ ok (codes "{\"a\":\"]\"}" ∷ codes "{\"b\":{}}" ∷ [])
unfolding json_object_array
objects = refl

no_objects :
    json_object_array (codes "{\"links\":[1]}") (codes "links") ≡ err (not_objects (codes "links"))
unfolding json_object_array
no_objects = refl

json_object_array-ends_example : json_object_array line (codes "links") ≢ err out_of_fuel
json_object_array-ends_example = json_object_array-ends line (codes "links")

read_uint64_lem_example :
    read_uint64 (codes "18446744073709551616,") 0
    ≡ (if leb 18446744073709551616 u64_max then ok 18446744073709551616 else err integer_range)
read_uint64_lem_example = read_uint64_lem (codes "18446744073709551616,") 0 (omega arith)
