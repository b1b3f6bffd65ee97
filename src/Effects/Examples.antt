-- ===== src/Effects/Examples.antt =====
-- Runs of the effect gate on metrics lines.
use afsim_ns.Base.{◌≡◌, refl, Bytes, codes, ok, err}
use afsim_ns.Json.{json_uint64, integer_range}
use afsim_ns.Effects.Gate.{
  available, blocked, new_gate, update_from_metrics_json, get_state, read_metrics,
}
use afsim_ns.Effects.Update.{Behaves, update_lem}

abbrev line : Bytes
line =
    codes
      "{\"message_type\": \"ns3_metrics\", \"revision\":7,\"effects\":[{\"entity_id\":\"1\",\"subsystem_id\":\"radar\",\"subsystem_type\":\"RADAR\",\"peer_entity_id\":\"2\",\"state\":\"AVAILABLE\"} , {\"entity_id\":\"3\",\"subsystem_id\":\"gun\",\"subsystem_type\":\"WEAPON\",\"peer_entity_id\":\"2\",\"state\":\"DEGRADED\"}]}"

revision-line : json_uint64 line (codes "revision") ≡ ok 7
unfolding json_uint64
revision-line = refl

radar-line :
    get_state (update_from_metrics_json line new_gate).0 (codes "1") (codes "radar") ≡ available
unfolding update_from_metrics_json get_state
radar-line = refl

unknown-line :
    get_state (update_from_metrics_json line new_gate).0 (codes "9") (codes "radar") ≡ blocked
unfolding update_from_metrics_json get_state
unknown-line = refl

too_large :
    json_uint64 (codes "{\"revision\":18446744073709551616}") (codes "revision") ≡ err integer_range
unfolding json_uint64
too_large = refl

update_lem_example : Behaves new_gate (read_metrics line) (update_from_metrics_json line new_gate)
update_lem_example = update_lem line new_gate
