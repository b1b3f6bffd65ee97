-- ===== src/Transport/Examples.antt =====
-- Runs of the message gate on metrics lines.
use afsim_ns.Base.{◌*◌, ◌^◌, ◌≤◌, ◌≡◌, ◌≢◌, refl, true, false, List, [], ◌∷◌, Bytes, codes}
use afsim_ns.Base.Map.{lookup}
use afsim_ns.Double.{fixed_point, fixed_point-Laws, read_digits}
use afsim_ns.Json.{json_object_array}
use afsim_ns.Transport.Hash.{unit_draw}
use afsim_ns.Transport.Gate.{
  MessageTransportGate, Profile, Profiles, deliver, drop_message, new_gate,
  update_from_metrics_json, decide, fold_objects, add_link,
}
use afsim_ns.Transport.Draw.{unit_draw_bounds}
use afsim_ns.Transport.Profiles.{AllInRange, update-AllInRange}
use afsim_ns.Transport.Decide.{lossless_delivers, unlinked_never}

-- One link from 1 to 2, and metrics for a flow from 1 to 3 that says it is connected.
abbrev line : Bytes
line =
    codes
      "{\"message_type\":\"ns3_metrics\",\"revision\":4,\"links\":[{\"source_entity_id\":\"1\",\"target_entity_id\":\"2\",\"state\":\"UP\",\"delay_ms\":3,\"configured_loss_rate\":0}],\"metrics\":[{\"source_entity_id\":\"1\",\"target_entity_id\":\"3\",\"connected\":true,\"link_state\":\"UP\",\"latency_ms\":9}]}"

abbrev taken : MessageTransportGate fixed_point
taken = (update_from_metrics_json fixed_point line (new_gate fixed_point)).0

abbrev first_profile : Profile fixed_point
first_profile = record { connected = true; delay_ms = 3 * 2 ^ 53; loss_rate = 0 }

abbrev one_link : Profiles fixed_point
one_link = ((codes "1", codes "2"), first_profile) ∷ []

delivered : (decide fixed_point taken (codes "1") (codes "2") 5).disposition ≡ deliver
unfolding update_from_metrics_json decide read_digits
delivered = refl

dropped : (decide fixed_point taken (codes "1") (codes "3") 5).disposition ≡ drop_message
unfolding update_from_metrics_json decide read_digits
dropped = refl

unit_draw_bounds_example :
    (fixed_point.less (unit_draw fixed_point (codes "1") (codes "2") 5 4) fixed_point.nought
      ≡ false)
    × (fixed_point.less (unit_draw fixed_point (codes "1") (codes "2") 5 4) fixed_point.unit ≡ true)
unit_draw_bounds_example = unit_draw_bounds fixed_point fixed_point-Laws (codes "1") (codes "2") 5 4

update-AllInRange_example :
    AllInRange fixed_point fixed_point-Laws (new_gate fixed_point).profiles
    × AllInRange fixed_point fixed_point-Laws taken.profiles
    × ((new_gate fixed_point).latest_revision ≤ taken.latest_revision)
update-AllInRange_example =
    update-AllInRange fixed_point fixed_point-Laws line (new_gate fixed_point) tt

lossless_delivers_example :
    ((decide fixed_point taken (codes "1") (codes "2") 5).disposition ≡ deliver)
    × ((decide fixed_point taken (codes "1") (codes "2") 5).delay_ms ≡ 3 * 2 ^ 53)
unfolding update_from_metrics_json lookup read_digits
lossless_delivers_example =
    lossless_delivers fixed_point fixed_point-Laws taken (codes "1") (codes "2") 5 first_profile
      refl refl refl

abbrev links : List Bytes
links =
    codes
      "{\"source_entity_id\":\"1\",\"target_entity_id\":\"2\",\"state\":\"UP\",\"delay_ms\":3,\"configured_loss_rate\":0}"
    ∷ []

unlinked_never_example : (decide fixed_point taken (codes "1") (codes "3") 5).disposition ≢ deliver
unfolding update_from_metrics_json json_object_array fold_objects add_link lookup read_digits
unlinked_never_example =
    unlinked_never fixed_point fixed_point-Laws line (new_gate fixed_point) taken links one_link
      (codes "1") (codes "3") 5 refl refl refl refl
