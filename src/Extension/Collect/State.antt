-- ===== src/Extension/Collect/State.antt =====
-- The flows, the old times of transmission, and the whole of `CollectState`.
use afsim_ns.Base.{
  ℕ, Bool, ◌&&◌, List, [], ◌∷◌, Bytes, Result, ok, err, if◌then◌else◌, bytes_ord, pair_ord,
  cmp_bytes,
}
use afsim_ns.Base.Map.{Map, lookup}
use afsim_ns.Double.{Double, fmax}
use afsim_ns.Double.Math.{Math}
use afsim_ns.Protocol.{EntityState, FlowConfig}
use afsim_ns.Delta.{is_some}
use afsim_ns.Extension.Afsim.{Simulation}
use afsim_ns.Extension.State.{Set, FlowKey, MessageKey, ObservedFlow, Extension}
use afsim_ns.Extension.Peers.{platform_records}
use afsim_ns.Extension.Collect.Links.{TickError, Directory, is_alive, directory, Progress}
use afsim_ns.Extension.Collect.Entities.{collect_entities}

module _ (d : Double) (m : Math d) where
  open d use {F, less, times, of_uint64}

  -- The loop over the observed flows.
  unfoldable pub flow_config : Map Bytes Bool → Set (Bytes × Bytes) → ObservedFlow d → FlowConfig
  unfolding is_alive lookup cmp_bytes
  flow_config alive up_links observed = record {
    flow_id = observed.flow_id;
    source_entity_id = observed.source_entity_id;
    target_entity_id = observed.target_entity_id;
    packet_size_bytes = observed.packet_size_bytes;
    interval_ms = observed.interval_ms;
    duration_ms = observed.duration_ms;
    active =
        is_alive observed.source_entity_id alive
        && is_alive observed.target_entity_id alive
        && is_some (lookup (observed.source_entity_id, observed.target_entity_id) up_links);
  }

  unfoldable pub collect_flows :
      Map Bytes Bool → Set (Bytes × Bytes) → Map FlowKey (ObservedFlow d) → List FlowConfig
  unfolding flow_config
  collect_flows alive up_links [] = []
  collect_flows alive up_links ((key, observed) ∷ flows) =
      flow_config alive up_links observed ∷ collect_flows alive up_links flows

  -- The loop that erases what was sent before the cutoff.
  unfoldable pub prune : F → Map MessageKey F → Map MessageKey F
  prune cutoff [] = []
  prune cutoff ((key, time) ∷ times) =
      let rest = prune cutoff times in if less time cutoff then rest else (key, time) ∷ rest

  unfoldable pub transmit_cutoff : F → F → F
  transmit_cutoff time interval = m.minus time (fmax d (of_uint64 5) (times interval (of_uint64 5)))

  unfoldable pub collected :
      F
      → Directory
      → Extension d
      → Progress d m × Result TickError (List (EntityState d))
      → Extension d × Result TickError (List (EntityState d) × List FlowConfig)
  unfolding collect_flows prune transmit_cutoff
  collected time dir ext (progress, result) =
      let after : Extension d = record ext {
        enu_frame = progress.enu_frame;
        configured_data_rates = progress.configured_data_rates;
        link_observations = progress.link_observations;
      } in
      elim result [
        | err e ↦ (after, err e)
        | ok entities ↦ (
          record after {
            transmit_times =
                prune (transmit_cutoff time ext.config.interval_seconds) ext.transmit_times;
          },
          ok (entities, collect_flows dir.alive progress.up_links ext.observed_flows),
        )
      ]

  abbrev pub progress_of : Extension d → Progress d m
  progress_of ext = record {
    enu_frame = ext.enu_frame;
    configured_data_rates = ext.configured_data_rates;
    link_observations = ext.link_observations;
    up_links = [];
  }

  unfoldable pub collect_state :
      ℕ
      → Simulation d
      → F
      → Extension d
      → Extension d × Result TickError (List (EntityState d) × List FlowConfig)
  unfolding platform_records directory collect_entities collected
  collect_state rounds sim time ext =
      let records = platform_records d sim sim.platform_entries in
      let dir = directory d m sim records in
      collected time dir ext
        (collect_entities d m sim ext.config dir rounds records (progress_of ext))
