-- ===== src/Extension/Tick.antt =====
-- The tick and its event, and what AFSIM calls at the start and at the end.
use afsim_ns.Base.{
  ℕ, suc, true, false, List, ◌++◌, Bytes, codes, Option, none, some, Result, ok, err, if◌then◌else◌,
}
use afsim_ns.Double.{Double, fmax}
use afsim_ns.Double.Math.{Math}
use afsim_ns.Protocol.{EntityState, FlowConfig, decimal}
use afsim_ns.Delta.{StateError}
use afsim_ns.Controller.{
  AfsimBridgeController, StateSubmitResult, EffectSink, apply_pending_effects, submit_current_state,
  start, stop,
}
use afsim_ns.Extension.Afsim.{Simulation}
use afsim_ns.Extension.State.{Extension}
use afsim_ns.Extension.Collect.{TickError, state_error, collect_state}

-- `ApplyNetworkEffect` only writes to the log, and so does the handler of errors.
abbrev pub effect_sink : EffectSink (Unit {0})
effect_sink = record { apply = λ decision s. (s, none); report = some (λ decision message s. s) }

module _ (d : Double) (m : Math d) where
  open d use {F}

  unfoldable pub submitted :
      Extension d
      → AfsimBridgeController d × Result StateError StateSubmitResult
      → Extension d × Result TickError StateSubmitResult
  submitted ext (controller, ok result) = (record ext { controller = controller }, ok result)
  submitted ext (controller, err e) = (record ext { controller = controller }, err (state_error e))

  -- The identifier and the time of the request.
  unfoldable pub request_id : Extension d → Bytes
  unfolding decimal
  request_id ext = ext.run_id ++ codes "-" ++ decimal ext.tick_count

  unfoldable pub timestamp_ms : F → ℕ
  timestamp_ms time = m.to_uint64 (d.times (fmax d d.nought time) (d.of_uint64 1000))

  unfoldable pub submit :
      F
      → Extension d × Result TickError (List (EntityState d) × List FlowConfig)
      → Extension d × Result TickError StateSubmitResult
  unfolding submitted request_id timestamp_ms submit_current_state
  submit time (ext, err e) = (ext, err e)
  submit time (ext, ok (entities, flows)) =
      let counted : Extension d = record ext { tick_count = suc ext.tick_count } in
      submitted counted (
        submit_current_state d (request_id counted) (timestamp_ms time) entities flows
          counted.controller)

  unfoldable pub tick :
      ℕ → Simulation d → F → Extension d → Extension d × Result TickError StateSubmitResult
  unfolding apply_pending_effects collect_state submit
  tick rounds sim time ext =
      let (controller, _) = apply_pending_effects effect_sink d ext.controller tt in
      submit time (collect_state d m rounds sim time (record ext { controller = controller }))

  -- The recurring event, with the time that it is set to; `none` where it is deleted. What a tick
  -- throws is caught.
  unfoldable pub recurring_event : ℕ → Simulation d → F → Extension d → Extension d × Option F
  unfolding tick
  recurring_event rounds sim time ext =
      if ext.stopping
      then (ext, none)
      else let (after, _) = tick rounds sim time ext in
        (after, if after.stopping then none else some (m.plus time after.config.interval_seconds))

  -- `Start` connects the four callbacks, and adds the recurring event at the returned time.
  unfoldable pub begin_run : F → Extension d → Extension d × F
  unfolding start
  begin_run time ext = (
    record ext { stopping = false; subscribed = true; controller = start d ext.controller },
    m.plus time m.billionth,
  )

  unfoldable pub complete : Extension d → Extension d
  unfolding stop
  complete ext = record ext {
    stopping = true;
    subscribed = false;
    controller = stop d ext.controller;
  }
