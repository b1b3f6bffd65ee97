-- ===== src/Extension/Events.antt =====
-- The events that may reach the plugin, in any order.
use afsim_ns.Base.{ℕ, Bytes, List, [], ◌∷◌, Option, bytes_ord}
use afsim_ns.Double.{Double}
use afsim_ns.Double.Math.{Math}
use afsim_ns.Controller.{on_json_line}
use afsim_ns.Extension.Afsim.{Comm, Message, Simulation}
use afsim_ns.Extension.Afsim
use afsim_ns.Extension.State.{Extension}
use afsim_ns.Extension.Messages.{
  message_transmitted, message_delivery_attempt, message_received, message_discarded,
}
use afsim_ns.Extension.Tick.{recurring_event, begin_run, complete}

module _ (d : Double) where
  open d use {F}

  -- What may reach the plugin: AFSIM's events with what AFSIM says at that moment, the recurring
  -- event, a line from the network, and the start and the end of the run.
  pub data Event : Type 0 where
    transmitted : Simulation d → F → Option Comm → Message → Event
    delivery_attempted :
        Simulation d → F → Option Comm → Option Comm → Message → Afsim.Result d → Event
    was_received : Simulation d → F → Option Comm → Option Comm → Message → Afsim.Result d → Event
    was_discarded : Simulation d → F → Option Comm → Message → Event
    recurred : ℕ → Simulation d → F → Event
    line_came : Bytes → Event
    began : F → Event
    completed : Event

module _ (d : Double) (m : Math d) where
  open d use {F, less}

  abbrev pub handle : Event d → Extension d → Extension d
  handle (transmitted sim time transmitter message) ext =
      message_transmitted d m sim time transmitter message ext
  handle (delivery_attempted sim time transmitter receiver message result) ext =
      (message_delivery_attempt d m sim time transmitter receiver message result ext).0
  handle (was_received sim time transmitter receiver message result) ext =
      message_received d m sim time transmitter receiver message result ext
  handle (was_discarded sim time transmitter message) ext =
      message_discarded d m sim time transmitter message ext
  handle (recurred rounds sim time) ext = (recurring_event d m rounds sim time ext).0
  handle (line_came line) ext = record ext { controller = (on_json_line d line ext.controller).0 }
  handle (began time) ext = (begin_run d m time ext).0
  handle completed ext = complete d m ext

  abbrev pub run_events : List (Event d) → Extension d → Extension d
  run_events [] ext = ext
  run_events (event ∷ events) ext = run_events events (handle event ext)
