-- ===== src/Controller/Life.antt =====
-- The calls that the controller passes on to the client and to the message gate.
use afsim_ns.Base.{ℕ, Bool, true, false}
use afsim_ns.Double.{Double}
use afsim_ns.Tcp.{pending_count}
use afsim_ns.Controller.Submit.{AfsimBridgeController}

module _ (d : Double) where
  -- `Start` of the client sets the flag, and starts the worker thread where it was not set.
  unfoldable pub start : AfsimBridgeController d → AfsimBridgeController d
  start c = record c { client = record c.client { running = true } }

  -- `Stop` of the client, when the worker thread has been joined.
  unfoldable pub stop : AfsimBridgeController d → AfsimBridgeController d
  stop c = record c { client = record c.client { running = false; connected = false } }

  unfoldable pub latest_metrics_revision : AfsimBridgeController d → ℕ
  latest_metrics_revision c = c.message_gate.latest_revision

  unfoldable pub is_connected : AfsimBridgeController d → Bool
  is_connected c = c.client.connected

  unfoldable pub pending_network_messages : AfsimBridgeController d → ℕ
  unfolding pending_count
  pending_network_messages c = pending_count c.client
