-- ===== src/Tcp/Worker.antt =====
-- `Start`, `Stop`, `Run` and `ProcessConnection` as steps. A step is what one thread does between
-- two points where another may run.
use afsim_ns.Base.{
  ℕ, ◌*◌, ◌≡◌, ◌≢◌, true, false, List, [], ◌∷◌, ◌++◌, Bytes, ltb, if◌then◌else◌, length,
}
use afsim_ns.Tcp.Queue.{Client}
use afsim_ns.Tcp.Lines.{dispatch_lines}

-- The local variables of `ProcessConnection`.
pub record Connection : Type 0 where
  pub current : Bytes
  pub received : Bytes

-- Where the worker stands. `connecting` is in `Run` before the test of `mRunning`, and `dialing`
-- behind it. `opening` is before the queue is locked in `ProcessConnection`. `top` is in its loop
-- before the test of `mRunning`, and `entered` behind it. `closing` is where it has returned.
pub data Phase : Type 0 where
  no_thread connecting dialing pausing opening closing finished : Phase
  top entered sending receiving : Connection → Phase

-- `delivered` holds the lines that the socket took whole since the snapshot of this connection
-- was taken, and `handled` the lines that went to the handler.
pub record World : Type 0 where
  pub client : Client
  pub phase : Phase
  pub delivered : List Bytes
  pub handled : List Bytes

-- `mConnected = false` and the test behind it.
unfoldable pub end_connection : World → World
end_connection w = record w {
  client = record w.client { connected = false };
  phase = if w.client.running then pausing else connecting;
}

-- `Connect` gave a socket.
unfoldable pub open_connection : World → World
open_connection w = record w { client = record w.client { connected = true }; phase = opening }

-- `ProcessConnection` up to its loop: under the lock the snapshot is taken and the queue cleared.
unfoldable pub begin_connection : World → World
begin_connection w = record w {
  client = record w.client { pending = [] };
  phase = top (record { current = w.client.resync; received = [] });
  delivered = [];
}

-- With a line in `current` the worker goes on to send it.
abbrev send_or_receive : Bytes → Bytes → Phase
send_or_receive [] received = receiving (record { current = []; received = received })
send_or_receive (c ∷ line) received = sending (record { current = c ∷ line; received = received })

-- `if (current.empty())`: the front of the queue, if there is one.
unfoldable pub take_pending : Bytes → Bytes → List Bytes → World → World
take_pending received (c ∷ line) pending w = record w {
  phase = send_or_receive (c ∷ line) received;
}
take_pending received [] [] w = record w { phase = send_or_receive [] received }
take_pending received [] (front ∷ pending) w = record w {
  client = record w.client { pending = pending };
  phase = send_or_receive front received;
}

unfoldable pub take_next : Connection → World → World
unfolding take_pending
take_next c w = take_pending c.received c.current w.client.pending w

-- `SendAll` returned true.
unfoldable pub line_sent : Connection → World → World
line_sent c w = record w {
  phase = receiving (record c { current = [] });
  delivered = w.delivered ++ c.current ∷ [];
}

-- `SendAll` returned false: under the lock the line goes back to the front of the queue.
unfoldable pub send_failed : Connection → World → World
send_failed c w = record w {
  client = record w.client { pending = c.current ∷ w.client.pending };
  phase = closing;
}

abbrev pub receive_limit : ℕ
receive_limit = 10 * 1024 * 1024

-- `recv` gave bytes.
unfoldable pub bytes_received : Bytes → Connection → World → World
unfolding dispatch_lines
bytes_received chunk c w =
    let buffer = c.received ++ chunk in
    let (lines, rest) = dispatch_lines buffer in
    if ltb receive_limit (length buffer)
    then record w { phase = closing }
    else record w { phase = top (record c { received = rest }); handled = w.handled ++ lines }

unfoldable pub start : World → World
start w = record w { client = record w.client { running = true }; phase = connecting }

-- `Stop` up to the join, and behind it.
unfoldable pub request_stop : World → World
request_stop w = record w { client = record w.client { running = false } }

unfoldable pub join : World → World
join w = record w { client = record w.client { connected = false }; phase = no_thread }

abbrev pub initial_world : Client → World
initial_world c = record { client = c; phase = no_thread; delivered = []; handled = [] }

-- All that may happen but a call that queues. A stop may be requested between the test of
-- `mRunning` in a loop and what follows the test, so what follows does not ask for the flag.
pub data Step (w : World) : World → Type 0 where
  starts : w.client.running ≡ false → w.phase ≡ no_thread → Step w (start w)
  stop_requested : Step w (request_stop w)
  joined : w.phase ≡ finished → Step w (join w)
  quits : w.phase ≡ connecting → w.client.running ≡ false → Step w (record w { phase = finished })
  dials : w.phase ≡ connecting → w.client.running ≡ true → Step w (record w { phase = dialing })
  refused : w.phase ≡ dialing → Step w (record w { phase = pausing })
  opened : w.phase ≡ dialing → Step w (open_connection w)
  woken : w.phase ≡ pausing → Step w (record w { phase = connecting })
  begins : w.phase ≡ opening → Step w (begin_connection w)
  leaves :
      (c : Connection)
      → w.phase ≡ top c
      → w.client.running ≡ false
      → Step w (record w { phase = closing })
  enters :
      (c : Connection)
      → w.phase ≡ top c
      → w.client.running ≡ true
      → Step w (record w { phase = entered c })
  takes : (c : Connection) → w.phase ≡ entered c → Step w (take_next c w)
  sends : (c : Connection) → w.phase ≡ sending c → Step w (line_sent c w)
  fails : (c : Connection) → w.phase ≡ sending c → Step w (send_failed c w)
  idles : (c : Connection) → w.phase ≡ receiving c → Step w (record w { phase = top c })
  receives :
      (c : Connection) (chunk : Bytes)
      → w.phase ≡ receiving c
      → chunk ≢ []
      → Step w (bytes_received chunk c w)
  closes : (c : Connection) → w.phase ≡ receiving c → Step w (record w { phase = closing })
  ends : w.phase ≡ closing → Step w (end_connection w)
