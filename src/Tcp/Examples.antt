-- ===== src/Tcp/Examples.antt =====
-- Lines queued, sent and taken apart.
use afsim_ns.Base.{
  ℕ, ◌+◌, ◌≤◌, ◌≡◌, refl, true, false, List, none, [], ◌∷◌, ◌++◌, Bytes, codes, some, All, ok,
  arith, ◌==◌, if◌then◌else◌, length,
}
use afsim_ns.Tcp.Queue.{Client, TcpClientConfig, new_client, normalize, queue_initial, queue_delta}
use afsim_ns.Tcp.Send.{written, would_block, send_error, send_all}
use afsim_ns.Tcp.Lines.{dispatch_lines}
use afsim_ns.Tcp.Worker.{
  Connection, top, dialing, entered, World, starts, dials, opened, begins, enters, takes,
  request_stop, closing, end_connection, sends, idles, initial_world, start, open_connection,
  begin_connection, take_next, line_sent,
}
use afsim_ns.Tcp.Sync.Outgoing.{replay, is_connected}
use afsim_ns.Tcp.Sync.History.{
  History, created, stepped, initial_queued, delta_queued, synchronised,
}
use afsim_ns.Tcp.Connect.{Candidate, connect, IsFirst, connect_lem}
use afsim_ns.Tcp.Sync.Drain.{IsIdle, drains_synchronised}
use afsim_ns.Tcp.Sync.Advance.{advances}
use afsim_ns.Tcp.Sync.Bounds.{pending_bounds}
use afsim_ns.Tcp.Stream.{stream, dispatch_chunks, dispatch-stream}
use afsim_ns.Tcp.Delivery.{IsLeft, send_all_prefix}

-- A server that keeps a text: a line "s..." sets it, any other line is appended to it.
abbrev apply : Bytes → Bytes → Bytes
apply x [] = x
apply x (c ∷ line) = if c == b's' then line else x ++ line

abbrev config : TcpClientConfig
config = record {
  host = codes "h";
  port = 5555;
  connect_timeout_ms = 1;
  reconnect_delay_ms = 1;
  max_pending_messages = 4;
}

abbrev client : Client
client = record { config = config; running = false; connected = false; pending = []; resync = [] }

new-client : new_client config ≡ ok client
unfolding new_client
new-client = refl

-- The first state is queued before the start, the second while the connection is up.
abbrev begun : World
begun = record (initial_world client) { client = queue_initial (codes "s1") client }

abbrev connected : World
connected = begin_connection (open_connection (record (start begun) { phase = dialing }))

abbrev first : Connection
first = record { current = normalize (codes "s1"); received = [] }

abbrev idle : Connection
idle = record { current = []; received = [] }

abbrev first_sent : World
first_sent =
    record (line_sent first (take_next first (record connected { phase = entered first }))) {
      phase = top idle;
    }

abbrev second_queued : World
second_queued = record first_sent {
  client = (queue_delta (codes "d2") (codes "s1\n2") first_sent.client).0;
}

abbrev second : Connection
second = record { current = normalize (codes "d2"); received = [] }

abbrev second_sent : World
second_sent =
    record (line_sent second (take_next idle (record second_queued { phase = entered idle }))) {
      phase = top idle;
    }

begun-History : History apply (some (codes "1\n")) begun
unfolding normalize
begun-History =
    initial_queued (codes "1\n") (codes "s1") (created config client new-client) (λ x. refl)

connected-History : History apply (some (codes "1\n")) connected
unfolding queue_initial start open_connection begin_connection
connected-History =
    stepped
      (stepped (stepped (stepped begun-History (starts refl refl)) (dials refl refl)) (opened refl))
      (begins refl)

first_sent-History : History apply (some (codes "1\n")) first_sent
unfolding queue_initial start open_connection begin_connection take_next line_sent normalize
first_sent-History =
    stepped
      (stepped (stepped (stepped connected-History (enters first refl refl)) (takes first refl))
        (sends first refl))
      (idles idle refl)

second_queued-History : History apply (some (codes "1\n2\n")) second_queued
unfolding normalize
second_queued-History =
    delta_queued (codes "1\n2\n") (codes "d2") (codes "s1\n2") first_sent-History refl (λ x. refl)

second_sent-History : History apply (some (codes "1\n2\n")) second_sent
unfolding queue_initial queue_delta start open_connection begin_connection take_next line_sent
    normalize
second_sent-History =
    stepped
      (stepped (stepped (stepped second_queued-History (enters idle refl refl)) (takes idle refl))
        (sends second refl))
      (idles idle refl)

synchronised_example : replay apply (codes "old") second_sent.delivered ≡ codes "1\n2\n"
unfolding queue_initial queue_delta start open_connection begin_connection take_next line_sent
    normalize
synchronised_example = synchronised apply second_sent-History refl refl (codes "old")

drains_synchronised_example :
    (n : ℕ) × (n ≤ 8)
    × IsIdle (advances n second_queued)
    × ((x : Bytes) → replay apply x (advances n second_queued).delivered ≡ codes "1\n2\n")
unfolding queue_initial queue_delta start open_connection begin_connection take_next line_sent
    normalize
drains_synchronised_example = drains_synchronised apply second_queued-History refl refl

-- A stop is requested at the top of the loop, with a line in the queue.
abbrev stopping : World
stopping = request_stop second_queued

-- The worker leaves the loop, a line is queued, and the connection is closed.
abbrev stopped : World
stopped = end_connection (record stopping {
  client = (queue_delta (codes "d3") (codes "s1\n2\n3") stopping.client).0;
  phase = closing;
})

abbrev refused : Candidate
refused = record {
  handle = some 3;
  set_non_blocking = true;
  connects_at_once = false;
  would_block = true;
  is_writable = true;
  connection_succeeded = false;
}

abbrev accepted : Candidate
accepted = record refused { handle = some 4; connection_succeeded = true }

abbrev candidates : List Candidate
candidates = refused ∷ record refused { handle = none } ∷ accepted ∷ []

connect_lem_example :
    IsFirst candidates (connect (some candidates)).connected (connect (some candidates)).closed
connect_lem_example = connect_lem candidates

pending_bounds_example : length second_queued.client.pending ≤ (
    if is_connected second_queued.phase
    then second_queued.client.config.max_pending_messages
    else second_queued.client.config.max_pending_messages + 1)
pending_bounds_example = pending_bounds apply second_queued-History

-- At the limit of four lines the fifth replaces all by the snapshot.
overflow :
    (queue_delta
      (codes "d")
      (codes "s")
      (record client { pending = codes "1" ∷ codes "2" ∷ codes "3" ∷ codes "4" ∷ [] })).0.pending
    ≡ codes "s\n" ∷ []
unfolding queue_delta
overflow = refl

dispatch_chunks_example :
    (dispatch_lines (codes "ab\ncd" ++ codes "e\r\n\nf") ≡ (
      (dispatch_lines (codes "ab\ncd")).0
          ++ (dispatch_lines ((dispatch_lines (codes "ab\ncd")).1 ++ codes "e\r\n\nf")).0,
      (dispatch_lines ((dispatch_lines (codes "ab\ncd")).1 ++ codes "e\r\n\nf")).1,
    ))
    × All (λ c. (c == b'\n') ≡ false) (dispatch_lines (codes "ab\ncd")).1
dispatch_chunks_example = dispatch_chunks (codes "ab\ncd") (codes "e\r\n\nf")

lines : dispatch_lines (codes "ab\ncde\r\n\nf") ≡ (codes "ab" ∷ codes "cde" ∷ [], codes "f")
unfolding dispatch_lines
lines = refl

dispatch-stream_example :
    dispatch_lines (stream (codes "ab" ∷ codes "c" ∷ [])) ≡ (codes "ab" ∷ codes "c" ∷ [], [])
dispatch-stream_example =
    dispatch-stream (codes "ab" ∷ codes "c" ∷ [])
      (((λ e. cc), (omega arith, (omega arith, tt))), (((λ e. cc), (omega arith, tt)), tt))

send_all_prefix_example :
    (rest : Bytes) × (codes "abcd"
      ≡ (send_all (written 3 ∷ would_block ∷ send_error ∷ []) (codes "abcd")).0 ++ rest)
    × IsLeft (send_all (written 3 ∷ would_block ∷ send_error ∷ []) (codes "abcd")).1 rest
send_all_prefix_example = send_all_prefix (written 3 ∷ would_block ∷ send_error ∷ []) (codes "abcd")
