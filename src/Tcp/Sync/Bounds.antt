-- ===== src/Tcp/Sync/Bounds.antt =====
-- The queue stays short.
use afsim_ns.Base.{
  ℕ, ◌+◌, ◌≤◌, ◌<◌, ◌≡◌, refl, Bool, true, false, List, [], ◌∷◌, ◌++◌, Bytes, Option, ok, arith,
  length, length-append, ltb, if◌then◌else◌, Bool-cases, inl, inr,
}
use afsim_ns.Tcp.Queue.{Client, TcpClientConfig, new_client, normalize, queue_initial, queue_delta}
use afsim_ns.Tcp.Worker.{
  Connection, receiving, closing, World, Step, starts, stop_requested, joined, quits, dials,
  refused, begins, enters, ends, opened, woken, leaves, takes, sends, fails, idles, receives,
  closes, end_connection, open_connection, begin_connection, take_next, take_pending, line_sent,
  send_failed, bytes_received, start, request_stop, join, receive_limit,
}
use afsim_ns.Tcp.Sync.Outgoing.{is_connected, end-phase}
use afsim_ns.Tcp.Sync.History.{History, created, stepped, initial_queued, delta_queued}

record IsBounded (w : World) : Type 0 where
  positive : 0 < w.client.config.max_pending_messages
  total : length w.client.pending ≤ w.client.config.max_pending_messages + 1
  connected_total :
      is_connected w.phase ≡ true → length w.client.pending ≤ w.client.config.max_pending_messages

end_connection-IsBounded :
    (w : World)
    → 0 < w.client.config.max_pending_messages
    → length w.client.pending ≤ w.client.config.max_pending_messages + 1
    → IsBounded (end_connection w)
unfolding end_connection
end_connection-IsBounded w p h = record {
  positive = p;
  total = h;
  connected_total = λ e. cc ((end-phase w).1);
}

closed-IsBounded :
    (w : World)
    → 0 < w.client.config.max_pending_messages
    → length w.client.pending ≤ w.client.config.max_pending_messages + 1
    → IsBounded (record w { phase = closing })
closed-IsBounded w p h = record { positive = p; total = h; connected_total = λ e. cc }

take_pending-IsBounded :
    (received current : Bytes) (pending : List Bytes) (w : World)
    → w.client.pending ≡ pending
    → 0 < w.client.config.max_pending_messages
    → length pending ≤ w.client.config.max_pending_messages
    → IsBounded (take_pending received current pending w)
unfolding take_pending
take_pending-IsBounded received (c ∷ line) pending w e p h = record {
  positive = p;
  total = rw e (omega arith);
  connected_total = λ _. rw e h;
}
take_pending-IsBounded received [] [] w e p h = record {
  positive = p;
  total = rw e (omega arith);
  connected_total = λ _. rw e h;
}
take_pending-IsBounded received [] (front ∷ pending) w e p h = record {
  positive = p;
  total = omega arith;
  connected_total = λ _. omega arith;
}

away-IsBounded :
    (w : World)
    → IsBounded w
    → (v : World) → is_connected v.phase ≡ false
    → v.client.config ≡ w.client.config
    → v.client.pending ≡ w.client.pending
    → IsBounded v
away-IsBounded w h v p r q = record {
  positive = rw r h.positive;
  total = rw (r, q) h.total;
  connected_total = λ e. cc;
}

bytes_received-IsBounded :
    (c : Connection) (chunk : Bytes) (w : World)
    → w.phase ≡ receiving c
    → IsBounded w
    → IsBounded (bytes_received chunk c w)
unfolding bytes_received
bytes_received-IsBounded c chunk w p h =
    elim (Bool-cases (ltb receive_limit (length (c.received ++ chunk)))) [
      | inl over ↦ rw over (closed-IsBounded w h.positive h.total)
      | inr fine ↦ rw fine (record {
        positive = h.positive;
        total = h.total;
        connected_total = λ e. h.connected_total (rw p);
      })
    ]

Step-IsBounded : {w v : World} → Step w v → IsBounded w → IsBounded v
unfolding start request_stop join open_connection begin_connection take_next send_failed line_sent
Step-IsBounded {w} (starts r p) h = away-IsBounded w h _ refl refl refl
Step-IsBounded stop_requested h = record {
  positive = h.positive;
  total = h.total;
  connected_total = h.connected_total;
}
Step-IsBounded {w} (joined p) h = away-IsBounded w h _ refl refl refl
Step-IsBounded {w} (quits p r) h = away-IsBounded w h _ refl refl refl
Step-IsBounded {w} (refused p) h = away-IsBounded w h _ refl refl refl
Step-IsBounded {w} (dials p r) h = away-IsBounded w h _ refl refl refl
Step-IsBounded {w} (opened p) h = away-IsBounded w h _ refl refl refl
Step-IsBounded (begins p) h = record {
  positive = h.positive;
  total = omega arith;
  connected_total = λ e. omega arith;
}
Step-IsBounded {w} (woken p) h = away-IsBounded w h _ refl refl refl
Step-IsBounded {w} (leaves c p r) h = away-IsBounded w h _ refl refl refl
Step-IsBounded (enters c p r) h = record {
  positive = h.positive;
  total = h.total;
  connected_total = λ e. h.connected_total (rw p);
}
Step-IsBounded {w} (takes c p) h =
    take_pending-IsBounded c.received c.current w.client.pending w refl h.positive
      (h.connected_total (rw p))
Step-IsBounded (sends c p) h = record {
  positive = h.positive;
  total = h.total;
  connected_total = λ e. h.connected_total (rw p);
}
Step-IsBounded {w} (fails c p) h =
    let room = h.connected_total (rw p) in
    closed-IsBounded
      (record w { client = record w.client { pending = c.current ∷ w.client.pending } }) h.positive
      (omega arith)
Step-IsBounded (idles c p) h = record {
  positive = h.positive;
  total = h.total;
  connected_total = λ e. h.connected_total (rw p);
}
Step-IsBounded {w} (receives c chunk p n) h = bytes_received-IsBounded c chunk w p h
Step-IsBounded {w} (closes c p) h = away-IsBounded w h _ refl refl refl
Step-IsBounded {w} (ends p) h = end_connection-IsBounded w h.positive h.total

queue_delta-bounds :
    (json snapshot : Bytes) (c : Client)
    → 0 < c.config.max_pending_messages
    → length (queue_delta json snapshot c).0.pending ≤ c.config.max_pending_messages
unfolding queue_delta
queue_delta-bounds json snapshot c p = ground (arith, length-append c.pending (normalize json ∷ []))

queue_delta-config :
    (json snapshot : Bytes) (c : Client) → (queue_delta json snapshot c).0.config ≡ c.config
unfolding queue_delta
queue_delta-config json snapshot c = ground arith

new_client-IsBounded :
    (config : TcpClientConfig) (c : Client)
    → new_client config ≡ ok c
    → (c.pending ≡ []) × (0 < c.config.max_pending_messages)
unfolding new_client
new_client-IsBounded config c e = ground arith

queued-IsBounded :
    (w : World) (client : Client)
    → client.config ≡ w.client.config
    → IsBounded w
    → length client.pending ≤ w.client.config.max_pending_messages
    → IsBounded (record w { client = client })
queued-IsBounded w client e h l = record {
  positive = rw e h.positive;
  total = rw e (omega arith);
  connected_total = λ _. rw e l;
}

module _ {S : Type 0} (apply : S → Bytes → S) where
  History-IsBounded : {goal : Option S} {w : World} → History apply goal w → IsBounded w
  unfolding queue_initial
  History-IsBounded (created config c e) =
      let (n, p) = new_client-IsBounded config c e in
      record { positive = p; total = rw n (omega arith); connected_total = λ h. cc }
  History-IsBounded (stepped h st) = Step-IsBounded st (History-IsBounded h)
  History-IsBounded (initial_queued {w = w} next json h a) =
      let b = History-IsBounded h in
      queued-IsBounded w (queue_initial json w.client) refl b b.positive
  History-IsBounded (delta_queued {w = w} next json snapshot h k a) =
      let b = History-IsBounded h in
      queued-IsBounded w (queue_delta json snapshot w.client).0
        (queue_delta-config json snapshot w.client) b
        (queue_delta-bounds json snapshot w.client b.positive)

  within_limit :
      (connected : Bool) (n limit : ℕ)
      → n ≤ limit + 1
      → (connected ≡ true → n ≤ limit)
      → n ≤ (if connected then limit else limit + 1)
  within_limit true n limit h k = k refl
  within_limit false n limit h k = h

  -- After any history of queueing calls and steps of the worker, the queue holds at most
  -- `maxPendingMessages` lines while the worker is in the loop of a connection, and at most one
  -- more at other times.
  pub pending_bounds :
      {goal : Option S} {w : World}
      → History apply goal w
      → length w.client.pending ≤ (
          if is_connected w.phase
          then w.client.config.max_pending_messages
          else w.client.config.max_pending_messages + 1)
  pending_bounds {w = w} h =
      let b = History-IsBounded h in
      within_limit (is_connected w.phase) (length w.client.pending)
        w.client.config.max_pending_messages b.total b.connected_total
