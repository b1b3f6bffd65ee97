-- ===== src/Tcp/Sync/Drain.antt =====
-- When the worker has sent all that is queued.
use afsim_ns.Base.{
  ℕ, zero, suc, ◌+◌, ◌*◌, ◌≤◌, ◌≡◌, ◌≢◌, refl, sym, ap, ◌∙◌, subst, true, List, [], ◌∷◌, ◌++◌,
  Bytes, Option, some, All, length, arith, if◌then◌else◌,
}
use afsim_ns.Tcp.Queue.{Client}
use afsim_ns.Tcp.Worker.{
  Connection, Phase, no_thread, connecting, dialing, pausing, opening, closing, finished, top,
  entered, sending, receiving, World, take_pending, take_next, line_sent,
}
use afsim_ns.Tcp.Sync.Outgoing.{is_connected, replay, FitsPhase}
use afsim_ns.Tcp.Sync.History.{History, stepped, synchronised, History-Tracks}
use afsim_ns.Tcp.Sync.Advance.{
  advance_at, advance, advances, IsUp, advance_at-Step, advance_at-IsUp,
}

-- At the top of the loop of a client that runs, with nothing to send.
pub record IsIdle (w : World) : Type 0 where
  pub connection : Connection
  pub at_top : w.phase ≡ top connection
  pub still_running : w.client.running ≡ true
  pub no_line : connection.current ≡ []
  pub no_pending : w.client.pending ≡ []

-- Four steps for each line of the queue.
drain_queue :
    (client : Client) (received : Bytes) (pending delivered handled : List Bytes)
    → All (λ line. line ≢ []) pending
    → IsIdle (
        advances (4 * length pending) (record {
          client = record client { running = true; pending = pending };
          phase = top (record { current = []; received = received });
          delivered = delivered;
          handled = handled;
        }))
unfolding take_next take_pending line_sent
drain_queue client received [] delivered handled h = record {
  connection = record { current = []; received = received };
  at_top = refl;
  still_running = refl;
  no_line = refl;
  no_pending = refl;
}
drain_queue client received ([] ∷ pending) delivered handled h = absurd (h.0 refl)
drain_queue client received ((c ∷ line) ∷ pending) delivered handled h =
    rw (four (length pending))
      (drain_queue client received pending (delivered ++ (c ∷ line) ∷ []) handled h.1)
  where
    four : (n : ℕ) → 4 * suc n ≡ suc (suc (suc (suc (4 * n))))
    four n = omega arith

-- The steps from a world until the worker is idle, no more than four for each line and four.
abbrev Drains : World → Type 0
Drains w = (n : ℕ) × (n ≤ 4 * length w.client.pending + 4) × IsIdle (advances n w)

abbrev empty_handed : Bytes → Connection
empty_handed received = record { current = []; received = received }

drain_top :
    (w : World) (received : Bytes)
    → w.phase ≡ top (empty_handed received)
    → w.client.running ≡ true
    → All (λ line. line ≢ []) w.client.pending
    → IsIdle (advances (4 * length w.client.pending) w)
drain_top w received e r h =
    subst (λ p. IsIdle (advances (4 * length w.client.pending) (record w { phase = p }))) (sym e)
      (subst
        (λ b. IsIdle (
          advances (4 * length w.client.pending) (record w {
            client = record w.client { running = b };
            phase = top (empty_handed received);
          })))
        (sym r) (drain_queue w.client received w.client.pending w.delivered w.handled h))

-- Each place of the loop is one step before the next.
drain_receiving :
    (w : World) (received : Bytes)
    → w.phase ≡ receiving (empty_handed received)
    → w.client.running ≡ true
    → All (λ line. line ≢ []) w.client.pending
    → IsIdle (advances (suc (4 * length w.client.pending)) w)
drain_receiving w received e r h =
    subst (λ p. IsIdle (advances (4 * length w.client.pending) (advance_at p w))) (sym e)
      (drain_top (record w { phase = top (empty_handed received) }) received refl r h)

drain_sending :
    (w : World) (c : Connection)
    → w.phase ≡ sending c
    → w.client.running ≡ true
    → All (λ line. line ≢ []) w.client.pending
    → IsIdle (advances (suc (suc (4 * length w.client.pending))) w)
unfolding line_sent
drain_sending w c e r h =
    subst (λ p. IsIdle (advances (suc (4 * length w.client.pending)) (advance_at p w))) (sym e)
      (drain_receiving (line_sent c w) c.received refl r h)

drain_taken :
    (w : World) (received current : Bytes) (pending : List Bytes)
    → w.client.running ≡ true
    → w.client.pending ≡ pending
    → All (λ line. line ≢ []) w.client.pending
    → All (λ line. line ≢ []) pending
    → (n : ℕ) × (n ≤ 4 * length w.client.pending + 2)
      × IsIdle (advances n (take_pending received current pending w))
unfolding take_pending
drain_taken w received (x ∷ line) pending r q g h =
    let c : Connection = record { current = x ∷ line; received = received } in
    (
      suc (suc (4 * length w.client.pending)),
      omega arith,
      drain_sending (record w { phase = sending c }) c refl r g,
    )
drain_taken w received [] [] r q g h = (
  suc (4 * length w.client.pending),
  omega arith,
  drain_receiving (record w { phase = receiving (empty_handed received) }) received refl r g,
)
drain_taken w received [] ([] ∷ pending) r q g h = absurd (h.0 refl)
drain_taken w received [] ((x ∷ line) ∷ pending) r q g h =
    let c : Connection = record { current = x ∷ line; received = received } in
    (
      suc (suc (4 * length pending)),
      omega (arith, ap length q),
      drain_sending (record w { client = record w.client { pending = pending }; phase = sending c })
          c refl r h.1,
    )

drain_entered :
    (w : World) (c : Connection)
    → w.phase ≡ entered c
    → w.client.running ≡ true
    → All (λ line. line ≢ []) w.client.pending
    → (n : ℕ) × (n ≤ 4 * length w.client.pending + 3) × IsIdle (advances n w)
unfolding take_next
drain_entered w c e r h =
    let (n, few, idle) = drain_taken w c.received c.current w.client.pending r refl h h in
    (suc n, omega arith, subst (λ p. IsIdle (advances n (advance_at p w))) (sym e) idle)

drain :
    (w : World) (p : Phase)
    → w.phase ≡ p
    → is_connected p ≡ true
    → w.client.running ≡ true
    → FitsPhase p
    → All (λ line. line ≢ []) w.client.pending
    → Drains w
drain w (top c) e k r f h =
    let entering : World = record w { phase = entered c } in
    let (n, few, idle) = drain_entered entering c refl r h in
    (
      suc n,
      omega arith,
      subst (λ p. IsIdle (advances n (advance_at p w))) (sym e)
          (subst (λ b. IsIdle (advances n (record w { phase = if b then entered c else closing })))
            (sym r) idle),
    )
drain w (entered c) e k r f h =
    let (n, few, idle) = drain_entered w c e r h in (n, omega arith, idle)
drain w (sending c) e k r f h =
    (suc (suc (4 * length w.client.pending)), omega arith, drain_sending w c e r h)
drain w (receiving c) e k r f h = (
  suc (4 * length w.client.pending),
  omega arith,
  drain_receiving w c.received
      (e ∙ ap (λ l. receiving (record { current = l; received = c.received })) f) r h,
)
drain w no_thread e k r f h = cc
drain w connecting e k r f h = cc
drain w dialing e k r f h = cc
drain w pausing e k r f h = cc
drain w opening e k r f h = cc
drain w closing e k r f h = cc
drain w finished e k r f h = cc

module _ {S : Type 0} (apply : S → Bytes → S) where
  advances-History :
      {goal : Option S} (n : ℕ) (w : World)
      → History apply goal w
      → IsUp w
      → History apply goal (advances n w)
  advances-History zero w h up = h
  advances-History (suc n) w h up =
      advances-History n (advance w)
        (stepped h (advance_at-Step w.phase w refl up.connected up.running))
        (advance_at-IsUp w.phase w up.connected up.running)

  -- After any history of queueing calls and connections in which each queued line leads where its
  -- caller says, let the client run, without a request to stop, and let the worker be in the loop
  -- of a connection. If then the socket takes every line, the server sends nothing, and nobody
  -- queues or stops, the worker is idle within four steps for each queued line and four more: it is
  -- at the top of its loop with nothing left to send, and a server that has handled the lines of
  -- this connection is in the state that was queued last, whatever its state was when the
  -- connection began.
  pub drains_synchronised :
      {goal : S} {w : World}
      → History apply (some goal) w
      → is_connected w.phase ≡ true
      → w.client.running ≡ true
      → (n : ℕ) × (n ≤ 4 * length w.client.pending + 4)
        × IsIdle (advances n w)
        × ((x : S) → replay apply x (advances n w).delivered ≡ goal)
  drains_synchronised {goal} {w} h k r =
      let synced = History-Tracks apply h in
      let (n, few, idle) = drain w w.phase refl k r synced.fits synced.lines_ne_nil in
      let up : IsUp w = record { running = r; connected = k } in
      (
        n,
        few,
        idle,
        synchronised apply (advances-History n w h up) (rw (idle.at_top) idle.no_line)
            idle.no_pending,
      )
