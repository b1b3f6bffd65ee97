-- ===== src/Tcp/Sync/History.antt =====
-- What clients and the worker may do together, in any order, with the state that was queued last.
use afsim_ns.Base.{◌≡◌, List, [], append-nil, Bytes, Option, none, some, ok}
use native.Mathlib.Omega.{arith}
use afsim_ns.Tcp.Queue.{Client, TcpClientConfig, new_client, normalize, queue_initial, queue_delta}
use afsim_ns.Tcp.Worker.{
  Phase, no_thread, connecting, dialing, pausing, opening, closing, finished, top, entered, sending,
  receiving, World, Step, initial_world,
}
use afsim_ns.Tcp.Sync.Outgoing.{FitsPhase, HoldsNothing, HoldsNothing→, replay}
use afsim_ns.Tcp.Sync.Steps.{IsSynced, Step-IsSynced, queue_initial-IsSynced, queue_delta-IsSynced}
use afsim_ns.Tcp.Sync.Blank.{NothingOut, IsBlank, Step-IsBlank}

new_client-empty :
    (config : TcpClientConfig) (c : Client)
    → new_client config ≡ ok c
    → (c.pending ≡ []) × (c.resync ≡ [])
unfolding new_client
new_client-empty config c e = ground arith

fits : (p : Phase) (delivered : List Bytes) → NothingOut p delivered → FitsPhase p
fits no_thread d h = tt
fits connecting d h = tt
fits dialing d h = tt
fits pausing d h = tt
fits opening d h = tt
fits closing d h = tt
fits (entered c) d h = tt
fits finished d h = tt
fits (top c) d h = tt
fits (sending c) d h = absurd h
fits (receiving c) d h = h.0

-- The server is any function `apply` of its state and a line. A line may be queued as a snapshot
-- of `goal` if it leads there from every state, and as a delta from one state to the next.
module _ {S : Type 0} (apply : S → Bytes → S) where
  pub data History : Option S → World → Type 0 where
    created :
        (config : TcpClientConfig) (c : Client)
        → new_client config ≡ ok c
        → History none (initial_world c)
    stepped : {goal : Option S} {w v : World} → History goal w → Step w v → History goal v
    initial_queued :
        {goal : Option S} {w : World} (next : S) (json : Bytes)
        → History goal w
        → ((x : S) → apply x (normalize json) ≡ next)
        → History (some next) (record w { client = queue_initial json w.client })
    delta_queued :
        {goal : S} {w : World} (next : S) (json snapshot : Bytes)
        → History (some goal) w
        → apply goal (normalize json) ≡ next
        → ((x : S) → apply x (normalize snapshot) ≡ next)
        → History (some next) (record w { client = (queue_delta json snapshot w.client).0 })

  abbrev pub Tracks : Option S → World → Type 0
  Tracks none w = IsBlank w
  Tracks (some goal) w = IsSynced apply goal w

  IsBlank-FitsPhase : (w : World) → IsBlank w → FitsPhase w.phase
  IsBlank-FitsPhase w h = fits w.phase w.delivered h.nothing_out

  Tracks-FitsPhase : (goal : Option S) (w : World) → Tracks goal w → FitsPhase w.phase
  Tracks-FitsPhase none w h = IsBlank-FitsPhase w h
  Tracks-FitsPhase (some goal) w h = h.fits

  Step-Tracks : (goal : Option S) {w v : World} → Step w v → Tracks goal w → Tracks goal v
  Step-Tracks none st h = Step-IsBlank st h
  Step-Tracks (some goal) st h = Step-IsSynced apply goal st h

  pub History-Tracks : {goal : Option S} {w : World} → History goal w → Tracks goal w
  History-Tracks (created config c e) =
      let (p, r) = new_client-empty config c e in
      record { no_resync = r; no_pending = p; nothing_out = tt }
  History-Tracks {goal} (stepped h st) = Step-Tracks goal st (History-Tracks h)
  History-Tracks (initial_queued {goal} {w} next json h a) =
      queue_initial-IsSynced apply next json w (Tracks-FitsPhase goal w (History-Tracks h)) a
  History-Tracks (delta_queued {goal} {w} next json snapshot h k a) =
      queue_delta-IsSynced apply goal next json snapshot w (History-Tracks h) k a

  -- Take any history of queueing calls, of connections that come and go, of lines sent, failed and
  -- received, in which each queued line leads where its caller says. Whenever the worker is in the
  -- loop of a connection and neither holds a line nor has one in the queue, a server that has
  -- handled the lines of this connection is in the state that was queued last, whatever its state
  -- was when the connection began.
  pub synchronised :
      {goal : S} {w : World}
      → History (some goal) w
      → HoldsNothing w.phase
      → w.client.pending ≡ []
      → (x : S) → replay apply x w.delivered ≡ goal
  synchronised {goal} {w} h p q x =
      let (up, none_held) = HoldsNothing→ w.phase p in
      rw (none_held, q, append-nil) at ((History-Tracks h).arrives x up)
