-- ===== src/Tcp/Sync/Stopping.antt =====
-- What the worker still does when a stop has been requested, whatever the socket answers.
use afsim_ns.Base.{ℕ, suc, ◌<◌, ◌≡◌, Bool, true, false, Bytes}
use afsim_ns.Tcp.Queue.{queue_initial, queue_delta}
use afsim_ns.Tcp.Worker.{
  Phase, no_thread, connecting, dialing, pausing, opening, closing, finished, top, entered, sending,
  receiving, World, Step, starts, stop_requested, joined,
}

-- `Start` and `Stop` are steps of other threads.
abbrev pub is_worker : {w v : World} → Step w v → Bool
is_worker (starts r p) = false
is_worker stop_requested = false
is_worker (joined p) = false
is_worker _ = true

-- From one world to another with this many steps of the worker, while other threads may queue.
pub data Runs (w : World) : ℕ → World → Type 0 where
  here : Runs w 0 w
  works :
      {n : ℕ} {v u : World} → Runs w n v → (st : Step v u) → is_worker st ≡ true → Runs w (suc n) u
  queues_initial :
      {n : ℕ} {v : World} (json : Bytes)
      → Runs w n v
      → Runs w n (record v { client = queue_initial json v.client })
  queues_delta :
      {n : ℕ} {v : World} (json snapshot : Bytes)
      → Runs w n v
      → Runs w n (record v { client = (queue_delta json snapshot v.client).0 })

-- The steps that are left at most.
abbrev steps_left : Phase → ℕ
steps_left no_thread = 0
steps_left finished = 0
steps_left connecting = 1
steps_left pausing = 2
steps_left closing = 2
steps_left (top c) = 3
steps_left (receiving c) = 4
steps_left opening = 4
steps_left (sending c) = 5
steps_left dialing = 5
steps_left (entered c) = 6

-- The client is stopped, and a step of the worker has been used up.
record Descends (w v : World) : Type 0 where
  stopped : v.client.running ≡ false
  fewer : steps_left v.phase < steps_left w.phase

-- A step of the worker.
abbrev pub CanWork : World → Type 0
CanWork w = (v : World) × (st : Step w v) × (is_worker st ≡ true)
