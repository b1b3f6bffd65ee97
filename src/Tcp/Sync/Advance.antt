-- ===== src/Tcp/Sync/Advance.antt =====
-- The steps of the worker in the loop of a connection that takes every line.
use afsim_ns.Base.{ℕ, zero, suc, ◌≡◌, refl, sym, subst, true, List, [], ◌∷◌, Bytes, if◌then◌else◌}
use afsim_ns.Tcp.Worker.{
  Phase, no_thread, connecting, dialing, pausing, opening, closing, finished, top, entered, sending,
  receiving, World, Step, takes, enters, sends, idles, take_pending, take_next, line_sent,
}
use afsim_ns.Tcp.Sync.Outgoing.{is_connected}

-- The next step of the worker in the loop of `ProcessConnection`: `mRunning` is tested, a line is
-- sent whole, and `recv` has no bytes.
abbrev pub advance_at : Phase → World → World
advance_at (top c) w = record w { phase = if w.client.running then entered c else closing }
advance_at (entered c) w = take_next c w
advance_at (sending c) w = line_sent c w
advance_at (receiving c) w = record w { phase = top c }
advance_at no_thread w = w
advance_at connecting w = w
advance_at dialing w = w
advance_at pausing w = w
advance_at opening w = w
advance_at closing w = w
advance_at finished w = w

abbrev pub advance : World → World
advance w = advance_at w.phase w

abbrev pub advances : ℕ → World → World
advances zero w = w
advances (suc n) w = advances n (advance w)

-- On a connection of a client that runs.
pub record IsUp (w : World) : Type 0 where
  pub running : w.client.running ≡ true
  pub connected : is_connected w.phase ≡ true

pub advance_at-Step :
    (p : Phase) (w : World)
    → w.phase ≡ p
    → is_connected p ≡ true
    → w.client.running ≡ true
    → Step w (advance_at p w)
advance_at-Step (top c) w e h r =
    subst (λ b. Step w (record w { phase = if b then entered c else closing })) (sym r)
      (enters c e r)
advance_at-Step (entered c) w e h r = takes c e
advance_at-Step (sending c) w e h r = sends c e
advance_at-Step (receiving c) w e h r = idles c e
advance_at-Step no_thread w e h r = cc
advance_at-Step connecting w e h r = cc
advance_at-Step dialing w e h r = cc
advance_at-Step pausing w e h r = cc
advance_at-Step opening w e h r = cc
advance_at-Step closing w e h r = cc
advance_at-Step finished w e h r = cc

take_pending-IsUp :
    (received current : Bytes) (pending : List Bytes) (w : World)
    → w.client.running ≡ true
    → IsUp (take_pending received current pending w)
unfolding take_pending
take_pending-IsUp received (c ∷ line) pending w r = record { running = r; connected = refl }
take_pending-IsUp received [] [] w r = record { running = r; connected = refl }
take_pending-IsUp received [] ([] ∷ pending) w r = record { running = r; connected = refl }
take_pending-IsUp received [] ((c ∷ front) ∷ pending) w r = record { running = r; connected = refl }

pub advance_at-IsUp :
    (p : Phase) (w : World)
    → is_connected p ≡ true
    → w.client.running ≡ true
    → IsUp (advance_at p w)
unfolding take_next line_sent
advance_at-IsUp (top c) w h r = record { running = r; connected = rw r refl }
advance_at-IsUp (entered c) w h r = take_pending-IsUp c.received c.current w.client.pending w r
advance_at-IsUp (sending c) w h r = record { running = r; connected = refl }
advance_at-IsUp (receiving c) w h r = record { running = r; connected = refl }
advance_at-IsUp no_thread w h r = cc
advance_at-IsUp connecting w h r = cc
advance_at-IsUp dialing w h r = cc
advance_at-IsUp pausing w h r = cc
advance_at-IsUp opening w h r = cc
advance_at-IsUp closing w h r = cc
advance_at-IsUp finished w h r = cc
