-- ===== src/Tcp/Sync/Outgoing.antt =====
-- The lines that a connection carries: sent, held by the worker, and in the queue.
use afsim_ns.Base.{
  ℕ, ◌≡◌, ◌≢◌, refl, Bool, true, false, List, [], ◌∷◌, ◌++◌, append_assoc, Bytes, arith, All,
}
use afsim_ns.Tcp.Queue.{normalize, trim_breaks}
use afsim_ns.Tcp.Worker.{
  Connection, Phase, top, entered, sending, receiving, World, no_thread, connecting, dialing,
  pausing, opening, closing, finished, end_connection, take_pending, line_sent,
}

-- The line that the worker holds and has not sent.
abbrev pub held : Bytes → List Bytes
held [] = []
held (c ∷ line) = (c ∷ line) ∷ []

abbrev pub current_of : Phase → List Bytes
current_of (top c) = held c.current
current_of (entered c) = held c.current
current_of (sending c) = held c.current
current_of _ = []

abbrev pub is_connected : Phase → Bool
is_connected (top c) = true
is_connected (entered c) = true
is_connected (sending c) = true
is_connected (receiving c) = true
is_connected _ = false

-- The worker is on a connection and holds no line.
abbrev pub HoldsNothing : Phase → Type 0
HoldsNothing (top c) = c.current ≡ []
HoldsNothing (entered c) = c.current ≡ []
HoldsNothing (receiving c) = c.current ≡ []
HoldsNothing _ = ⊥

pub HoldsNothing→ : (p : Phase) → HoldsNothing p → (is_connected p ≡ true) × (current_of p ≡ [])
HoldsNothing→ (top c) h = (refl, rw h refl)
HoldsNothing→ (entered c) h = (refl, rw h refl)
HoldsNothing→ (receiving c) h = (refl, refl)
HoldsNothing→ (sending c) h = elim h [ ]
HoldsNothing→ no_thread h = elim h [ ]
HoldsNothing→ connecting h = elim h [ ]
HoldsNothing→ dialing h = elim h [ ]
HoldsNothing→ pausing h = elim h [ ]
HoldsNothing→ opening h = elim h [ ]
HoldsNothing→ closing h = elim h [ ]
HoldsNothing→ finished h = elim h [ ]

-- All that the server has got on this connection, or will get if the connection holds.
abbrev pub outgoing : World → List Bytes
outgoing w = w.delivered ++ (current_of w.phase ++ w.client.pending)

-- `receiving` and `sending` hold what `ProcessConnection` has tested.
abbrev pub FitsPhase : Phase → Type 0
FitsPhase (receiving c) = c.current ≡ []
FitsPhase (sending c) = c.current ≢ []
FitsPhase _ = Unit {0}

pub append-ne-nil : (xs : Bytes) (c : ℕ) → xs ++ c ∷ [] ≢ []
append-ne-nil [] c e = cc
append-ne-nil (x ∷ xs) c e = cc

pub normalize-ne-nil : (json : Bytes) → normalize json ≢ []
unfolding normalize
normalize-ne-nil json = append-ne-nil (trim_breaks json) b'\n'

pub held-of_ne_nil : (line : Bytes) → line ≢ [] → held line ≡ line ∷ []
held-of_ne_nil [] h = absurd (h refl)
held-of_ne_nil (c ∷ line) h = refl

-- What `take_next` takes is what it holds then.
pub outgoing-take_pending :
    (received current : Bytes) (pending : List Bytes) (w : World)
    → All (λ line. line ≢ []) pending
    → w.client.pending ≡ pending
    → outgoing (take_pending received current pending w) ≡ w.delivered ++ (held current ++ pending)
unfolding take_pending
outgoing-take_pending received (c ∷ line) pending w h e = rw e
outgoing-take_pending received [] [] w h e = rw e
outgoing-take_pending received [] ([] ∷ pending) w h e = absurd (h.0 refl)
outgoing-take_pending received [] ((c ∷ front) ∷ pending) w h e = refl

pub outgoing-line_sent :
    (c : Connection) (w : World)
    → w.phase ≡ sending c
    → c.current ≢ []
    → outgoing (line_sent c w) ≡ outgoing w
unfolding line_sent
outgoing-line_sent c w e h =
    rw (e, held-of_ne_nil c.current h) (append_assoc w.delivered (c.current ∷ []) w.client.pending)

pub end-phase :
    (w : World)
    → FitsPhase (end_connection w).phase × (is_connected (end_connection w).phase ≡ false)
unfolding end_connection
end-phase w = ground arith

module _ {S : Type 0} (apply : S → Bytes → S) where
  abbrev pub replay : S → List Bytes → S
  replay s [] = s
  replay s (line ∷ lines) = replay (apply s line) lines

  pub replay-append : (s : S) (xs ys : List Bytes) → replay s (xs ++ ys) ≡ replay (replay s xs) ys
  replay-append s [] ys = refl
  replay-append s (x ∷ xs) ys = replay-append (apply s x) xs ys
