-- ===== src/Tcp/Sync/Blank.antt =====
-- Before the first state is queued nothing goes out.
use afsim_ns.Base.{◌≡◌, inl, inr, refl, List, [], ◌∷◌, ◌++◌, Bytes, arith, length, ltb, Bool-cases}
use afsim_ns.Tcp.Worker.{
  Connection, Phase, top, entered, sending, receiving, World, Step, starts, dials, begins, enters,
  ends, stop_requested, joined, quits, refused, opened, woken, leaves, takes, sends, fails, idles,
  receives, closes, end_connection, open_connection, begin_connection, take_next, take_pending,
  bytes_received, start, request_stop, join, receive_limit,
}

abbrev pub NothingOut : Phase → List Bytes → Type 0
NothingOut (top c) delivered = (c.current ≡ []) × (delivered ≡ [])
NothingOut (entered c) delivered = (c.current ≡ []) × (delivered ≡ [])
NothingOut (receiving c) delivered = (c.current ≡ []) × (delivered ≡ [])
NothingOut (sending c) delivered = ⊥
NothingOut _ delivered = Unit {0}

pub record IsBlank (w : World) : Type 0 where
  pub no_resync : w.client.resync ≡ []
  pub no_pending : w.client.pending ≡ []
  pub nothing_out : NothingOut w.phase w.delivered

end_connection-IsBlank :
    (w : World) → w.client.resync ≡ [] → w.client.pending ≡ [] → IsBlank (end_connection w)
unfolding end_connection
end_connection-IsBlank w r q = record { no_resync = r; no_pending = q; nothing_out = ground arith }

take_pending-IsBlank :
    (received current : Bytes) (pending : List Bytes) (w : World)
    → current ≡ []
    → pending ≡ []
    → w.delivered ≡ []
    → w.client.resync ≡ []
    → w.client.pending ≡ []
    → IsBlank (take_pending received current pending w)
unfolding take_pending
take_pending-IsBlank received [] [] w e f g r q = record {
  no_resync = r;
  no_pending = q;
  nothing_out = (refl, g);
}
take_pending-IsBlank received (c ∷ current) pending w e f g r q = cc
take_pending-IsBlank received [] (c ∷ pending) w e f g r q = cc

bytes_received-IsBlank :
    (c : Connection) (chunk : Bytes) (w : World)
    → c.current ≡ []
    → w.delivered ≡ []
    → w.client.resync ≡ []
    → w.client.pending ≡ []
    → IsBlank (bytes_received chunk c w)
unfolding bytes_received
bytes_received-IsBlank c chunk w e g r q =
    elim (Bool-cases (ltb receive_limit (length (c.received ++ chunk)))) [
      | inl over ↦ rw over (record { no_resync = r; no_pending = q; nothing_out = tt })
      | inr fine ↦ rw fine (record { no_resync = r; no_pending = q; nothing_out = (e, g) })
    ]

away-IsBlank :
    (w v : World)
    → IsBlank w
    → v.client.resync ≡ w.client.resync
    → v.client.pending ≡ w.client.pending
    → NothingOut v.phase v.delivered
    → IsBlank v
away-IsBlank w v h r q n = record {
  no_resync = rw r h.no_resync;
  no_pending = rw q h.no_pending;
  nothing_out = n;
}

-- With nothing queued no line is ever held, so none is sent and none fails.
pub Step-IsBlank : {w v : World} → Step w v → IsBlank w → IsBlank v
unfolding start request_stop join open_connection begin_connection take_next
Step-IsBlank {w} (starts r p) h = away-IsBlank w _ h refl refl tt
Step-IsBlank {w} stop_requested h = away-IsBlank w _ h refl refl h.nothing_out
Step-IsBlank {w} (joined p) h = away-IsBlank w _ h refl refl tt
Step-IsBlank {w} (quits p r) h = away-IsBlank w _ h refl refl tt
Step-IsBlank {w} (refused p) h = away-IsBlank w _ h refl refl tt
Step-IsBlank {w} (dials p r) h = away-IsBlank w _ h refl refl tt
Step-IsBlank {w} (opened p) h = away-IsBlank w _ h refl refl tt
Step-IsBlank {w} (begins p) h = record {
  no_resync = h.no_resync;
  no_pending = refl;
  nothing_out = (h.no_resync, refl);
}
Step-IsBlank {w} (woken p) h = away-IsBlank w _ h refl refl tt
Step-IsBlank {w} (leaves c p r) h = away-IsBlank w _ h refl refl tt
Step-IsBlank {w} (enters c p r) h = away-IsBlank w _ h refl refl (rw p at h.nothing_out)
Step-IsBlank {w} (takes c p) h =
    let out = (rw p at h.nothing_out) in
    take_pending-IsBlank c.received c.current w.client.pending w out.0 h.no_pending out.1
      h.no_resync h.no_pending
Step-IsBlank {w} (sends c p) h = absurd (rw p at h.nothing_out)
Step-IsBlank {w} (fails c p) h = absurd (rw p at h.nothing_out)
Step-IsBlank {w} (idles c p) h = away-IsBlank w _ h refl refl (rw p at h.nothing_out)
Step-IsBlank {w} (receives c chunk p n) h =
    let out = (rw p at h.nothing_out) in
    bytes_received-IsBlank c chunk w out.0 out.1 h.no_resync h.no_pending
Step-IsBlank {w} (closes c p) h = away-IsBlank w _ h refl refl tt
Step-IsBlank {w} (ends p) h = end_connection-IsBlank w h.no_resync h.no_pending
