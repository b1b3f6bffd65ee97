-- ===== src/Tcp/Sync/Steps.antt =====
-- Each step keeps the promise of the queue: a server that has handled all that goes out has the
-- state that was queued last.
use afsim_ns.Base.{
  ◌≡◌, ◌≢◌, inl, inr, refl, sym, ap, ◌∙◌, true, false, List, [], ◌∷◌, ◌++◌, append_assoc, Bytes,
  All, All-append, length, leb, ltb, Bool-cases,
}
use afsim_ns.Tcp.Queue.{normalize, queue_initial, queue_delta}
use afsim_ns.Tcp.Worker.{
  Connection, entered, sending, receiving, World, Step, starts, stop_requested, joined, quits,
  dials, refused, opened, woken, begins, leaves, enters, takes, sends, fails, idles, receives,
  closes, ends, closing, end_connection, open_connection, begin_connection, take_next, take_pending,
  line_sent, send_failed, bytes_received, start, request_stop, join, receive_limit,
}
use afsim_ns.Tcp.Sync.Outgoing.{
  current_of, is_connected, outgoing, FitsPhase, normalize-ne-nil, held-of_ne_nil,
  outgoing-take_pending, outgoing-line_sent, end-phase, replay, replay-append,
}

module _ {S : Type 0} (apply : S → Bytes → S) where
  pub snapshot_last :
      {goal : S} (x : S) (xs ys : List Bytes) (line : Bytes)
      → ((y : S) → apply y line ≡ goal)
      → replay apply x (xs ++ (ys ++ line ∷ [])) ≡ goal
  snapshot_last x xs ys line a =
      rw (replay-append apply x xs (ys ++ line ∷ []))
        (rw (replay-append apply (replay apply x xs) ys (line ∷ [])) (a _))

  pub record IsSynced (goal : S) (w : World) : Type 0 where
    pub fits : FitsPhase w.phase
    pub resync_ne_nil : w.client.resync ≢ []
    pub lines_ne_nil : All (λ line. line ≢ []) w.client.pending
    pub absolute : (x : S) → apply x w.client.resync ≡ goal
    pub arrives : (x : S) → is_connected w.phase ≡ true → replay apply x (outgoing w) ≡ goal

  pub take-FitsPhase :
      (received current : Bytes) (pending : List Bytes) (w : World)
      → FitsPhase (take_pending received current pending w).phase
  unfolding take_pending
  take-FitsPhase received (c ∷ line) pending w = λ e. cc
  take-FitsPhase received [] [] w = refl
  take-FitsPhase received [] ([] ∷ pending) w = refl
  take-FitsPhase received [] ((c ∷ front) ∷ pending) w = λ e. cc

  pub take-client :
      (received current : Bytes) (pending : List Bytes) (w : World)
      → w.client.pending ≡ pending
      → All (λ line. line ≢ []) pending
      → ((take_pending received current pending w).client.resync ≡ w.client.resync)
        × All (λ line. line ≢ []) (take_pending received current pending w).client.pending
  unfolding take_pending
  take-client received (c ∷ line) pending w e h = (refl, rw e h)
  take-client received [] [] w e h = (refl, rw e tt)
  take-client received [] (front ∷ pending) w e h = (refl, h.1)

  pub begin_connection-IsSynced :
      (goal : S) (w : World) → IsSynced goal w → IsSynced goal (begin_connection w)
  unfolding begin_connection
  begin_connection-IsSynced goal w h = record {
    fits = tt;
    resync_ne_nil = h.resync_ne_nil;
    lines_ne_nil = tt;
    absolute = h.absolute;
    arrives = λ x e. rw (held-of_ne_nil w.client.resync h.resync_ne_nil) (h.absolute x);
  }

  pub take_next-IsSynced :
      (goal : S) (c : Connection) (w : World)
      → w.phase ≡ entered c
      → IsSynced goal w
      → IsSynced goal (take_next c w)
  unfolding take_next
  take_next-IsSynced goal c w p h =
      let kept = take-client c.received c.current w.client.pending w refl h.lines_ne_nil in
      record {
        fits = take-FitsPhase c.received c.current w.client.pending w;
        resync_ne_nil = λ e. h.resync_ne_nil (sym kept.0 ∙ e);
        lines_ne_nil = kept.1;
        absolute = λ x. ap (apply x) kept.0 ∙ h.absolute x;
        arrives = λ x e.
            rw (outgoing-take_pending c.received c.current w.client.pending w h.lines_ne_nil refl)
              (rw p at (h.arrives x (rw p)));
      }

  pub line_sent-IsSynced :
      (goal : S) (c : Connection) (w : World)
      → w.phase ≡ sending c
      → IsSynced goal w
      → IsSynced goal (line_sent c w)
  line_sent-IsSynced goal c w p h =
      let current_ne_nil : c.current ≢ [] = (rw p at h.fits) in
      record {
        fits = unfold line_sent in refl;
        resync_ne_nil = unfold line_sent in h.resync_ne_nil;
        lines_ne_nil = unfold line_sent in h.lines_ne_nil;
        absolute = unfold line_sent in h.absolute;
        arrives = λ x e.
            ap (replay apply x) (outgoing-line_sent c w p current_ne_nil) ∙ h.arrives x (rw p);
      }

  -- Off the connection only the snapshot and the queue matter.
  pub away-IsSynced :
      (goal : S) (w : World)
      → IsSynced goal w
      → (v : World) → is_connected v.phase ≡ false
      → FitsPhase v.phase
      → v.client.resync ≡ w.client.resync
      → v.client.pending ≡ w.client.pending
      → IsSynced goal v
  away-IsSynced goal w h v p f r q = record {
    fits = f;
    resync_ne_nil = rw r h.resync_ne_nil;
    lines_ne_nil = rw q h.lines_ne_nil;
    absolute = rw r h.absolute;
    arrives = λ x e. cc;
  }

  pub bytes_received-IsSynced :
      (goal : S) (c : Connection) (chunk : Bytes) (w : World)
      → w.phase ≡ receiving c
      → IsSynced goal w
      → IsSynced goal (bytes_received chunk c w)
  unfolding bytes_received
  bytes_received-IsSynced goal c chunk w p h =
      let current_nil : c.current ≡ [] = (rw p at h.fits) in
      elim (Bool-cases (ltb receive_limit (length (c.received ++ chunk)))) [
        | inl over ↦
            rw over (away-IsSynced goal w h (record w { phase = closing }) refl tt refl refl)
        | inr fine ↦ rw fine (record {
          fits = tt;
          resync_ne_nil = h.resync_ne_nil;
          lines_ne_nil = h.lines_ne_nil;
          absolute = h.absolute;
          arrives = λ x e. rw current_nil (rw p at (h.arrives x (rw p)));
        })
      ]

  pub Step-IsSynced : (goal : S) {w v : World} → Step w v → IsSynced goal w → IsSynced goal v
  unfolding start request_stop join open_connection send_failed end_connection
  Step-IsSynced goal {w} (starts r p) h = away-IsSynced goal w h _ refl tt refl refl
  Step-IsSynced goal stop_requested h = record {
    fits = h.fits;
    resync_ne_nil = h.resync_ne_nil;
    lines_ne_nil = h.lines_ne_nil;
    absolute = h.absolute;
    arrives = h.arrives;
  }
  Step-IsSynced goal {w} (joined p) h = away-IsSynced goal w h _ refl tt refl refl
  Step-IsSynced goal {w} (quits p r) h = away-IsSynced goal w h _ refl tt refl refl
  Step-IsSynced goal {w} (dials p r) h = away-IsSynced goal w h _ refl tt refl refl
  Step-IsSynced goal {w} (refused p) h = away-IsSynced goal w h _ refl tt refl refl
  Step-IsSynced goal {w} (opened p) h = away-IsSynced goal w h _ refl tt refl refl
  Step-IsSynced goal {w} (woken p) h = away-IsSynced goal w h _ refl tt refl refl
  Step-IsSynced goal {w} (begins p) h = begin_connection-IsSynced goal w h
  Step-IsSynced goal {w} (leaves c p r) h = away-IsSynced goal w h _ refl tt refl refl
  Step-IsSynced goal (enters c p r) h = record {
    fits = tt;
    resync_ne_nil = h.resync_ne_nil;
    lines_ne_nil = h.lines_ne_nil;
    absolute = h.absolute;
    arrives = λ x e. rw p at (h.arrives x (rw p));
  }
  Step-IsSynced goal {w} (takes c p) h = take_next-IsSynced goal c w p h
  Step-IsSynced goal {w} (sends c p) h = line_sent-IsSynced goal c w p h
  Step-IsSynced goal {w} (fails c p) h = record {
    fits = tt;
    resync_ne_nil = h.resync_ne_nil;
    lines_ne_nil = ((rw p at h.fits), h.lines_ne_nil);
    absolute = h.absolute;
    arrives = λ x e. cc;
  }
  Step-IsSynced goal (idles c p) h = record {
    fits = tt;
    resync_ne_nil = h.resync_ne_nil;
    lines_ne_nil = h.lines_ne_nil;
    absolute = h.absolute;
    arrives = λ x e.
        let current_nil : c.current ≡ [] = (rw p at h.fits) in
        rw current_nil (rw p at (h.arrives x (rw p)));
  }
  Step-IsSynced goal {w} (receives c chunk p n) h = bytes_received-IsSynced goal c chunk w p h
  Step-IsSynced goal {w} (closes c p) h = away-IsSynced goal w h _ refl tt refl refl
  Step-IsSynced goal {w} (ends p) h =
      away-IsSynced goal w h (end_connection w) (end-phase w).1 (end-phase w).0 refl refl

  pub queue_initial-IsSynced :
      (goal : S) (json : Bytes) (w : World)
      → FitsPhase w.phase
      → ((x : S) → apply x (normalize json) ≡ goal)
      → IsSynced goal (record w { client = queue_initial json w.client })
  unfolding queue_initial
  queue_initial-IsSynced goal json w f a = record {
    fits = f;
    resync_ne_nil = normalize-ne-nil json;
    lines_ne_nil = (normalize-ne-nil json, tt);
    absolute = a;
    arrives = λ x e. snapshot_last x w.delivered (current_of w.phase) (normalize json) a;
  }

  pub delta_last :
      {goal next : S} (x : S) (xs ys zs : List Bytes) (line : Bytes)
      → replay apply x (xs ++ (ys ++ zs)) ≡ goal
      → apply goal line ≡ next
      → replay apply x (xs ++ (ys ++ (zs ++ line ∷ []))) ≡ next
  delta_last x xs ys zs line h k =
      rw
        (
          ← append_assoc ys zs (line ∷ []),
          ← append_assoc xs (ys ++ zs) (line ∷ []),
          replay-append apply x (xs ++ (ys ++ zs)) (line ∷ []),
          h,
        )
        k

  pub queue_delta-IsSynced :
      (goal next : S) (json snapshot : Bytes) (w : World)
      → IsSynced goal w
      → apply goal (normalize json) ≡ next
      → ((x : S) → apply x (normalize snapshot) ≡ next)
      → IsSynced next (record w { client = (queue_delta json snapshot w.client).0 })
  unfolding queue_delta
  queue_delta-IsSynced goal next json snapshot w h k a =
      elim (Bool-cases (leb w.client.config.max_pending_messages (length w.client.pending))) [
        | inl over ↦ rw over (record {
          fits = h.fits;
          resync_ne_nil = normalize-ne-nil snapshot;
          lines_ne_nil = (normalize-ne-nil snapshot, tt);
          absolute = a;
          arrives = λ x e. snapshot_last x w.delivered (current_of w.phase) (normalize snapshot) a;
        })
        | inr room ↦ rw room (record {
          fits = h.fits;
          resync_ne_nil = normalize-ne-nil snapshot;
          lines_ne_nil =
              All-append _ w.client.pending (normalize json ∷ []) h.lines_ne_nil
                (normalize-ne-nil json, tt);
          absolute = a;
          arrives = λ x e.
              delta_last x w.delivered (current_of w.phase) w.client.pending (normalize json)
                (h.arrives x e) k;
        })
      ]
