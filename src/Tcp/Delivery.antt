-- ===== src/Tcp/Delivery.antt =====
-- What `SendAll` promises.
use afsim_ns.Base.{
  ℕ, ◌+◌, ◌≡◌, ◌≢◌, refl, sym, ap, ◌∙◌, Bool, true, false, List, [], ◌∷◌, ◌++◌, append_assoc, Bytes,
  Option, none, some, arith, leb, leb→le, length, take, drop, take-append-drop, drop-drop, drop-all,
  length-drop, Bool-cases, inl, inr,
}
use afsim_ns.Tcp.Send.{
  SocketAnswer, wait_failed, written, would_block, send_error, send_from, send_all,
}

-- The bytes that the socket took are the head of the text; it took all exactly when the result
-- is true.
record Sends (text : Bytes) (r : Bytes × Option Bool) : Type 0 where
  rest : Bytes
  split : text ≡ r.0 ++ rest
  whole : r.1 ≡ some true → rest ≡ []
  part : r.1 ≡ some false → rest ≢ []

send_from-written :
    (n : ℕ) (text : Bytes) (r : Bytes × Option Bool)
    → Sends (drop n text) r
    → Sends text (take n text ++ r.0, r.1)
send_from-written n text r h = record {
  rest = h.rest;
  split =
      sym (take-append-drop n text)
      ∙ ap (λ s. take n text ++ s) h.split
      ∙ sym (append_assoc (take n text) r.0 h.rest);
  whole = h.whole;
  part = h.part;
}

drop-ne-nil : (n : ℕ) (text : Bytes) → leb (length text) n ≡ false → drop n text ≢ []
drop-ne-nil n text h e = ground (arith, length-drop n text, ap length e)

-- The loop ends before this round.
at_end :
    (sent : ℕ) (message : Bytes)
    → leb (length message) sent ≡ true
    → Sends (drop sent message) ([], some true)
at_end sent message e = record {
  rest = [];
  split = drop-all sent message (leb→le _ _ e);
  whole = λ _. refl;
  part = λ h. cc;
}

-- The loop fails in this round, and nothing more is taken.
given_up :
    (sent : ℕ) (message : Bytes)
    → leb (length message) sent ≡ false
    → Sends (drop sent message) ([], some false)
given_up sent message e = record {
  rest = drop sent message;
  split = refl;
  whole = λ h. cc;
  part = λ _. drop-ne-nil sent message e;
}

send_from-Sends :
    (answers : List SocketAnswer) (message : Bytes) (sent : ℕ)
    → Sends (drop sent message) (send_from answers message sent)
unfolding send_from
send_from-Sends [] message sent = elim (Bool-cases (leb (length message) sent)) [
  | inl e ↦ rw e (at_end sent message e)
  | inr e ↦
      rw e (record { rest = drop sent message; split = refl; whole = λ h. cc; part = λ h. cc })
]
send_from-Sends (wait_failed ∷ answers) message sent =
    elim (Bool-cases (leb (length message) sent)) [
      | inl e ↦ rw (e, send_from) (at_end sent message e)
      | inr e ↦ rw (e, send_from) (given_up sent message e)
    ]
send_from-Sends (written n ∷ answers) message sent = elim (Bool-cases (leb (length message) sent)) [
  | inl e ↦ rw (e, send_from) (at_end sent message e)
  | inr e ↦
      rw (e, send_from)
        (send_from-written n (drop sent message) (send_from answers message (sent + n))
          (rw (drop-drop sent n message) (send_from-Sends answers message (sent + n))))
]
send_from-Sends (would_block ∷ answers) message sent =
    elim (Bool-cases (leb (length message) sent)) [
      | inl e ↦ rw (e, send_from) (at_end sent message e)
      | inr e ↦ rw (e, send_from) (send_from-Sends answers message sent)
    ]
send_from-Sends (send_error ∷ answers) message sent =
    elim (Bool-cases (leb (length message) sent)) [
      | inl e ↦ rw (e, send_from) (at_end sent message e)
      | inr e ↦ rw (e, send_from) (given_up sent message e)
    ]

-- What is left when `SendAll` has returned, or while it still waits for answers.
abbrev pub IsLeft : Option Bool → Bytes → Type 0
IsLeft (some true) rest = rest ≡ []
IsLeft (some false) rest = rest ≢ []
IsLeft none rest = Unit {0}

IsLeft-by :
    (r : Option Bool) (rest : Bytes)
    → (r ≡ some true → rest ≡ [])
    → (r ≡ some false → rest ≢ [])
    → IsLeft r rest
IsLeft-by (some true) rest h k = h refl
IsLeft-by (some false) rest h k = k refl
IsLeft-by none rest h k = tt

-- Whatever the socket answers, the bytes that it took are the head of the message, with none
-- twice and none left out. If `SendAll` returns true they are the whole message, and if it returns
-- false a part of the message has not been taken.
pub send_all_prefix :
    (answers : List SocketAnswer) (message : Bytes)
    → (rest : Bytes) × (message ≡ (send_all answers message).0 ++ rest)
      × IsLeft (send_all answers message).1 rest
unfolding send_all
send_all_prefix answers message =
    let s = send_from-Sends answers message 0 in
    (s.rest, s.split, IsLeft-by _ s.rest s.whole s.part)
