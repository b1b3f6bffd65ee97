-- ===== src/Tcp/Connect.antt =====
-- `Connect` and `CloseSocket`, with what the system says of each address.
use afsim_ns.Base.{
  ℕ, ◌≡◌, refl, Bool, true, false, ◌&&◌, ◌||◌, ◌⊎◌, List, [], ◌∷◌, ◌++◌, Option, none, some, All,
  Bool-cases, inl, inr, if◌then◌else◌, ap, subst,
}

-- The answers of the calls for one address that `getaddrinfo` gave. A call that is not made has an
-- answer that is not looked at.
pub record Candidate : Type 0 where
  -- `socket`; `none` stands for `InvalidSocket`
  pub handle : Option ℕ
  pub set_non_blocking : Bool
  -- `connect(...) == 0`
  pub connects_at_once : Bool
  pub would_block : Bool
  -- `WaitSocket` for the configured time
  pub is_writable : Bool
  pub connection_succeeded : Bool

-- The socket that `Connect` returns, and those that it has closed, in order.
pub record Sockets : Type 0 where
  pub connected : Option ℕ
  pub closed : List ℕ

-- `CloseSocket` on a list of closed sockets
abbrev pub close_socket : Option ℕ → List ℕ → List ℕ
close_socket none closed = closed
close_socket (some handle) closed = handle ∷ closed

unfoldable pub is_usable : Candidate → Bool
is_usable c =
    c.set_non_blocking
    && (c.connects_at_once || (c.would_block && c.is_writable && c.connection_succeeded))

-- The body of the loop, with what the rounds behind it do.
unfoldable pub try_candidate : Candidate → Option ℕ → Sockets → Sockets
unfolding is_usable
try_candidate c none rest = record rest { closed = close_socket none rest.closed }
try_candidate c (some handle) rest =
    if is_usable c
    then record { connected = some handle; closed = [] }
    else record rest { closed = close_socket (some handle) rest.closed }

-- The loop over the addresses, which ends at the first connected one.
unfoldable pub connect_from : List Candidate → Sockets
unfolding try_candidate
connect_from [] = record { connected = none; closed = [] }
connect_from (c ∷ candidates) = try_candidate c c.handle (connect_from candidates)

-- `none` where `getaddrinfo` fails.
unfoldable pub connect : Option (List Candidate) → Sockets
unfolding connect_from
connect none = record { connected = none; closed = [] }
connect (some candidates) = connect_from candidates

-- The sockets that the calls for these addresses opened.
abbrev pub opened_by : List Candidate → List ℕ
opened_by [] = []
opened_by (c ∷ candidates) = close_socket c.handle (opened_by candidates)

-- The address has a socket, and it connects.
abbrev pub Connects : Candidate → ℕ → Type 0
Connects c handle = (c.handle ≡ some handle) × (is_usable c ≡ true)

abbrev pub Fails : Candidate → Type 0
Fails c = (c.handle ≡ none) ⊎ (is_usable c ≡ false)

-- The first address that connects gives the socket, and what was opened before it is closed.
abbrev pub IsFirst : List Candidate → Option ℕ → List ℕ → Type 0
IsFirst candidates none closed = All Fails candidates × (closed ≡ opened_by candidates)
IsFirst candidates (some handle) closed =
    (front : List Candidate) × (c : Candidate) × (back : List Candidate) × (candidates
      ≡ front ++ c ∷ back)
    × All Fails front
    × Connects c handle
    × (closed ≡ opened_by front)

extend-IsFirst :
    (c : Candidate) (candidates : List Candidate) (connected : Option ℕ) (closed : List ℕ)
    → Fails c
    → IsFirst candidates connected closed
    → IsFirst (c ∷ candidates) connected (close_socket c.handle closed)
extend-IsFirst c candidates none closed f (fails, e) = ((f, fails), ap (close_socket c.handle) e)
extend-IsFirst c candidates (some handle) closed f (front, one, back, split, fails, connects, e) = (
  c ∷ front,
  one,
  back,
  ap (λ l. c ∷ l) split,
  (f, fails),
  connects,
  ap (close_socket c.handle) e,
)

try_candidate-IsFirst :
    (c : Candidate) (candidates : List Candidate) (handle : Option ℕ) (rest : Sockets)
    → c.handle ≡ handle
    → IsFirst candidates rest.connected rest.closed
    → IsFirst
        (c ∷ candidates)
        (try_candidate c handle rest).connected
        (try_candidate c handle rest).closed
unfolding try_candidate
try_candidate-IsFirst c candidates none rest e h =
    subst (λ x. IsFirst (c ∷ candidates) rest.connected (close_socket x rest.closed)) e
      (extend-IsFirst c candidates rest.connected rest.closed (inl e) h)
try_candidate-IsFirst c candidates (some handle) rest e h = elim (Bool-cases (is_usable c)) [
  | inl b ↦ rw (b, try_candidate) ([], c, candidates, refl, tt, (e, b), refl)
  | inr b ↦
      rw (b, try_candidate)
        (subst (λ x. IsFirst (c ∷ candidates) rest.connected (close_socket x rest.closed)) e
          (extend-IsFirst c candidates rest.connected rest.closed (inr b) h))
]

connect_from-IsFirst :
    (candidates : List Candidate)
    → IsFirst candidates (connect_from candidates).connected (connect_from candidates).closed
unfolding connect_from
connect_from-IsFirst [] = (tt, refl)
connect_from-IsFirst (c ∷ candidates) =
    try_candidate-IsFirst c candidates c.handle (connect_from candidates) refl
      (connect_from-IsFirst candidates)

-- Connecting leaks no socket. The result is the socket of the first address that connects, and the
-- sockets that were closed are exactly those that the addresses before it opened, in their order.
-- If no address connects there is no result, and every socket that was opened is closed.
pub connect_lem :
    (candidates : List Candidate)
    → IsFirst candidates (connect (some candidates)).connected (connect (some candidates)).closed
unfolding connect
connect_lem candidates = connect_from-IsFirst candidates
