-- ===== src/Tcp/Send.antt =====
-- `SendAll`, against the answers of the socket in their order.
use afsim_ns.Base.{
  ℕ, ◌+◌, Bool, true, false, List, [], ◌∷◌, ◌++◌, Bytes, Option, none, some, leb, if◌then◌else◌,
  length, take, drop,
}

-- What one round of the loop meets: `WaitSocket` fails; `send` takes some bytes; it fails and
-- would block; it fails.
pub data SocketAnswer : Type 0 where
  wait_failed : SocketAnswer
  written : ℕ → SocketAnswer
  would_block : SocketAnswer
  send_error : SocketAnswer

-- The number of bytes that `send` is offered is left out, since only its answer matters here: the
-- source casts it to `int`, which keeps every number below 2^31.
-- The bytes that the socket took, and the result; `none` if the loop needs further answers.
unfoldable pub send_from : List SocketAnswer → Bytes → ℕ → Bytes × Option Bool
send_from [] message sent = ([], if leb (length message) sent then some true else none)
send_from (answer ∷ answers) message sent = elim (leb (length message) sent) [
  | true ↦ ([], some true)
  | false ↦ elim answer [
    | wait_failed ↦ ([], some false)
    | written n ↦
        let (bytes, result) = send_from answers message (sent + n) in
        (take n (drop sent message) ++ bytes, result)
    | would_block ↦ send_from answers message sent
    | send_error ↦ ([], some false)
  ]
]

unfoldable pub send_all : List SocketAnswer → Bytes → Bytes × Option Bool
unfolding send_from
send_all answers message = send_from answers message 0
