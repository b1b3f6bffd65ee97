-- ===== src/Tcp/Queue.antt =====
-- The configuration, the state that threads share, and the calls of the simulation thread.
use afsim_ns.Base.{
  ℕ, Bool, true, false, ◌&&◌, ◌||◌, List, [], ◌∷◌, ◌++◌, Bytes, leb, ◌==◌, if◌then◌else◌, length,
  Result, ok, err,
}

pub record TcpClientConfig : Type 0 where
  pub host : Bytes
  pub port : ℕ
  pub connect_timeout_ms : ℕ
  pub reconnect_delay_ms : ℕ
  pub max_pending_messages : ℕ

-- The members of `Impl` but the thread, the locks and the handler. The front of `mPending` is
-- the head of the list.
pub record Client : Type 0 where
  pub config : TcpClientConfig
  pub running : Bool
  pub connected : Bool
  pub pending : List Bytes
  pub resync : Bytes

pub data ConfigError : Type 0 where
  invalid_configuration : ConfigError

abbrev no_bytes : Bytes → Bool
no_bytes [] = true
no_bytes (c ∷ s) = false

-- The constructor of `Impl`.
unfoldable pub new_client : TcpClientConfig → Result ConfigError Client
new_client config =
    if no_bytes config.host || config.port == 0 || config.max_pending_messages == 0
    then err invalid_configuration
    else ok
        (record { config = config; running = false; connected = false; pending = []; resync = [] })

abbrev is_break : ℕ → Bool
is_break c = c == b'\r' || c == b'\n'

-- The text without the line breaks at its end.
unfoldable pub trim_breaks : Bytes → Bytes
trim_breaks [] = []
trim_breaks (c ∷ json) =
    let rest = trim_breaks json in if is_break c && no_bytes rest then [] else c ∷ rest

unfoldable pub normalize : Bytes → Bytes
unfolding trim_breaks
normalize json = trim_breaks json ++ b'\n' ∷ []

unfoldable pub queue_initial : Bytes → Client → Client
unfolding normalize
queue_initial json c = let line = normalize json in record c { resync = line; pending = line ∷ [] }

unfoldable pub queue_delta : Bytes → Bytes → Client → Client × Bool
unfolding normalize
queue_delta json current_full_snapshot c =
    let snapshot = normalize current_full_snapshot in
    if leb c.config.max_pending_messages (length c.pending)
    then (record c { resync = snapshot; pending = snapshot ∷ [] }, false)
    else (record c { resync = snapshot; pending = c.pending ++ normalize json ∷ [] }, true)

unfoldable pub pending_count : Client → ℕ
pending_count c = length c.pending
