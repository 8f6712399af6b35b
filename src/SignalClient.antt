-- ===== src/SignalClient.antt =====
-- backend/src/framework/strategy_runtime/signal_client.py: `SignalWSClient`, what it does with a message.
--
-- The deduplicator is the client's state and outlives its connections. The adapter is an argument, which
-- gives the `signal_id` of the signal that it makes; raw messages and identifiers are numbers. The
-- connection, the hello and the pings are left out.
pub mod Delivery
mod Tests
use poly_strategy.Prelude.{ℕ, Option, none, some, List, [], ◌∷◌, if◌then◌else◌}
use poly_strategy.SignalDedup.{Deduplicator, is_duplicate}

-- A message: no JSON, or its `type` with what the adapter reads.
pub data Message : Type 0 where
  not_json pong welcome error : Message
  event : (raw : ℕ) → Message

-- The early returns of `_handle_message`, and the adapter.
unfoldable pub signal_of : (adapt : ℕ → Option ℕ) → Message → Option ℕ
signal_of adapt Message.not_json = none
signal_of adapt Message.pong = none
signal_of adapt Message.welcome = none
signal_of adapt Message.error = none
signal_of adapt (Message.event raw) = adapt raw

-- The rest of `_handle_message` at the time `now`: the identifier of the signal that is called back.
unfoldable pub handle_signal : (now : ℕ) → Option ℕ → Deduplicator → Deduplicator × Option ℕ
handle_signal now none d = (d, none)
handle_signal now (some signal_id) d =
    let (d', duplicate) = is_duplicate now signal_id d in
    (d', if duplicate then none else some signal_id)

-- `_handle_message`
unfoldable pub handle_message :
    (adapt : ℕ → Option ℕ) → (now : ℕ) → Message → Deduplicator → Deduplicator × Option ℕ
unfolding signal_of handle_signal
handle_message adapt now m d = handle_signal now (signal_of adapt m) d

unfoldable pub deliver : (now : ℕ) → Option ℕ → List (ℕ × ℕ) → List (ℕ × ℕ)
deliver now none later = later
deliver now (some signal_id) later = (now, signal_id) ∷ later

-- The callbacks of `listen`, with their times, for messages at their times.
unfoldable pub listen : (adapt : ℕ → Option ℕ) → List (ℕ × Message) → Deduplicator → List (ℕ × ℕ)
unfolding handle_message deliver
listen adapt [] d = []
listen adapt ((now, m) ∷ rest) d =
    let (d', signal) = handle_message adapt now m d in deliver now signal (listen adapt rest d')
