-- ===== src/SignalClient/Tests.antt =====
-- The client of signal_client.py at a few messages.
use poly_strategy.Prelude.{
  ℕ, ◌≡◌, refl, Option, none, some, List, [], ◌∷◌, arith, lookup, insert, if◌then◌else◌, ◌==◌,
}
use poly_strategy.SignalDedup.{new_deduplicator, is_duplicate}
use poly_strategy.SignalClient.{Message, listen}
use poly_strategy.SignalClient.Delivery.{IsOrdered, IsApart, listen-IsApart}

-- An adapter that knows no signal in the message 0.
abbrev adapter : ℕ → Option ℕ
adapter n = if n == 0 then none else some n

-- The signal 5 arrives three times, with the window of 300 between the first and the last.
abbrev messages : List (ℕ × Message)
messages =
    (10, Message.event 5)
    ∷ (20, Message.pong)
    ∷ (30, Message.event 5)
    ∷ (40, Message.event 0)
    ∷ (50, Message.event 6)
    ∷ (400, Message.event 5)
    ∷ []

messages-calls :
    listen adapter messages (new_deduplicator 300 10000) ≡ (10, 5) ∷ (50, 6) ∷ (400, 5) ∷ []
unfolding listen new_deduplicator is_duplicate lookup insert
messages-calls = refl

listen-IsApart_example : IsApart 300 (listen adapter messages (new_deduplicator 300 10000))
unfolding IsOrdered new_deduplicator
listen-IsApart_example =
    listen-IsApart adapter 0 messages (new_deduplicator 300 10000)
      (record { once = tt; ordered = omega arith; bounded = omega arith })
      (omega arith, (omega arith, (omega arith, (omega arith, (omega arith, (omega arith, tt))))))
      (omega arith)
