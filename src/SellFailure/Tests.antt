-- ===== src/SellFailure/Tests.antt =====
-- sell_failure.py at a few inputs.
use poly_strategy.Prelude.{
  ◌↔◌, ℕ, suc, ◌≡◌, refl, not, ◌&&◌, none, some, [], ◌∷◌, arith, leb, ltb, Text, codes, elem,
  is_some, length, lookup,
}
use poly_strategy.SellFailure.Classify.{
  Signature, number, OrderStatus, classify_sell_error, insufficient_exactly, TellsShortage,
  in_lower_case,
}
use poly_strategy.SellFailure.Tracker.{History, snapshot, after_history, streak, tracker_counts}
use poly_strategy.SellFailure.Breaker.{
  Breaker, Report, record_event, events_of, count_recent, opens_exactly,
}

abbrev lagging : Text
lagging = codes "Not enough balance: tick size mismatch"

lagging-class :
    classify_sell_error OrderStatus.failed (some lagging) ≡ Signature.insufficient_balance
unfolding classify_sell_error
lagging-class = refl

insufficient_exactly_example :
    (classify_sell_error OrderStatus.failed (some lagging) ≡ Signature.insufficient_balance)
    ↔ TellsShortage OrderStatus.failed (in_lower_case (some lagging))
insufficient_exactly_example = insufficient_exactly OrderStatus.failed (some lagging)

abbrev history : History
history =
    (Signature.network_timeout, none)
    ∷ (Signature.network_timeout, none)
    ∷ (Signature.network_timeout, none)
    ∷ (Signature.invalid_tick_size, some lagging)
    ∷ []

tracker_counts_example :
    let s = snapshot 90 (after_history 3 10 history) in
    (s.attempt_count ≡ length history)
    × (s.consecutive_same_error ≡ streak history)
    × (is_some s.stop_reason ≡ (ltb 0 3 && leb 3 (streak history)))
tracker_counts_example = tracker_counts 3 10 90 history

abbrev breaker : Breaker
breaker = record {
  threshold = 3;
  window = 300;
  events = (4, (10, 1) ∷ (250, 2) ∷ (260, 3) ∷ []) ∷ [];
  opened_signatures = [];
}

abbrev report : ℕ → Report
report t = record { now = t; token_id = t; signature = Signature.network_timeout }

opens_exactly_example : (record_event 320 9 Signature.network_timeout breaker).1 ≡ (
    not (elem (number Signature.network_timeout) [])
    && leb 3 (suc (count_recent 300 320 (events_of Signature.network_timeout breaker))))
unfolding events_of number lookup
opens_exactly_example =
    opens_exactly 320 9 Signature.network_timeout breaker (omega arith) (omega arith)
