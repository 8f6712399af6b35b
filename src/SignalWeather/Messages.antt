-- ===== src/SignalWeather/Messages.antt =====
-- Messages and the timers of a monitor (weather_engine.py).
use poly_strategy.Prelude.{
  ℕ, ◌≡◌, refl, ◌∙◌, ap, Bool, true, false, ◌||◌, not, ltb, ◌-◌, Option, none, some, List, [], ◌∷◌,
  either_way,
}
use poly_strategy.OrderBook.Book.{apply_change, best_bid_of, best_ask_of}
use poly_strategy.SignalWeather.Market.{Outcome, other_outcome, differs}
use poly_strategy.SignalWeather.Timers.{
  Monitor, Stepped, state_of, with_state, outcome_of, set_tick,
}
use poly_strategy.SignalWeather.Monitor.{
  Change, Message, deliver_book, check_bbo_drift, apply_one, apply_changes, is_affected,
  evaluate_affected, deliver_changes, deliver_running, deliver, publish_book_update, on_asset,
  earlier_of,
}
use poly_strategy.SignalWeather.Confirmation.{has_cancelling}
use poly_strategy.SignalWeather.Timely.{IsTimely}
use poly_strategy.SignalWeather.Evaluation.{
  Keeps, Keeps-refl, Keeps-trans, with_state-Keeps, Evaluates, evaluate_asset-Evaluates,
}
use poly_strategy.SignalWeather.Snapshots.{
  NoRepeats, deliver_snapshots-IsTimely, set_tick-confirmation, snapshot-Evaluates,
}

-- Every cancelled task has ended.
abbrev pub IsSettled : Monitor → Type 0
IsSettled m = (o : Outcome) → has_cancelling o m.tasks ≡ false

check_bbo_drift-Keeps :
    (now : ℕ) (o : Outcome) (c : Change) (m : Monitor) → Keeps m (check_bbo_drift now o c m).0
unfolding check_bbo_drift
check_bbo_drift-Keeps now o c m =
    let s = state_of o m in
    either_way (λ (r : Stepped). Keeps m r.0)
      (not m.reports_drift || ltb (now - s.drift_cooldown) 60) _ _ (Keeps-refl m)
      (either_way (λ (r : Stepped). Keeps m r.0)
        (differs (best_bid_of s.book.bids) c.best_bid
          || differs (best_ask_of s.book.asks) c.best_ask)
        _ _ (with_state-Keeps o (record s { drift_cooldown = now }) m refl) (Keeps-refl m))

on_asset-Keeps :
    (found : Option Outcome) (m : Monitor) (next : Outcome → Stepped)
    → ((o : Outcome) → Keeps m (next o).0)
    → Keeps m (on_asset found m next).0
on_asset-Keeps none m next h = Keeps-refl m
on_asset-Keeps (some o) m next h = h o

apply_one-Keeps : (now : ℕ) (c : Change) (m : Monitor) → Keeps m (apply_one now c m).0
unfolding apply_one
apply_one-Keeps now c m = on_asset-Keeps (outcome_of c.asset_id m) m _ λ o.
    let s = state_of o m in
    let changed = record s { book = apply_change c.price c.size c.side s.book } in
    Keeps-trans m (with_state o changed m) (check_bbo_drift now o c (with_state o changed m)).0
      (with_state-Keeps o changed m refl) (check_bbo_drift-Keeps now o c (with_state o changed m))

apply_changes-Keeps :
    (now : ℕ) (cs : List Change) (m : Monitor) → Keeps m (apply_changes now cs m).0
unfolding apply_changes
apply_changes-Keeps now [] m = Keeps-refl m
apply_changes-Keeps now (c ∷ cs) m =
    Keeps-trans m (apply_one now c m).0 (apply_changes now cs (apply_one now c m).0).0
      (apply_one-Keeps now c m) (apply_changes-Keeps now cs (apply_one now c m).0)

evaluate_affected-Evaluates :
    (now : ℕ) (cs : List Change) (before : Monitor) (o : Outcome) (m : Monitor)
    → has_cancelling o m.tasks ≡ false
    → IsTimely m
    → Evaluates o m (evaluate_affected now cs before o m).0
unfolding evaluate_affected
evaluate_affected-Evaluates now cs before o m h timers =
    either_way (λ (r : Stepped). Evaluates o m r.0) (is_affected o cs before) _ _
      (evaluate_asset-Evaluates now o (some (earlier_of o before)) m h timers)
      (record { ids = λ i. refl; timely = timers; settled = λ q. q })

publish_book_update-same : (m : Monitor) → (publish_book_update m).0 ≡ m
unfolding publish_book_update
publish_book_update-same m = refl

both_evaluated :
    (now : ℕ) (cs : List Change) (o : Outcome) (m : Monitor)
    → IsSettled m
    → IsTimely m
    → IsTimely
        (evaluate_affected now cs m
          (other_outcome o)
          (evaluate_affected now cs m o (apply_changes now cs m).0).0).0
both_evaluated now cs o m h timers =
    let kept = apply_changes-Keeps now cs m in
    let changed = (apply_changes now cs m).0 in
    let first =
      evaluate_affected-Evaluates now cs m o changed (ap (has_cancelling o) kept.tasks ∙ h o)
        (kept.timely timers) in
    (evaluate_affected-Evaluates now cs m (other_outcome o) (evaluate_affected now cs m o changed).0
      (first.settled (ap (has_cancelling (other_outcome o)) kept.tasks ∙ h (other_outcome o)))
      first.timely).timely

deliver_changes-IsTimely :
    (now : ℕ) (no_first : Bool) (cs : List Change) (m : Monitor)
    → IsSettled m
    → IsTimely m
    → IsTimely (deliver_changes now no_first cs m).0
unfolding deliver_changes publish_book_update
deliver_changes-IsTimely now true cs m h timers =
    either_way (λ (r : Stepped). IsTimely r.0)
      (is_affected Outcome.yes_asset cs m || is_affected Outcome.no_asset cs m) _ _
      (both_evaluated now cs Outcome.no_asset m h timers)
      (both_evaluated now cs Outcome.no_asset m h timers)
deliver_changes-IsTimely now false cs m h timers =
    either_way (λ (r : Stepped). IsTimely r.0)
      (is_affected Outcome.yes_asset cs m || is_affected Outcome.no_asset cs m) _ _
      (both_evaluated now cs Outcome.yes_asset m h timers)
      (both_evaluated now cs Outcome.yes_asset m h timers)

on_asset-IsTimely :
    (found : Option Outcome) (m : Monitor) (next : Outcome → Stepped)
    → IsTimely m
    → ((o : Outcome) → IsTimely (next o).0)
    → IsTimely (on_asset found m next).0
on_asset-IsTimely none m next timers h = timers
on_asset-IsTimely (some o) m next timers h = h o

-- A message that names no asset twice in a list of snapshots.
abbrev pub IsSingle : Message → Monitor → Type 0
IsSingle (Message.snapshots ds) m = NoRepeats ds (λ i. outcome_of i m)
IsSingle _ m = Unit

deliver_running-IsTimely :
    (now : ℕ) (no_first : Bool) (message : Message) (m : Monitor)
    → IsSettled m
    → IsSingle message m
    → IsTimely m
    → IsTimely (deliver_running now no_first message m).0
unfolding deliver_running deliver_book publish_book_update
deliver_running-IsTimely now no_first (Message.snapshots ds) m h single timers =
    deliver_snapshots-IsTimely now ds (λ i. outcome_of i m) m
      (record { ids = λ i. refl; distinct = single; settled = λ o q. h o; timely = timers })
deliver_running-IsTimely now no_first (Message.book d) m h single timers =
    on_asset-IsTimely (outcome_of d.asset_id m) m _ timers
      λ o. (snapshot-Evaluates now o d (some (earlier_of o m)) m (h o) timers).timely
deliver_running-IsTimely now no_first (Message.tick_size_change asset_id tick) m h single timers =
    on_asset-IsTimely (outcome_of asset_id m) m _ timers λ o.
      (with_state-Keeps o (set_tick tick (state_of o m)) m
          (set_tick-confirmation tick (state_of o m))).timely
        timers
deliver_running-IsTimely now no_first (Message.price_change cs) m h single timers =
    deliver_changes-IsTimely now no_first cs m h timers
deliver_running-IsTimely now no_first Message.other m h single timers = timers

pub deliver-IsTimely :
    (now : ℕ) (no_first : Bool) (message : Message) (m : Monitor)
    → IsSettled m
    → IsSingle message m
    → IsTimely m
    → IsTimely (deliver now no_first message m).0
unfolding deliver
deliver-IsTimely now no_first message m h single timers =
    either_way (λ (r : Stepped). IsTimely r.0) m.running _ _
      (deliver_running-IsTimely now no_first message m h single timers) timers
