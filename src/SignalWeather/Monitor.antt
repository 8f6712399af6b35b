-- ===== src/SignalWeather/Monitor.antt =====
-- `WeatherOrderBookMonitor` of weather_engine.py: the messages of the market channel.
--
-- A message is handled without an await.
use poly_strategy.Prelude.{
  ℕ, ◌-◌, Bool, false, ◌&&◌, ◌||◌, not, ltb, ◌==◌, if◌then◌else◌, Option, none, some, List, [], ◌∷◌,
  Dict,
}
use poly_strategy.OrderBook.Book.{
  Level, BookSide, apply_snapshot, apply_change, best_bid_of, best_ask_of,
}
use poly_strategy.SignalWeather.Market.{
  Outcome, same_outcome, Snapshot, top_of_book, reference_of, higher_probability, swept_threshold,
  sweep_ask_thresholds, sweep_tick_size, differs,
}
use poly_strategy.SignalWeather.Timers.{
  Mode, EventType, Reason, AssetState, Monitor, Effect, Stepped, and_then, state_of, with_state,
  outcome_of, set_tick, check_certainty,
}

-- What `_evaluate` is told of the time before the message.
pub record Earlier : Type 0 where
  pub asks : Dict ℕ
  pub favored : Option Outcome
  pub tick : Option ℕ

abbrev pub is_sweep_tick : Option ℕ → Bool
is_sweep_tick none = false
is_sweep_tick (some tick) = tick == sweep_tick_size

abbrev pub is_favored : Option Outcome → Outcome → Bool
is_favored none o = false
is_favored (some p) o = same_outcome p o

-- The sweep that `_evaluate` finds, by its threshold.
unfoldable pub sweep_of : Option Earlier → Outcome → AssetState → Option ℕ
sweep_of none o s = none
sweep_of (some e) o s =
    if is_favored e.favored o && is_sweep_tick e.tick && is_sweep_tick s.tick
    then swept_threshold sweep_ask_thresholds e.asks s.book.asks
    else none

abbrev pub sweep_effects :
    Option ℕ → Outcome → (previous : Option Snapshot) → Snapshot → List Effect
sweep_effects none o previous current = []
sweep_effects (some threshold) o previous current =
    Effect.published (record {
      event_type = EventType.sweep;
      outcome = o;
      previous_orderbook = previous;
      current_orderbook = current;
      reason = Reason.ask_levels_cleared threshold;
    })
    ∷ []

-- Certainty is looked at in the mode "full" only.
abbrev pub check_in : Mode → Outcome → (before : Option Snapshot) → Monitor → Monitor
unfolding check_certainty
check_in Mode.full o before m = check_certainty o before m
check_in Mode.sweep_only o before m = m

-- `_evaluate` at the time `now`.
unfoldable pub evaluate_asset : (now : ℕ) → Outcome → Option Earlier → Monitor → Stepped
unfolding sweep_of check_certainty top_of_book
evaluate_asset now o earlier m =
    let s = state_of o m in
    let current = top_of_book now s.book in
    let seen = with_state o (record s { last = some current }) m in
    (check_in m.mode o s.last seen, sweep_effects (sweep_of earlier o s) o s.last current)

-- `_publish_book_update`
unfoldable pub publish_book_update : Monitor → Stepped
publish_book_update m = (m, if m.publishes_books then Effect.book_update ∷ [] else [])

pub record SnapshotMessage : Type 0 where
  pub asset_id : ℕ
  pub bids : List Level
  pub asks : List Level
  pub tick_size : Option ℕ

-- A change with the best prices that the server reports.
pub record Change : Type 0 where
  pub asset_id : ℕ
  pub price : ℕ
  pub size : ℕ
  pub side : BookSide
  pub best_bid : Option ℕ
  pub best_ask : Option ℕ

-- The messages of the market channel.
pub data Message : Type 0 where
  snapshots : List SnapshotMessage → Message
  book : SnapshotMessage → Message
  tick_size_change : (asset_id : ℕ) → (new_tick_size : Option ℕ) → Message
  price_change : List Change → Message
  other : Message

unfoldable pub load_snapshot : SnapshotMessage → AssetState → AssetState
unfolding set_tick apply_snapshot
load_snapshot d s = set_tick d.tick_size (record s { book = apply_snapshot d.bids d.asks s.book })

abbrev pub on_asset : Option Outcome → Monitor → (Outcome → Stepped) → Stepped
on_asset none m next = (m, [])
on_asset (some o) m next = next o

-- The loop of `deliver` over a list of snapshots.
unfoldable pub deliver_snapshots : (now : ℕ) → List SnapshotMessage → Monitor → Stepped
unfolding load_snapshot evaluate_asset outcome_of
deliver_snapshots now [] m = (m, [])
deliver_snapshots now (d ∷ ds) m =
    and_then
      (on_asset (outcome_of d.asset_id m) m
        λ o. evaluate_asset now o none (with_state o (load_snapshot d (state_of o m)) m))
      (deliver_snapshots now ds)

-- The asset of the higher probability before a message.
abbrev pub favored_now : Monitor → Option Outcome
favored_now m = higher_probability (reference_of m.yes_state.book) (reference_of m.no_state.book)

abbrev pub earlier_of : Outcome → Monitor → Earlier
earlier_of o m = record {
  asks = (state_of o m).book.asks;
  favored = favored_now m;
  tick = (state_of o m).tick;
}

unfoldable pub deliver_book : (now : ℕ) → SnapshotMessage → Monitor → Stepped
unfolding load_snapshot evaluate_asset outcome_of publish_book_update
deliver_book now d m = on_asset (outcome_of d.asset_id m) m λ o.
    and_then
      (evaluate_asset now o (some (earlier_of o m))
        (with_state o (load_snapshot d (state_of o m)) m))
      publish_book_update

-- `_check_bbo_drift`
unfoldable pub check_bbo_drift : (now : ℕ) → Outcome → Change → Monitor → Stepped
check_bbo_drift now o c m =
    let s = state_of o m in
    if not m.reports_drift || ltb (now - s.drift_cooldown) 60
    then (m, [])
    else if differs (best_bid_of s.book.bids) c.best_bid
        || differs (best_ask_of s.book.asks) c.best_ask
    then (with_state o (record s { drift_cooldown = now }) m, Effect.drift o ∷ [])
    else (m, [])

unfoldable pub apply_one : (now : ℕ) → Change → Monitor → Stepped
unfolding check_bbo_drift outcome_of apply_change
apply_one now c m = on_asset (outcome_of c.asset_id m) m λ o.
    let s = state_of o m in
    check_bbo_drift now o c
      (with_state o (record s { book = apply_change c.price c.size c.side s.book }) m)

unfoldable pub apply_changes : (now : ℕ) → List Change → Monitor → Stepped
unfolding apply_one
apply_changes now [] m = (m, [])
apply_changes now (c ∷ cs) m = and_then (apply_one now c m) (apply_changes now cs)

-- Whether the changes touch the asset: `affected_assets`.
unfoldable pub is_affected : Outcome → List Change → Monitor → Bool
unfolding outcome_of
is_affected o [] m = false
is_affected o (c ∷ cs) m = is_favored (outcome_of c.asset_id m) o || is_affected o cs m

-- The asks and the tick size of an affected asset are those of before its first change.
unfoldable pub evaluate_affected :
    (now : ℕ) → List Change → (before : Monitor) → Outcome → Monitor → Stepped
unfolding is_affected evaluate_asset
evaluate_affected now cs before o m =
    if is_affected o cs before then evaluate_asset now o (some (earlier_of o before)) m else (m, [])

-- The set of the affected assets is gone through in either order.
unfoldable pub deliver_changes : (now : ℕ) → (no_first : Bool) → List Change → Monitor → Stepped
unfolding apply_changes evaluate_affected publish_book_update
deliver_changes now no_first cs m =
    let first = if no_first then Outcome.no_asset else Outcome.yes_asset in
    let second = if no_first then Outcome.yes_asset else Outcome.no_asset in
    and_then
      (and_then (and_then (apply_changes now cs m) (evaluate_affected now cs m first))
        (evaluate_affected now cs m second))
      λ m'.
        if is_affected Outcome.yes_asset cs m || is_affected Outcome.no_asset cs m
        then publish_book_update m'
        else (m', [])

unfoldable pub deliver_running : (now : ℕ) → (no_first : Bool) → Message → Monitor → Stepped
unfolding deliver_snapshots deliver_book deliver_changes
deliver_running now no_first (Message.snapshots ds) m =
    and_then (deliver_snapshots now ds m) publish_book_update
deliver_running now no_first (Message.book d) m = deliver_book now d m
deliver_running now no_first (Message.tick_size_change asset_id tick) m =
    on_asset (outcome_of asset_id m) m
      λ o. publish_book_update (with_state o (set_tick tick (state_of o m)) m)
deliver_running now no_first (Message.price_change cs) m = deliver_changes now no_first cs m
deliver_running now no_first Message.other m = (m, [])

-- `deliver`
unfoldable pub deliver : (now : ℕ) → (no_first : Bool) → Message → Monitor → Stepped
unfolding deliver_running
deliver now no_first message m =
    if m.running then deliver_running now no_first message m else (m, [])
