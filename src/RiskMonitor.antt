-- ===== src/RiskMonitor.antt =====
-- backend/src/strategy_weather_sweep/internal/risk_monitor.py: `SweepRiskMonitor`. Prices are numbers of
-- fixed units; a mid price is kept doubled, the stop-loss ratio is a fraction `ratio / scale`, and
-- `one` is the price 1. A callback that is started is an event of the answer. The first BBO snapshot,
-- time stamps and the HTTP request for the tick size, whose answer is given, are not here.
use poly_strategy.Prelude.{
  ℕ, ◌+◌, ◌*◌, Bool, true, false, not, ◌&&◌, ◌||◌, Option, none, some, List, [], ◌∷◌, leb, ltb,
  ◌==◌, if◌then◌else◌,
}
pub mod Trigger
mod Tests

pub record Monitor : Type 0 where
  pub ratio : ℕ
  pub has_on_trigger : Bool
  pub has_on_tick_change : Bool
  pub double_reference_mid : Option ℕ
  pub token_id : Option ℕ
  pub subscribed : Bool
  pub active : Bool
  pub triggered : Bool
  pub trigger_bbo : Option (ℕ × ℕ)

unfoldable pub new_monitor : (ratio : ℕ) → (has_on_trigger has_on_tick_change : Bool) → Monitor
new_monitor ratio has_on_trigger has_on_tick_change = record {
  ratio = ratio;
  has_on_trigger = has_on_trigger;
  has_on_tick_change = has_on_tick_change;
  double_reference_mid = none;
  token_id = none;
  subscribed = false;
  active = false;
  triggered = false;
  trigger_bbo = none;
}

-- A callback that is started as a task.
pub data Task : Type 0 where
  trigger_started : Task
  tick_change_started : (tick_size : ℕ) → Task

-- `_extract_mid_price`, doubled.
unfoldable pub double_mid_of : Option ℕ → Option ℕ → Option ℕ
double_mid_of (some b) (some a) = some (b + a)
double_mid_of (some b) none = some (b + b)
double_mid_of none (some a) = some (a + a)
double_mid_of none none = none

unfoldable pub start_at : (token_id : ℕ) → Option ℕ → Monitor → Monitor
start_at token_id none m = m
start_at token_id (some mid) m = if mid == 0 then m else record m {
  token_id = some token_id;
  double_reference_mid = some mid;
  active = true;
  triggered = false;
  subscribed = true;
}

-- `start` with the best prices of the signal's snapshot.
unfoldable pub start_monitor : (token_id : ℕ) → (best_bid best_ask : Option ℕ) → Monitor → Monitor
unfolding start_at double_mid_of
start_monitor token_id best_bid best_ask m = start_at token_id (double_mid_of best_bid best_ask) m

-- `stop`
unfoldable pub stop_monitor : Monitor → Monitor
stop_monitor m = record m { active = false; subscribed = false }

abbrev pub price_or : ℕ → Option ℕ → ℕ
price_or default none = default
price_or default (some p) = p

-- `current_mid <= self.threshold`, in whole numbers.
abbrev pub is_below : (scale ratio reference bid ask : ℕ) → Bool
is_below scale ratio reference bid ask = leb ((bid + ask) * scale) (reference * ratio)

unfoldable pub check_mid : (scale : ℕ) → (bid ask : ℕ) → Option ℕ → Monitor → Monitor × List Task
check_mid scale bid ask none m = (m, [])
check_mid scale bid ask (some reference) m =
    if is_below scale m.ratio reference bid ask
    then (
      record m { triggered = true; active = false; trigger_bbo = some (bid, ask) },
      if m.has_on_trigger then Task.trigger_started ∷ [] else [],
    )
    else (m, [])

-- `_on_bbo`
unfoldable pub on_bbo :
    (scale one : ℕ) → (best_bid best_ask : Option ℕ) → Monitor → Monitor × List Task
unfolding check_mid
on_bbo scale one best_bid best_ask m =
    if not m.active || m.triggered
    then (m, [])
    else check_mid scale (price_or 0 best_bid) (price_or one best_ask) m.double_reference_mid m

-- `_on_tick`
unfoldable pub on_tick : (tick_size : ℕ) → Monitor → Monitor × List Task
on_tick tick_size m =
    if not m.active
    then (m, [])
    else (m, if m.has_on_tick_change then Task.tick_change_started tick_size ∷ [] else [])

-- `_check_tick_now` and a round of `_tick_poll_loop`, with the answer of the tick-size service; `fine` is
-- the tick size 0.001.
unfoldable pub check_tick : (fine : ℕ) → Option ℕ → Monitor → Monitor × List Task
check_tick fine none m = (m, [])
check_tick fine (some tick_size) m = (
  m,
  if m.active && (tick_size == fine) && m.has_on_tick_change
      then Task.tick_change_started tick_size ∷ []
      else [],
)
