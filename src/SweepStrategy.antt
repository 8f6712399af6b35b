-- ===== src/SweepStrategy.antt =====
-- backend/src/strategy_weather_sweep/service.py: `SweepStrategy`, the trades of one configuration, one
-- at most for a token. Outcomes and directions are numbers, since the filters only compare them; 0
-- stands for the filters' "all", and `through` is the text that the threshold filter looks for. A new
-- trade is in the table before `enter` runs, whose steps are those of the trade. A trade that another
-- coroutine still holds after `_remove_trade` or `force_exit` is no longer followed.
use poly_strategy.Prelude.{
  ℕ, Bool, true, false, not, ◌&&◌, ◌||◌, Option, none, some, List, [], ◌∷◌, Dict, lookup, insert,
  erase, contains, ◌==◌, if◌then◌else◌, Text, occurs_in, is_some,
}
use poly_strategy.SellFailure.Classify.{Signature}
use poly_strategy.SellFailure.Breaker.{Breaker, new_breaker, record_event}
use poly_strategy.SweepTrade.State.{Trade, new_trade}
use poly_strategy.SweepTrade.Run.{Units}
use poly_strategy.SweepTrade.Run
pub mod Trades
mod Tests

-- `signal_source_filter`
pub data Source : Type 0 where
  main next any : Source

-- The filters of a configuration.
pub record Filters : Type 0 where
  pub outcome : ℕ
  pub source : Source
  pub through : Option Text
  pub direction : ℕ

-- `Signal`, with the parts of its payload that the filters read.
pub record Signal : Type 0 where
  pub is_sweep : Bool
  pub token_id : ℕ
  pub outcome : ℕ
  pub is_from_main : Option Bool
  pub reason : Text
  pub direction : ℕ

pub record Strategy : Type 0 where
  pub filters : Filters
  pub draining : Bool
  pub trades : Dict Trade
  pub breaker : Breaker
  pub config_enabled : Bool

-- `create`, with the limits of the circuit breaker.
unfoldable pub create : (threshold window : ℕ) → Filters → Strategy
unfolding new_breaker
create threshold window f = record {
  filters = f;
  draining = false;
  trades = [];
  breaker = new_breaker threshold window;
  config_enabled = true;
}

-- `payload.get("is_from_main", True)`
abbrev pub from_main : Signal → Bool
from_main g = elim g.is_from_main [ none ↦ true | some b ↦ b ]

unfoldable pub passes_source : Source → Bool → Bool
passes_source Source.main b = b
passes_source Source.next b = not b
passes_source Source.any b = true

unfoldable pub passes_threshold : Option Text → Text → Bool
passes_threshold none reason = true
passes_threshold (some through) reason = occurs_in through reason

-- `_should_accept_signal`
unfoldable pub should_accept_signal : Filters → Signal → Bool
unfolding passes_source passes_threshold
should_accept_signal f g =
    if not (f.outcome == 0) && not (g.outcome == f.outcome)
    then false
    else if not (passes_source f.source (from_main g))
    then false
    else if not (passes_threshold f.through g.reason)
    then false
    else if not (f.direction == 0) && not (g.direction == f.direction)
    then false
    else true

-- `on_signal`
unfoldable pub on_signal : (cent : ℕ) → Signal → Strategy → Strategy
unfolding should_accept_signal
on_signal cent g s =
    if not g.is_sweep
    then s
    else if s.draining
    then s
    else if contains g.token_id s.trades
    then s
    else if not (should_accept_signal s.filters g)
    then s
    else record s { trades = insert g.token_id (new_trade cent) s.trades }

-- `_on_exit_failed` at the time `now`; `updated` says whether the configuration could be disabled. The
-- answer is whether the strategy pauses.
unfoldable pub on_exit_failed :
    (now token_id : ℕ) → Signature → (updated : Bool) → Strategy → Strategy × Bool
on_exit_failed now token_id signature updated s =
    let (b, opens) = record_event now token_id signature s.breaker in
    let counted = record s { breaker = b } in
    if opens
    then (
      record counted {
        draining = true;
        config_enabled = if updated then false else s.config_enabled;
      },
      true,
    )
    else (counted, false)

-- `drain`
unfoldable pub drain : Strategy → Strategy
drain s = record s { draining = true }

-- `force_exit`, at its end; it forces the exit of each trade before.
unfoldable pub clear_trades : Strategy → Strategy
clear_trades s = record s { trades = [] }

-- `_remove_trade`
unfoldable pub remove_trade : ℕ → Strategy → Strategy
remove_trade token_id s = record s { trades = erase token_id s.trades }

-- A trade makes a step, if it runs.
unfoldable pub step_of : Units → (token_id : ℕ) → Run.Step → Option Trade → Dict Trade → Dict Trade
step_of u token_id e none trades = trades
step_of u token_id e (some t) trades = insert token_id (Run.step u e t) trades

unfoldable pub trade_step : Units → (token_id : ℕ) → Run.Step → Strategy → Strategy
unfolding step_of
trade_step u token_id e s = record s {
  trades = step_of u token_id e (lookup token_id s.trades) s.trades;
}

pub data Step : Type 0 where
  signal : Signal → Step
  exit_failed : (now token_id : ℕ) → Signature → (updated : Bool) → Step
  drain_requested exits_forced : Step
  trade_closed : (token_id : ℕ) → Step
  trade_steps : (token_id : ℕ) → Run.Step → Step

unfoldable pub step : Units → Step → Strategy → Strategy
unfolding on_signal on_exit_failed drain clear_trades remove_trade trade_step
step u (Step.signal g) s = on_signal u.cent g s
step u (Step.exit_failed now token_id signature updated) s =
    (on_exit_failed now token_id signature updated s).0
step u Step.drain_requested s = drain s
step u Step.exits_forced s = clear_trades s
step u (Step.trade_closed token_id) s = remove_trade token_id s
step u (Step.trade_steps token_id e) s = trade_step u token_id e s

unfoldable pub run : Units → List Step → Strategy → Strategy
unfolding step
run u [] s = s
run u (e ∷ es) s = run u es (step u e s)
