-- ===== src/SweepStrategy/Tests.antt =====
-- A strategy at concrete inputs (service.py).
use poly_strategy.Prelude.{
  ℕ, ◌≡◌, refl, true, none, some, List, [], ◌∷◌, lookup, insert, ◌&&◌, ◌==◌, if◌then◌else◌,
}
use poly_strategy.SellFailure.Classify.{Signature, number}
use poly_strategy.SellFailure.Breaker.{record_event}
use poly_strategy.SweepTrade.State.{new_trade}
use poly_strategy.SweepTrade.Run.{Units}
use poly_strategy.SweepTrade.Run
use poly_strategy.SweepStrategy.{
  Source, Filters, Signal, Strategy, Step, create, on_signal, on_exit_failed, run,
}
use poly_strategy.SweepStrategy.Trades.{
  opens, on_signal-opens, run_drained, own_steps, trade_runs_alone,
}

abbrev units : Units
units = record { one = 1000; cent = 10; limit_price = 990; cent_share = 1 }

abbrev all_signals : Filters
all_signals = record { outcome = 0; source = Source.any; through = none; direction = 0 }

abbrev sweep_of : ℕ → Signal
sweep_of i = record {
  is_sweep = true;
  token_id = i;
  outcome = 1;
  is_from_main = none;
  reason = [];
  direction = 2;
}

abbrev fresh : Strategy
fresh = create 2 300 all_signals

on_signal-opens_example :
    lookup 5 (on_signal 10 (sweep_of 5) fresh).trades
    ≡ (if opens (sweep_of 5) fresh && (5 == 5) then some (new_trade 10) else lookup 5 fresh.trades)
on_signal-opens_example = on_signal-opens 10 5 (sweep_of 5) fresh

-- Two tokens fail with one error, and the strategy pauses.
abbrev paused : Strategy
paused =
    let once = (on_exit_failed 10 5 Signature.network_timeout true fresh).0 in
    (on_exit_failed 20 6 Signature.network_timeout true once).0

run_drained_example :
    ((run units (Step.signal (sweep_of 5) ∷ []) paused).draining ≡ true)
    × (lookup 5 (run units (Step.signal (sweep_of 5) ∷ []) paused).trades ≡ none)
unfolding on_exit_failed create record_event lookup insert number
run_drained_example = run_drained units (Step.signal (sweep_of 5) ∷ []) 5 paused refl refl

abbrev forced : Run.Step
forced = Run.Step.force_exit

-- The strategy after a first signal for token 5, and what happens next.
abbrev running : Strategy
running = run units (Step.signal (sweep_of 5) ∷ []) fresh

abbrev events : List Step
events =
    Step.signal (sweep_of 5)
    ∷ Step.trade_steps 6 forced
    ∷ Step.trade_steps 5 forced
    ∷ Step.trade_closed 6
    ∷ []

trade_runs_alone_example :
    lookup 5 (run units events running).trades
    ≡ some (Run.run units (own_steps 5 events) (new_trade 10))
unfolding run create lookup insert
trade_runs_alone_example = trade_runs_alone units events 5 running (new_trade 10) refl refl
