-- ===== src/SweepTrade/Tests.antt =====
-- A trade at concrete inputs (service.py): shares in units of 0.01, prices in units of 0.001.
use poly_strategy.Prelude.{
  ℕ, ◌+◌, ◌*◌, ◌≤◌, ◌<◌, ◌≡◌, refl, true, false, none, some, List, [], ◌∷◌, ℤ, pos, arith, ◌-ℤ◌,
  ◌+ℤ◌,
}
use poly_strategy.SellFailure.Classify.{OrderStatus, number, classify_sell_error}
use poly_strategy.SweepTrade.State.{
  Trade, Phase, OrderResult, CancelResult, RiskPoint, new_trade, is_closed,
}
use poly_strategy.SweepTrade.Entry.{entry_size}
use poly_strategy.SweepTrade.ForceExit.{start_force_exit}
use poly_strategy.SweepTrade.Run.{Units, Step, run, step, force_step}
use poly_strategy.SweepTrade.Keeps.{core}
use poly_strategy.SweepTrade.Books.{IsBooked, run-IsBooked}
use poly_strategy.SweepTrade.Phases.{ClosesRarely, run-ClosesRarely}
use poly_strategy.SweepTrade.ForcedEnd.{force_exit_ends}
use poly_strategy.SellFailure.Tracker.{new_tracker}
use poly_strategy.SweepTrade.State.{Loop, NormalPoint}
use poly_strategy.SweepTrade.NormalExit.{on_sell_result}
use poly_strategy.SweepTrade.Retries.{IsRetry, settlement_lag_shrinks}
use poly_strategy.SweepTrade.Late.{entry_size_is_maximal}

abbrev units : Units
units = record { one = 1000; cent = 10; limit_price = 990; cent_share = 1 }

abbrev accepted : OrderStatus → ℕ → OrderResult
accepted s n = record {
  order_id = 7;
  status = s;
  filled_size = n;
  filled_price = none;
  error = none;
}

abbrev answer : ℤ → CancelResult
answer n = record { cancelled = true; final_matched = n; query_failed = false; has_error = false }

-- A BUY of 100 shares rests, half of it is filled, the risk exit cancels it, and the user forces the
-- exit before the cancel is answered.
abbrev crossing : List Step
crossing =
    Step.buy_result 10000 (accepted OrderStatus.live 0)
    ∷ Step.buy_fill 7 5000 980 5000
    ∷ Step.risk_exit false
    ∷ Step.force_exit
    ∷ Step.force_cancel false (answer (pos 6000))
    ∷ []

abbrev crossed_trade : Trade
crossed_trade = run units crossing (new_trade 10)

-- The trade is closed with the reconciled position of 60 shares, and its risk exit then submits a SELL.
crossed_trade_runs :
    (crossed_trade.phase ≡ Phase.closed)
    × (crossed_trade.position_shares ≡ pos 6000)
    × (crossed_trade.risk ≡ RiskPoint.cancelling_buy [] 7)
    × ((step units (Step.risk_cancel false true) crossed_trade).risk ≡ RiskPoint.awaiting_order [])
unfolding run step new_trade ◌+ℤ◌ ◌-ℤ◌
crossed_trade_runs = (refl, refl, refl, refl)

run-IsBooked_example : IsBooked (core (run units crossing (new_trade 10)))
run-IsBooked_example = run-IsBooked units crossing 10

run-ClosesRarely_example : ClosesRarely (core (run units crossing (new_trade 10)))
run-ClosesRarely_example = run-ClosesRarely units crossing 10

force_exit_ends_example :
    let t1 = start_force_exit (new_trade 10) in
    let t2 = force_step false (answer (pos 0)) t1.force t1 in
    let t3 = force_step false (answer (pos 0)) t2.force t2 in is_closed t3 ≡ true
force_exit_ends_example =
    force_exit_ends false false (answer (pos 0)) (answer (pos 0)) (new_trade 10)

entry_size_is_maximal_example :
    (entry_size 100 990 10000 5000 ≤ 10000)
    × (entry_size 100 990 10000 5000 * 990 ≤ 5000 * 100)
    × ((entry_size 100 990 10000 5000 < 10000)
        → 5000 * 100 < (entry_size 100 990 10000 5000 + 100) * 990)
entry_size_is_maximal_example = entry_size_is_maximal 100 990 10000 5000 (omega arith) (omega arith)

abbrev selling : Loop
selling = record {
  min_order_size = some 500;
  sell_price = 990;
  attempt = 1;
  tracker = new_tracker 3 0;
  invalid_tick_retries = 0;
  balance_retry_size = none;
}

abbrev holding : Trade
holding = record (new_trade 10) { phase = Phase.entry; position_shares = pos 10000 }

-- Of 10000 shares 4057 are settled, and orders are in steps of 100 shares.
abbrev after_lag : Trade
after_lag =
    on_sell_result 100 7 false false (some 4057) selling 10000
      (accepted OrderStatus.insufficient_balance 0) holding

abbrev submitted_size : NormalPoint → ℕ
submitted_size (NormalPoint.awaiting_order l n) = n
submitted_size _ = 0

after_lag-size : submitted_size after_lag.normal ≡ 4000
unfolding on_sell_result new_trade new_tracker number
after_lag-size = refl

settlement_lag_shrinks_example : IsRetry 10000 4057 500 10000 after_lag.normal
unfolding new_trade number classify_sell_error
settlement_lag_shrinks_example =
    settlement_lag_shrinks 100 7 false false 4057 500 selling 10000
      (accepted OrderStatus.insufficient_balance 0) holding (omega arith) (omega arith) refl refl
      refl
