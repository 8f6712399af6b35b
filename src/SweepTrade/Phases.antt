-- ===== src/SweepTrade/Phases.antt =====
-- How often a trade closes (service.py).
use poly_strategy.Prelude.{ℕ, ◌+◌, ◌≤◌, Bool, true, false, List, [], ◌∷◌, arith}
use poly_strategy.SweepTrade.State.{Trade, Phase, Note, Reason, LogStep, new_trade}
use poly_strategy.SweepTrade.Ledger.{
  log_note, record_buy_fill, record_sell_fill, mark_exit_started, close,
}
use poly_strategy.SweepTrade.Run.{Units, Step, run}
use poly_strategy.SweepTrade.Keeps.{Core, Invariant, Kept, core}
use poly_strategy.SweepTrade.Keeps.Runs.{run-Kept}

-- How often a log says that the trade closed.
unfoldable pub closes_in : List LogStep → ℕ
closes_in [] = 0
closes_in (LogStep.event_closed r ∷ log) = closes_in log + 1
closes_in (_ ∷ log) = closes_in log

abbrev open_count : Phase → ℕ
open_count Phase.closed = 0
open_count _ = 1

abbrev to_nat : Bool → ℕ
to_nat true = 1
to_nat false = 0

-- A trade is open or has said that it closed, and it says so at most once, or twice when its exit has
-- started.
unfoldable pub ClosesRarely : Core → Type 0
unfolding closes_in
ClosesRarely c =
    (1 ≤ closes_in c.log + open_count c.phase)
    × (closes_in c.log + open_count c.phase ≤ 1 + to_nat c.exit_started)

noted-ClosesRarely :
    (n : Note) (t : Trade) → ClosesRarely (core t) → ClosesRarely (core (log_note n t))
unfolding ClosesRarely log_note closes_in
noted-ClosesRarely n t h = h

bought-ClosesRarely :
    (i n p : ℕ) (t : Trade) → ClosesRarely (core t) → ClosesRarely (core (record_buy_fill i n p t))
unfolding ClosesRarely record_buy_fill closes_in
bought-ClosesRarely i n p t h = h

sold-ClosesRarely :
    (i n p : ℕ) (t : Trade) → ClosesRarely (core t) → ClosesRarely (core (record_sell_fill i n p t))
unfolding ClosesRarely record_sell_fill closes_in
sold-ClosesRarely i n p t h = h

started-ClosesRarely :
    (t : Trade) → ClosesRarely (core t) → ClosesRarely (core (mark_exit_started t))
unfolding ClosesRarely mark_exit_started
started-ClosesRarely t h = ground arith

ended-ClosesRarely :
    (r : Reason) (t : Trade) → ClosesRarely (core t) → ClosesRarely (core (close r t))
unfolding ClosesRarely close closes_in
ended-ClosesRarely r t h = ground arith

abbrev closing : Invariant
closing = record {
  Holds = ClosesRarely;
  noted = noted-ClosesRarely;
  bought = bought-ClosesRarely;
  sold = sold-ClosesRarely;
  started = started-ClosesRarely;
  ended = ended-ClosesRarely;
}

-- However the coroutines of a trade interleave and whatever the exchange answers: a trade whose phase
-- is closed has logged `event_closed`, a trade whose exit has not started has logged it at most once
-- and only if it is closed, and no trade logs it more than twice.
pub run-ClosesRarely :
    (u : Units) (ss : List Step) (cent : ℕ) → ClosesRarely (core (run u ss (new_trade cent)))
unfolding Kept ClosesRarely new_trade closes_in
run-ClosesRarely u ss cent = run-Kept closing u ss (new_trade cent) (omega arith, omega arith)
