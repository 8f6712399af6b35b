-- ===== src/SweepTrade/Books.antt =====
-- The books of a trade against its event log (service.py).
use poly_strategy.Prelude.{
  either_way, ℕ, ◌+◌, ◌*◌, ◌≡◌, refl, true, List, [], ◌∷◌, ℤ, pos, arith, int_laws, ◌+ℤ◌, ◌-ℤ◌,
}
use poly_strategy.SweepTrade.State.{Trade, Phase, Note, Reason, LogStep, new_trade, is_closed}
use poly_strategy.SweepTrade.Ledger.{
  log_note, record_buy_fill, record_sell_fill, mark_exit_started, close, set_done,
}
use poly_strategy.SweepTrade.Run.{Units, Step, step, run}
use poly_strategy.SweepTrade.Keeps.{Core, Invariant, Kept, core}
use poly_strategy.SweepTrade.Keeps.Runs.{step-Kept, run-Kept}

-- Totals over the fills of a log: the shares and money of the BUY and the SELL fills, and how many BUY
-- fills there are.
unfoldable pub bought_in : List LogStep → ℕ
bought_in [] = 0
bought_in (LogStep.buy_filled i n p ∷ log) = bought_in log + n
bought_in (_ ∷ log) = bought_in log

unfoldable pub sold_in : List LogStep → ℕ
sold_in [] = 0
sold_in (LogStep.sell_filled i n p ∷ log) = sold_in log + n
sold_in (_ ∷ log) = sold_in log

unfoldable pub cost_in : List LogStep → ℕ
cost_in [] = 0
cost_in (LogStep.buy_filled i n p ∷ log) = cost_in log + n * p
cost_in (_ ∷ log) = cost_in log

unfoldable pub revenue_in : List LogStep → ℕ
revenue_in [] = 0
revenue_in (LogStep.sell_filled i n p ∷ log) = revenue_in log + n * p
revenue_in (_ ∷ log) = revenue_in log

unfoldable pub buys_in : List LogStep → ℕ
buys_in [] = 0
buys_in (LogStep.buy_filled i n p ∷ log) = buys_in log + 1
buys_in (_ ∷ log) = buys_in log

-- The books say what the log says.
unfoldable pub IsBooked : Core → Type 0
IsBooked c =
    (c.position_shares ≡ pos (bought_in c.log) -ℤ pos (sold_in c.log))
    × (c.entry_cost ≡ cost_in c.log)
    × (c.exit_revenue ≡ revenue_in c.log)
    × (c.exit_filled_shares ≡ sold_in c.log)
    × (c.buy_fill_count ≡ buys_in c.log)

bought_more : (z : ℤ) (b s n : ℕ) → z ≡ pos b -ℤ pos s → z +ℤ pos n ≡ pos (b + n) -ℤ pos s
bought_more z b s n e = grind int_laws

sold_more : (z : ℤ) (b s n : ℕ) → z ≡ pos b -ℤ pos s → z -ℤ pos n ≡ pos b -ℤ pos (s + n)
sold_more z b s n e = grind int_laws

noted-IsBooked : (n : Note) (t : Trade) → IsBooked (core t) → IsBooked (core (log_note n t))
unfolding IsBooked log_note bought_in sold_in cost_in revenue_in buys_in
noted-IsBooked n t h = h

bought-IsBooked :
    (i n p : ℕ) (t : Trade) → IsBooked (core t) → IsBooked (core (record_buy_fill i n p t))
unfolding IsBooked record_buy_fill bought_in sold_in cost_in revenue_in buys_in
bought-IsBooked i n p t h = (
  bought_more t.position_shares (bought_in t.log) (sold_in t.log) n h.0,
  omega (arith, h.1),
  h.2,
  h.3,
  omega (arith, h.4),
)

sold-IsBooked :
    (i n p : ℕ) (t : Trade) → IsBooked (core t) → IsBooked (core (record_sell_fill i n p t))
unfolding IsBooked record_sell_fill bought_in sold_in cost_in revenue_in buys_in
sold-IsBooked i n p t h = (
  sold_more t.position_shares (bought_in t.log) (sold_in t.log) n h.0,
  h.1,
  omega (arith, h.2),
  omega (arith, h.3),
  h.4,
)

started-IsBooked : (t : Trade) → IsBooked (core t) → IsBooked (core (mark_exit_started t))
unfolding IsBooked mark_exit_started
started-IsBooked t h =
    either_way (λ x. IsBooked (core x)) t.exit_started t
      (record t { exit_started = true; phase = Phase.exit }) h h

ended-IsBooked : (r : Reason) (t : Trade) → IsBooked (core t) → IsBooked (core (close r t))
unfolding IsBooked close bought_in sold_in cost_in revenue_in buys_in
ended-IsBooked r t h =
    either_way (λ x. IsBooked (core x)) (is_closed t) t
      (record t {
        phase = Phase.closed;
        sell_done = set_done t.sell_done;
        log = LogStep.event_closed r ∷ t.log;
      })
      h h

abbrev booked : Invariant
booked = record {
  Holds = IsBooked;
  noted = noted-IsBooked;
  bought = bought-IsBooked;
  sold = sold-IsBooked;
  started = started-IsBooked;
  ended = ended-IsBooked;
}

pub new_trade-IsBooked : (cent : ℕ) → IsBooked (core (new_trade cent))
unfolding IsBooked new_trade bought_in sold_in cost_in revenue_in buys_in ◌-ℤ◌
new_trade-IsBooked cent = (refl, refl, refl, refl, refl)

pub step-IsBooked :
    (u : Units) (s : Step) (t : Trade) → IsBooked (core t) → IsBooked (core (step u s t))
unfolding Kept
step-IsBooked u s t h = step-Kept booked u s t h

-- However the coroutines of a trade interleave and whatever the exchange answers, the books are those
-- of the event log: the position is what the logged BUY fills bought less what the SELL fills sold,
-- the entry cost and the exit revenue are the sums of size times price, and the shares sold and the
-- number of BUY fills are as logged.
pub run-IsBooked :
    (u : Units) (ss : List Step) (cent : ℕ) → IsBooked (core (run u ss (new_trade cent)))
unfolding Kept
run-IsBooked u ss cent = run-Kept booked u ss (new_trade cent) (new_trade-IsBooked cent)
