-- ===== src/SweepTrade/Ledger.antt =====
-- The parts that every path of a trade goes through: fills, notes, the phase and the close
-- (service.py).
use poly_strategy.Prelude.{
  ℕ, ◌+◌, ◌*◌, Bool, true, false, not, ◌&&◌, ◌||◌, Option, none, some, ◌∷◌, pos, ◌+ℤ◌, ◌-ℤ◌, ltb_ℤ,
  ltb, if◌then◌else◌,
}
use poly_strategy.SellFailure.Classify.{OrderStatus}
use poly_strategy.SweepTrade.State.{
  Trade, Phase, Reason, Note, LogStep, OrderResult, is_closed, is_flat,
}

-- A step of the log that only reports.
unfoldable pub log_note : Note → Trade → Trade
log_note n t = record t { log = LogStep.note n ∷ t.log }

-- `_execution_price`, for a price that is a Decimal.
unfoldable pub execution_price : OrderResult → ℕ → ℕ
execution_price r limit_price = elim r.filled_price [
  | none ↦ limit_price
  | some price ↦ if ltb 0 price then price else limit_price
]

-- `_record_buy_fill`
unfoldable pub record_buy_fill : (order_id filled price : ℕ) → Trade → Trade
record_buy_fill order_id filled price t = record t {
  position_shares = t.position_shares +ℤ pos filled;
  entry_cost = t.entry_cost + filled * price;
  buy_fill_count = t.buy_fill_count + 1;
  log = LogStep.buy_filled order_id filled price ∷ t.log;
}

-- `_record_sell_fill`, and `_record_sell_fill_risk`, which differ in the summary only.
unfoldable pub record_sell_fill : (order_id filled price : ℕ) → Trade → Trade
record_sell_fill order_id filled price t = record t {
  position_shares = t.position_shares -ℤ pos filled;
  exit_filled_shares = t.exit_filled_shares + filled;
  exit_revenue = t.exit_revenue + filled * price;
  log = LogStep.sell_filled order_id filled price ∷ t.log;
}

-- `_mark_exit_started`
unfoldable pub mark_exit_started : Trade → Trade
mark_exit_started t =
    if t.exit_started then t else record t { exit_started = true; phase = Phase.exit }

-- `sell_done.set()`, if there is an event.
abbrev pub set_done : Option Bool → Option Bool
set_done none = none
set_done (some b) = some true

unfoldable pub signal_done : Trade → Trade
signal_done t = record t { sell_done = set_done t.sell_done }

-- `_close`
unfoldable pub close : Reason → Trade → Trade
close reason t = if is_closed t then t else record t {
  phase = Phase.closed;
  sell_done = set_done t.sell_done;
  log = LogStep.event_closed reason ∷ t.log;
}

-- `_close_exit_failed`: the strategy is told once, if there is an error signature, and `pauses` says
-- whether it pauses then.
unfoldable pub close_exit_failed : Reason → (has_signature pauses : Bool) → Trade → Trade
unfolding close log_note
close_exit_failed reason has_signature pauses t =
    let reports = has_signature && not t.exit_failure_reported in
    let t1 = record t { exit_failure_reported = t.exit_failure_reported || reports } in
    close reason (if reports && pauses then log_note Note.strategy_paused t1 else t1)

-- The fill that an accepted order brings at once.
unfoldable pub immediate_fill : OrderStatus → ℕ → Bool
immediate_fill OrderStatus.filled filled = ltb 0 filled
immediate_fill OrderStatus.partial filled = ltb 0 filled
immediate_fill _ filled = false

-- `_close_if_dust_position`: the position is above zero and below the market's minimum.
unfoldable pub is_dust : Option ℕ → Trade → Bool
is_dust none t = false
is_dust (some min_order_size) t = not (is_flat t) && ltb_ℤ t.position_shares (pos min_order_size)

unfoldable pub close_dust : Trade → Trade
unfolding close log_note
close_dust t = close Reason.dust_position (log_note Note.dust_position_detected t)
