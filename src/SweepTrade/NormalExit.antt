-- ===== src/SweepTrade/NormalExit.antt =====
-- `_start_normal_exit` of service.py, cut at its awaits.
use poly_strategy.Prelude.{
  ℕ, ◌+◌, ◌-◌, ◌*◌, ◌/◌, min, Bool, true, false, ◌&&◌, ◌||◌, Option, none, some, pos_part, ltb, leb,
  ◌==◌, if◌then◌else◌, is_some, insert, erase,
}
use poly_strategy.SellFailure.Classify.{Signature, OrderStatus, same, classify_sell_error}
use poly_strategy.SellFailure.Tracker.{new_tracker, record_failure}
use poly_strategy.SweepTrade.State.{
  Trade, Reason, Note, OrderResult, Loop, NormalPoint, is_closed, is_flat,
}
use poly_strategy.SweepTrade.Ledger.{
  log_note, execution_price, record_sell_fill, mark_exit_started, close, close_exit_failed,
  immediate_fill, is_dust, close_dust,
}

abbrev pub at_point : NormalPoint → Trade → Trade
at_point p t = record t { normal = p }

abbrev pub finish : Trade → Trade
finish = at_point NormalPoint.finished

-- Up to `refresh_consensus`.
unfoldable pub start_normal_exit : Trade → Trade
unfolding log_note
start_normal_exit t =
    if is_closed t || t.normal_exit_started
    then t
    else if is_flat t || is_some t.entry_order_id
    then log_note Note.exit_trigger_deferred t
    else record t { normal_exit_started = true; normal = NormalPoint.awaiting_consensus }

-- The tick size that the three sources agree on, or a failure.
unfoldable pub on_consensus : (pauses : Bool) → Option ℕ → Trade → Trade
unfolding log_note close_exit_failed
on_consensus pauses none t =
    finish (
      close_exit_failed Reason.tick_refresh_failed true pauses
        (log_note Note.tick_refresh_failed t))
on_consensus pauses (some tick) t = record t {
  tick_size = tick;
  normal = NormalPoint.awaiting_min_size;
}

-- From `mark_exit_started` to the SELL order, of the retry's size if there is one.
unfoldable pub sell_size_of : Option ℕ → Trade → ℕ
sell_size_of none t = pos_part t.position_shares
sell_size_of (some size) t = if size == 0 then pos_part t.position_shares else size

unfoldable pub submit : Loop → Trade → Trade
unfolding sell_size_of mark_exit_started
submit l t =
    at_point
      (NormalPoint.awaiting_order (record l { balance_retry_size = none })
        (sell_size_of l.balance_retry_size t))
      (mark_exit_started t)

-- From the head of the loop to its next await.
unfoldable pub loop_head : Loop → Trade → Trade
unfolding close is_dust close_dust submit
loop_head l t =
    let next = record l { attempt = l.attempt + 1 } in
    if is_flat t
    then finish (close Reason.normal_exit t)
    else if is_closed t
    then finish t
    else if is_dust l.min_order_size t
    then finish (close_dust t)
    else if l.attempt == 0
    then at_point (NormalPoint.awaiting_grace next) t
    else submit next t

-- The market's minimum size is loaded, and the loop begins; 1 is the price of a sure share.
unfoldable pub on_min_order_size : (one now : ℕ) → Option ℕ → Trade → Trade
unfolding is_dust close_dust loop_head new_tracker
on_min_order_size one now min_order_size t =
    if is_dust min_order_size t
    then finish (close_dust t)
    else loop_head
        (record {
          min_order_size = min_order_size;
          sell_price = one - t.tick_size;
          attempt = 0;
          tracker = new_tracker 3 now;
          invalid_tick_retries = 0;
          balance_retry_size = none;
        })
        t

-- The grace period before the first SELL is over.
unfoldable pub on_grace_over : Loop → Trade → Trade
unfolding submit
on_grace_over l t = if is_closed t then finish t else submit l t

-- `_sell_failure_reason`
unfoldable pub sell_failure_reason : (missing_fill : Bool) → Reason
sell_failure_reason missing_fill =
    if missing_fill then Reason.sell_fill_parse_error else Reason.sell_placement_failed

-- The size of a retry after a settlement lag, in steps of 0.01 shares (`cent_share`), if the sellable
-- quantity that the error names allows a smaller order.
unfoldable pub lag_retry : (cent_share sell_size : ℕ) → Option ℕ → Option ℕ → Trade → Option ℕ
lag_retry cent_share sell_size (some observed) (some min_order_size) t =
    let retry = min (pos_part t.position_shares) observed in
    if leb min_order_size observed && ltb retry sell_size
    then some (retry / cent_share * cent_share)
    else none
lag_retry cent_share sell_size observed min_order_size t = none

unfoldable pub on_balance_lag : Option ℕ → Loop → Trade → Trade
unfolding loop_head log_note
on_balance_lag (some retry) l t =
    loop_head (record l { balance_retry_size = some retry })
      (log_note Note.balance_settlement_retry t)
on_balance_lag none l t = at_point (NormalPoint.backing_off l) (
    log_note Note.balance_settlement_retry
      (record t { balance_lag_retry_index = t.balance_lag_retry_index + 1 }))

-- A failure that is not a settlement lag: another try with a fresh tick size, the circuit breaker, or
-- another try later.
unfoldable pub on_sell_error :
    (now : ℕ) → (missing_fill pauses : Bool) → Signature → Loop → OrderResult → Trade → Trade
unfolding record_failure log_note close_exit_failed sell_failure_reason
on_sell_error now missing_fill pauses signature l r t =
    let (tracker, failure) = record_failure now signature r.error l.tracker in
    let counted = record l { tracker = tracker } in
    let bad_tick = same signature Signature.invalid_tick_size in
    if bad_tick && ltb l.invalid_tick_retries 3
    then at_point
        (NormalPoint.refreshing_tick
          (record counted { invalid_tick_retries = l.invalid_tick_retries + 1 }) r)
        (log_note Note.sell_retry_started t)
    else if bad_tick || is_some failure.stop_reason
    then finish (
        close_exit_failed (sell_failure_reason missing_fill) true pauses
          (log_note Note.sell_circuit_breaker_triggered t))
    else at_point (NormalPoint.backing_off counted) (log_note Note.sell_retry_started t)

-- The tick size after a SELL that was refused for it.
unfoldable pub on_tick_refreshed :
    (one : ℕ) → (missing_fill pauses : Bool) → Option ℕ → Loop → Trade → Trade
unfolding log_note close_exit_failed loop_head sell_failure_reason
on_tick_refreshed one missing_fill pauses none l t = finish (
    close_exit_failed (sell_failure_reason missing_fill) true pauses
      (log_note Note.tick_refresh_failed t))
on_tick_refreshed one missing_fill pauses (some tick) l t =
    loop_head (record l { sell_price = one - tick })
      (log_note Note.tick_refreshed (record t { tick_size = tick }))

-- The SELL order was accepted: its immediate fill, then the loop's end, its next round, or the wait
-- for the user channel.
unfoldable pub take_fill : (limit_price : ℕ) → OrderResult → Trade → Trade
unfolding immediate_fill record_sell_fill execution_price
take_fill limit_price r t =
    if immediate_fill r.status r.filled_size
    then record_sell_fill r.order_id r.filled_size (execution_price r limit_price) t
    else t

abbrev pub is_filled : OrderStatus → Bool
is_filled OrderStatus.filled = true
is_filled _ = false

unfoldable pub complete : Trade → Trade
unfolding log_note close
complete t = finish (close Reason.normal_exit (log_note Note.sell_complete t))

-- The response says that the order is filled.
unfoldable pub on_sell_filled : Loop → (order_id : ℕ) → Trade → Trade
unfolding complete loop_head
on_sell_filled l order_id t =
    let t1 = record t {
      exit_order_id = none;
      normal_sell_order_sizes = erase order_id t.normal_sell_order_sizes;
    } in
    if is_flat t1 then complete t1 else loop_head l t1

-- The order stays in the book, and the loop waits for the user channel.
unfoldable pub await_fill : Loop → OrderResult → Trade → Trade
await_fill l r t = record t {
  sell_price = l.sell_price;
  sell_done = some false;
  normal_sell_cancelled = false;
  normal_sell_matched = insert r.order_id r.filled_size t.normal_sell_matched;
  normal = NormalPoint.awaiting_fill l r.order_id;
}

unfoldable pub place_sell : (sell_size : ℕ) → OrderResult → Trade → Trade
unfolding log_note
place_sell sell_size r t = log_note Note.sell_order_placed (record t {
  exit_order_id = some r.order_id;
  normal_sell_order_sizes = insert r.order_id sell_size t.normal_sell_order_sizes;
})

unfoldable pub on_sell_accepted : Loop → (sell_size : ℕ) → OrderResult → Trade → Trade
unfolding place_sell take_fill on_sell_filled await_fill
on_sell_accepted l sell_size r t =
    let t1 = take_fill l.sell_price r (place_sell sell_size r t) in
    if is_filled r.status then on_sell_filled l r.order_id t1 else await_fill l r t1

abbrev pub is_refused : OrderStatus → Bool
is_refused OrderStatus.failed = true
is_refused OrderStatus.insufficient_balance = true
is_refused _ = false

-- The result of the SELL order. What `_parse_balance_lag_sellable` reads from the error is `observed`.
unfoldable pub on_sell_result :
    (cent_share now : ℕ)
    → (missing_fill pauses : Bool) → (observed : Option ℕ) → Loop
    → (sell_size : ℕ) → OrderResult
    → Trade
    → Trade
unfolding log_note on_sell_accepted on_balance_lag lag_retry on_sell_error classify_sell_error
on_sell_result cent_share now missing_fill pauses observed l sell_size r t =
    let signature = classify_sell_error r.status r.error in
    let refused = log_note Note.sell_order_failed t in
    if is_refused r.status
    then if same signature Signature.insufficient_balance
      then on_balance_lag (lag_retry cent_share sell_size observed l.min_order_size t) l refused
      else on_sell_error now missing_fill pauses signature l r refused
    else on_sell_accepted l sell_size r t

-- `sell_done` is set.
unfoldable pub on_sell_done : Loop → (order_id : ℕ) → Trade → Trade
unfolding complete loop_head
on_sell_done l order_id t =
    let t1 = record t {
      normal_sell_matched = erase order_id t.normal_sell_matched;
      normal_sell_order_sizes = erase order_id t.normal_sell_order_sizes;
      exit_order_id = none;
    } in
    if is_closed t1 then finish t1 else if is_flat t1 then complete t1 else loop_head l t1
