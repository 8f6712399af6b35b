-- ===== src/SweepTrade/Entry.antt =====
-- `enter`, `_on_buy_fill`, `_entry_timeout` and `_on_tick_change` of service.py, cut at their awaits.
-- The BUY order's price is `limit_price` (0.99).
use poly_strategy.Prelude.{
  ℕ, ◌*◌, ◌/◌, min, Bool, true, false, not, ◌&&◌, ◌||◌, Option, none, some, pos, pos_part, ◌-ℤ◌,
  ltb, leb, ltb_ℤ, if◌then◌else◌,
}
use poly_strategy.SellFailure.Classify.{OrderStatus}
use poly_strategy.SweepTrade.State.{
  Trade, Reason, Note, OrderResult, CancelResult, TimerPoint, is_closed, is_flat,
}
use poly_strategy.SweepTrade.Ledger.{
  log_note, execution_price, record_buy_fill, close, close_exit_failed, immediate_fill,
}
use poly_strategy.SweepTrade.NormalExit.{start_normal_exit, is_filled}

-- The size of the BUY order: the whole shares, of `share` units each, that the cash buys at the limit
-- price, the fixed number at most.
unfoldable pub entry_size : (share limit_price fixed_shares available_cash : ℕ) → ℕ
entry_size share limit_price fixed_shares available_cash =
    min fixed_shares (if ltb 0 limit_price then available_cash / limit_price * share else 0)

-- `_record_entry_complete`
unfoldable pub record_entry_complete : Trade → Trade
unfolding log_note start_normal_exit
record_entry_complete t =
    let t1 = log_note Note.entry_complete t in
    if is_closed t then t else if t.tick_is_verified then start_normal_exit t1 else t1

-- `enter` without the cash for a share.
unfoldable pub skip_entry : Trade → Trade
unfolding log_note close
skip_entry t = close Reason.no_cash (log_note Note.buy_order_skipped t)

unfoldable pub take_buy_fill : (limit_price : ℕ) → OrderResult → Trade → Trade
unfolding immediate_fill record_buy_fill execution_price
take_buy_fill limit_price r t =
    if immediate_fill r.status r.filled_size
    then record_buy_fill r.order_id r.filled_size (execution_price r limit_price) t
    else t

-- The BUY order was accepted.
unfoldable pub on_buy_accepted : (limit_price : ℕ) → OrderResult → Trade → Trade
unfolding take_buy_fill record_entry_complete
on_buy_accepted limit_price r t =
    let t1 = take_buy_fill limit_price r (record t { entry_order_id = some r.order_id }) in
    if is_filled r.status
    then record_entry_complete (record t1 { entry_order_id = none })
    else record t1 { buy_price = limit_price; entry_timer = TimerPoint.waiting }

-- What `enter` does for each status of the BUY order.
unfoldable pub on_buy_status : OrderStatus → (limit_price : ℕ) → OrderResult → Trade → Trade
unfolding log_note close on_buy_accepted
on_buy_status OrderStatus.insufficient_balance limit_price r t =
    close Reason.no_cash (log_note Note.buy_order_skipped t)
on_buy_status OrderStatus.failed limit_price r t =
    close Reason.buy_placement_failed (log_note Note.buy_order_failed t)
on_buy_status _ limit_price r t = on_buy_accepted limit_price r (log_note Note.buy_order_placed t)

-- The result of the BUY order of size `actual_shares`.
unfoldable pub on_buy_result : (limit_price actual_shares : ℕ) → OrderResult → Trade → Trade
unfolding on_buy_status
on_buy_result limit_price actual_shares r t =
    on_buy_status r.status limit_price r (record t { order_size = actual_shares })

-- `_on_buy_fill`
unfoldable pub on_buy_fill : (order_id fill_size fill_price total_matched : ℕ) → Trade → Trade
unfolding record_buy_fill record_entry_complete
on_buy_fill order_id fill_size fill_price total_matched t =
    let t1 = record_buy_fill order_id fill_size fill_price t in
    if is_closed t
    then t
    else if leb t.order_size total_matched
    then record_entry_complete (record t1 { entry_timer = TimerPoint.off; entry_order_id = none })
    else t1

-- The end of `_entry_timeout`.
unfoldable pub after_entry_timeout : Trade → Trade
unfolding log_note close start_normal_exit
after_entry_timeout t =
    let t1 = log_note Note.entry_timeout (record t { entry_timer = TimerPoint.off }) in
    if is_flat t
    then close Reason.timeout_no_fill t1
    else if t.tick_is_verified
    then start_normal_exit t1
    else t1

-- The wait of `_entry_timeout` is over.
unfoldable pub on_entry_timeout : Trade → Trade
unfolding after_entry_timeout
on_entry_timeout t =
    if is_closed t then record t { entry_timer = TimerPoint.off } else elim t.entry_order_id [
      | none ↦ after_entry_timeout t
      | some order_id ↦ record t { entry_timer = TimerPoint.cancelling order_id }
    ]

-- A BUY that the exchange matched and the trade did not see.
unfoldable pub reconcile_buy : (order_id : ℕ) → CancelResult → Trade → Trade
unfolding record_buy_fill log_note
reconcile_buy order_id c t =
    if ltb_ℤ (pos 0) c.final_matched && ltb_ℤ t.position_shares c.final_matched
    then log_note Note.fill_reconciled
        (record_buy_fill order_id (pos_part (c.final_matched -ℤ t.position_shares)) t.buy_price t)
    else t

-- `_stop_for_cancel_failure` and `_stop_for_cancel_query_failure`.
unfoldable pub stop_for_cancel_failure :
    Note → Reason → (pauses : Bool) → CancelResult → Trade → Trade
unfolding log_note close_exit_failed
stop_for_cancel_failure n reason pauses c t =
    close_exit_failed reason c.has_error pauses (log_note n t)

-- The answer to the cancel of `_entry_timeout`.
unfoldable pub on_entry_cancel : (pauses : Bool) → (order_id : ℕ) → CancelResult → Trade → Trade
unfolding stop_for_cancel_failure reconcile_buy after_entry_timeout log_note
on_entry_cancel pauses order_id c t =
    let t1 = record t { entry_order_id = none } in
    if not c.cancelled
    then stop_for_cancel_failure Note.buy_cancel_failed Reason.buy_cancel_failed pauses c
        (record t { entry_timer = TimerPoint.off })
    else after_entry_timeout (
        if c.query_failed
        then log_note Note.fill_reconcile_unavailable t1
        else reconcile_buy order_id c t1)

-- `_on_tick_change` up to the verification, for a tick size that `is_fine` (0.001) or not.
unfoldable pub on_tick_change : (is_fine : Bool) → Trade → Trade
on_tick_change is_fine t =
    if t.tick_is_verified || is_closed t || t.tick_verifying || not is_fine
    then t
    else record t { tick_verifying = true }

-- The verified tick size, or no confirmation.
unfoldable pub on_tick_verified : Option ℕ → Trade → Trade
unfolding log_note start_normal_exit
on_tick_verified none t =
    let t1 = record t { tick_verifying = false } in
    if is_closed t then t1 else log_note Note.tick_verify_failed t1
on_tick_verified (some tick) t =
    let t1 = record t { tick_verifying = false } in
    if is_closed t
    then t1
    else start_normal_exit (
        log_note Note.tick_verified (
          log_note Note.tick_verified (
            log_note Note.tick_verified (record t1 { tick_is_verified = true; tick_size = tick }))))
