-- ===== src/SweepTrade/ForceExit.antt =====
-- `force_exit` and `stop` of service.py, cut at its awaits.
use poly_strategy.Prelude.{
  ℕ, Bool, not, Option, none, some, ℤ, pos_part, ◌-ℤ◌, ltb_ℤ, if◌then◌else◌,
}
use poly_strategy.SweepTrade.State.{
  Trade, Reason, Note, CancelResult, ForcePoint, TimerPoint, is_closed,
}
use poly_strategy.SweepTrade.Ledger.{log_note, record_sell_fill, mark_exit_started, close}
use poly_strategy.SweepTrade.Entry.{reconcile_buy, stop_for_cancel_failure}

abbrev pub force_at : ForcePoint → Trade → Trade
force_at p t = record t { force = p }

abbrev pub force_over : Trade → Trade
force_over = force_at ForcePoint.finished

unfoldable pub force_close : Trade → Trade
unfolding close
force_close t = force_over (close Reason.force_exit t)

-- The pending SELL order is cancelled next, if there is one.
unfoldable pub cancel_sell_of : Option ℕ → Trade → Trade
unfolding force_close
cancel_sell_of none t = force_close t
cancel_sell_of (some order_id) t =
    force_at (ForcePoint.cancelling_sell order_id t.position_shares) t

unfoldable pub force_cancel_sell : Trade → Trade
unfolding cancel_sell_of
force_cancel_sell t = cancel_sell_of t.exit_order_id t

-- The pending BUY order is cancelled first, if there is one.
unfoldable pub cancel_buy_of : Option ℕ → Trade → Trade
unfolding force_cancel_sell
cancel_buy_of none t = force_cancel_sell t
cancel_buy_of (some order_id) t = force_at (ForcePoint.cancelling_buy order_id) t

unfoldable pub start_force_exit : Trade → Trade
unfolding log_note mark_exit_started cancel_buy_of
start_force_exit t =
    let t1 =
      mark_exit_started
        (log_note Note.force_exit_requested (record t { entry_timer = TimerPoint.off })) in
    if is_closed t then t else cancel_buy_of t.entry_order_id t1

-- The answer to the cancel of the BUY order.
unfoldable pub on_force_buy_cancel : (pauses : Bool) → (order_id : ℕ) → CancelResult → Trade → Trade
unfolding stop_for_cancel_failure log_note reconcile_buy force_cancel_sell
on_force_buy_cancel pauses order_id c t =
    let t1 = record t { entry_order_id = none } in
    if not c.cancelled
    then force_over
        (stop_for_cancel_failure Note.buy_cancel_failed Reason.buy_cancel_failed pauses c t)
    else if c.query_failed
    then force_over (
        stop_for_cancel_failure Note.fill_reconcile_failed Reason.fill_reconcile_failed pauses c t1)
    else force_cancel_sell (reconcile_buy order_id c (log_note Note.buy_cancelled t1))

-- A SELL that the exchange matched and the trade did not see since the cancel began.
unfoldable pub reconcile_sell :
    (order_id : ℕ) → (sell_start_shares : ℤ) → CancelResult → Trade → Trade
unfolding record_sell_fill log_note
reconcile_sell order_id sell_start_shares c t =
    let sold_by_memory = sell_start_shares -ℤ t.position_shares in
    if ltb_ℤ sold_by_memory c.final_matched
    then log_note Note.fill_reconciled
        (record_sell_fill order_id (pos_part (c.final_matched -ℤ sold_by_memory)) t.sell_price t)
    else t

-- The answer to the cancel of the SELL order.
unfoldable pub on_force_sell_cancel :
    (pauses : Bool) → (order_id : ℕ) → (sell_start_shares : ℤ) → CancelResult → Trade → Trade
unfolding stop_for_cancel_failure log_note reconcile_sell force_close
on_force_sell_cancel pauses order_id sell_start_shares c t =
    let t1 = record t { exit_order_id = none } in
    if not c.cancelled
    then force_over
        (stop_for_cancel_failure Note.sell_cancel_failed Reason.sell_cancel_failed pauses c t)
    else if c.query_failed
    then force_over (
        stop_for_cancel_failure Note.fill_reconcile_failed Reason.fill_reconcile_failed pauses c t1)
    else force_close (reconcile_sell order_id sell_start_shares c (log_note Note.sell_cancelled t1))

-- `stop`: the entry timer is cancelled.
unfoldable pub stop_trade : Trade → Trade
stop_trade t = record t { entry_timer = TimerPoint.off }
