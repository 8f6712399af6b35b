-- ===== src/SweepTrade/RiskExit.antt =====
-- `_risk_exit` of service.py, cut at its awaits, and the callbacks of its SELL order, whose price is
-- `floor_price` (0.01).
use poly_strategy.Prelude.{
  ℕ, Bool, true, false, ◌&&◌, Option, none, some, List, [], ◌∷◌, ◌++◌, if◌then◌else◌,
}
use poly_strategy.UserWs.Watch.{Side}
use poly_strategy.SweepTrade.State.{
  Trade, Reason, Note, OrderResult, RiskPoint, TimerPoint, is_closed, is_flat,
}
use poly_strategy.SweepTrade.Ledger.{
  log_note, record_sell_fill, mark_exit_started, signal_done, close, close_exit_failed,
}
use poly_strategy.SweepTrade.NormalExit.{sell_failure_reason, is_refused, take_fill}

abbrev pub risk_at : RiskPoint → Trade → Trade
risk_at p t = record t { risk = p }

abbrev pub risk_over : Trade → Trade
risk_over = risk_at RiskPoint.finished

abbrev pub cancel_reason : Side → Reason
cancel_reason Side.buy = Reason.buy_cancel_failed
cancel_reason Side.sell = Reason.sell_cancel_failed

-- The close of a risk exit: for the first cancel that failed, or for the stop loss.
unfoldable pub risk_close : (pauses : Bool) → List Side → Trade → Trade
unfolding close close_exit_failed
risk_close pauses [] t = risk_over (close Reason.stop_loss t)
risk_close pauses (side ∷ rest) t = risk_over (close_exit_failed (cancel_reason side) true pauses t)

-- After the cancels: nothing to sell, or the SELL order of the whole position.
unfoldable pub sell_at_floor : (floor_price : ℕ) → (pauses : Bool) → List Side → Trade → Trade
unfolding risk_close mark_exit_started
sell_at_floor floor_price pauses failures t =
    if is_flat t
    then risk_close pauses failures t
    else risk_at (RiskPoint.awaiting_order failures)
        (record (mark_exit_started t) { sell_price = floor_price })

-- The pending SELL order is cancelled next, if there is one.
unfoldable pub cancel_sell : (floor_price : ℕ) → (pauses : Bool) → List Side → Trade → Trade
unfolding sell_at_floor
cancel_sell floor_price pauses failures t = elim t.exit_order_id [
  | none ↦ sell_at_floor floor_price pauses failures t
  | some order_id ↦ risk_at (RiskPoint.cancelling_sell failures order_id) t
]

-- Up to the first cancel.
unfoldable pub start_risk_exit : (floor_price : ℕ) → (pauses : Bool) → Trade → Trade
unfolding log_note cancel_sell
start_risk_exit floor_price pauses t =
    let t1 = log_note Note.risk_triggered (record t { entry_timer = TimerPoint.off }) in
    if is_closed t then t else elim t.entry_order_id [
      | none ↦ cancel_sell floor_price pauses [] t1
      | some order_id ↦ risk_at (RiskPoint.cancelling_buy [] order_id) t1
    ]

-- `_cancel_order_fast`: what it reports.
abbrev pub cancel_note : Side → (cancelled : Bool) → Note
cancel_note Side.buy cancelled = if cancelled then Note.buy_cancelled else Note.buy_cancel_failed
cancel_note Side.sell cancelled = if cancelled then Note.sell_cancelled else Note.sell_cancel_failed

abbrev pub add_failure : Side → (cancelled : Bool) → List Side → List Side
add_failure side cancelled failures = if cancelled then failures else failures ++ side ∷ []

abbrev pub keep_unless : (cancelled : Bool) → Option ℕ → Option ℕ
keep_unless cancelled order_id = if cancelled then none else order_id

unfoldable pub on_buy_cancelled :
    (floor_price : ℕ) → (pauses cancelled : Bool) → List Side → Trade → Trade
unfolding log_note cancel_sell
on_buy_cancelled floor_price pauses cancelled failures t =
    cancel_sell floor_price pauses (add_failure Side.buy cancelled failures) (
      log_note (cancel_note Side.buy cancelled)
        (record t { entry_order_id = keep_unless cancelled t.entry_order_id }))

unfoldable pub on_sell_cancelled :
    (floor_price : ℕ) → (pauses cancelled : Bool) → List Side → Trade → Trade
unfolding log_note sell_at_floor
on_sell_cancelled floor_price pauses cancelled failures t =
    sell_at_floor floor_price pauses (add_failure Side.sell cancelled failures) (
      log_note (cancel_note Side.sell cancelled)
        (record t { exit_order_id = keep_unless cancelled t.exit_order_id }))

-- The SELL order at the floor price was accepted. `watched` says whether the user channel was there.
unfoldable pub on_floor_accepted :
    (floor_price : ℕ) → (pauses watched : Bool) → List Side → OrderResult → Trade → Trade
unfolding log_note take_fill risk_close close_exit_failed
on_floor_accepted floor_price pauses watched failures r t =
    let placed = log_note Note.sell_order_placed (record t { exit_order_id = some r.order_id }) in
    let t1 = take_fill floor_price r placed in
    if is_flat t1
    then risk_close pauses failures
        (log_note Note.sell_complete (record t1 { exit_order_id = none }))
    else if watched
    then risk_at (RiskPoint.awaiting_fill failures r.order_id)
        (record t1 { sell_done = some false })
    else risk_over (close_exit_failed Reason.sell_placement_failed true pauses t1)

unfoldable pub on_floor_result :
    (floor_price : ℕ)
    → (missing_fill pauses watched : Bool) → List Side
    → OrderResult
    → Trade
    → Trade
unfolding on_floor_accepted close_exit_failed sell_failure_reason log_note
on_floor_result floor_price missing_fill pauses watched failures r t =
    if is_refused r.status
    then risk_over (
        close_exit_failed (sell_failure_reason missing_fill) true pauses
          (log_note Note.sell_order_failed t))
    else on_floor_accepted floor_price pauses watched failures r t

abbrev pub is_empty : List Side → Bool
is_empty [] = true
is_empty (_ ∷ _) = false

-- The end of `_risk_exit`.
unfoldable pub finish_risk_exit : (pauses : Bool) → List Side → Trade → Trade
unfolding log_note risk_close
finish_risk_exit pauses failures t =
    risk_close pauses failures
      (if is_flat t && is_empty failures then log_note Note.sell_complete t else t)

unfoldable pub on_floor_done : (pauses : Bool) → List Side → Trade → Trade
unfolding finish_risk_exit
on_floor_done pauses failures t =
    finish_risk_exit pauses failures (record t { exit_order_id = none })

unfoldable pub on_floor_timeout : List Side → (order_id : ℕ) → Trade → Trade
unfolding log_note
on_floor_timeout failures order_id t =
    risk_at (RiskPoint.cancelling_rest failures order_id) (log_note Note.exit_order_unfilled t)

unfoldable pub on_rest_cancelled : (pauses cancelled : Bool) → List Side → Trade → Trade
unfolding log_note finish_risk_exit
on_rest_cancelled pauses cancelled failures t =
    finish_risk_exit pauses (add_failure Side.sell cancelled failures) (
      log_note (cancel_note Side.sell cancelled)
        (record t { exit_order_id = keep_unless cancelled t.exit_order_id }))

-- `_on_sell_fill_risk`
unfoldable pub on_sell_fill_risk : (order_id fill_size fill_price : ℕ) → Trade → Trade
unfolding record_sell_fill signal_done
on_sell_fill_risk order_id fill_size fill_price t =
    let t1 = record_sell_fill order_id fill_size fill_price t in
    if is_closed t then t else if is_flat t1 then signal_done t1 else t1
