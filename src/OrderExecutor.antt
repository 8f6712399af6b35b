-- ===== src/OrderExecutor.antt =====
-- backend/src/framework/strategy_runtime/order_executor.py: `OrderExecutor`, what an order is refused
-- for, how the exchange's answer is read, and the cancel with a fill check. The answers of the
-- exchange, of the tick-size service and of the poller are arguments; sizes, prices and amounts are
-- numbers of fixed units (amounts are integers, as the exchange may send any). An execution price is the
-- fraction of the two amounts. Warm-up, the fast path's trace and log texts are not here.
use poly_strategy.Prelude.{
  ℕ, zero, suc, ◌+◌, ◌*◌, Bool, true, false, not, ◌&&◌, ◌||◌, Option, none, some, ℤ, pos, negsuc,
  pos_part, leb_ℤ, ltb, ltb_ℤ, ◌==◌, if◌then◌else◌,
}
use poly_strategy.UserWs.Watch.{Side}
use poly_strategy.SellFailure.Classify.{OrderStatus}
use poly_strategy.SweepTrade.State.{CancelResult}
pub mod Orders
pub mod Cancels
mod Tests

pub data RawStatus : Type 0 where
  matched live other : RawStatus

-- The answer of the exchange; a missing amount is 0.
pub record Response : Type 0 where
  pub raw_status : RawStatus
  pub order_id : Option ℕ
  pub taking_amount : Option ℤ
  pub making_amount : Option ℤ

-- What `place_order` returns: the price is numerator and denominator.
pub record Placed : Type 0 where
  pub order_id : ℕ
  pub status : OrderStatus
  pub filled_size : ℕ
  pub filled_price : Option (ℕ × ℕ)

abbrev pub amount : Option ℤ → ℤ
amount none = pos 0
amount (some z) = z

abbrev pub id_or : ℕ → Option ℕ → ℕ
id_or default none = default
id_or default (some i) = i

abbrev pub refused : ℕ → OrderStatus → Placed
refused order_id status = record {
  order_id = order_id;
  status = status;
  filled_size = 0;
  filled_price = none;
}

-- The amount that counts shares, and the amount that counts money.
abbrev pub shares_of : Side → (taking making : ℤ) → ℤ
shares_of Side.buy taking making = taking
shares_of Side.sell taking making = making

abbrev pub money_of : Side → (taking making : ℤ) → ℤ
money_of Side.buy taking making = making
money_of Side.sell taking making = taking

unfoldable pub parse_matched : (order_id order_size : ℕ) → Side → (taking making : ℤ) → Placed
parse_matched order_id order_size side taking making =
    let filled = shares_of side taking making in
    if leb_ℤ filled (pos 0) || (leb_ℤ taking (pos 0) || leb_ℤ making (pos 0))
    then refused order_id OrderStatus.failed
    else record {
      order_id = order_id;
      status = if ltb_ℤ filled (pos order_size) then OrderStatus.partial else OrderStatus.filled;
      filled_size = pos_part filled;
      filled_price = some (pos_part (money_of side taking making), pos_part filled);
    }

unfoldable pub parse_response : (order_id order_size : ℕ) → Side → Response → RawStatus → Placed
unfolding parse_matched
parse_response order_id order_size side r RawStatus.matched =
    parse_matched (id_or order_id r.order_id) order_size side (amount r.taking_amount)
      (amount r.making_amount)
parse_response order_id order_size side r RawStatus.live =
    refused (id_or order_id r.order_id) OrderStatus.live
parse_response order_id order_size side r RawStatus.other =
    refused (id_or order_id r.order_id) OrderStatus.failed

-- `_parse_result`
unfoldable pub parse_result : (order_id order_size : ℕ) → Side → Option Response → Placed
unfolding parse_response
parse_result order_id order_size side none = refused order_id OrderStatus.failed
parse_result order_id order_size side (some r) =
    parse_response order_id order_size side r r.raw_status

-- What the tick-size service says, if it is asked.
pub data TickAnswer : Type 0 where
  not_asked fetch_failed : TickAnswer
  authoritative : ℕ → TickAnswer

-- The caller's tick size against the authoritative one.
unfoldable pub tick_is_wrong : (tick_size : Option ℕ) → TickAnswer → Bool
tick_is_wrong tick_size TickAnswer.not_asked = false
tick_is_wrong tick_size TickAnswer.fetch_failed = true
tick_is_wrong none (TickAnswer.authoritative n) = false
tick_is_wrong (some given) (TickAnswer.authoritative n) = not (given == n)

abbrev pub is_buy : Side → Bool
is_buy Side.buy = true
is_buy Side.sell = false

-- An order that the exchange is not asked for, or none; `available_cash` is the poller's.
unfoldable pub refusal :
    (order_id available_cash : ℕ)
    → TickAnswer
    → (check_balance : Bool) → Side
    → (price size : ℕ) → (tick_size : Option ℕ) → Option Placed
unfolding tick_is_wrong
refusal order_id available_cash tick check_balance side price size tick_size =
    if tick_is_wrong tick_size tick
    then some (refused order_id OrderStatus.failed)
    else if check_balance && is_buy side && ltb available_cash (price * size)
    then some (refused order_id OrderStatus.insufficient_balance)
    else none

-- What the exchange does with the order that is sent: it raises, or answers.
pub data Sent : Type 0 where
  raised : Sent
  answered : Option Response → Sent

unfoldable pub finish_order : (order_id size : ℕ) → Side → Option Placed → Sent → Placed
unfolding parse_result
finish_order order_id size side (some p) sent = p
finish_order order_id size side none Sent.raised = refused order_id OrderStatus.failed
finish_order order_id size side none (Sent.answered r) = parse_result order_id size side r

-- `place_order`
unfoldable pub place_order :
    (order_id available_cash : ℕ)
    → TickAnswer
    → (check_balance : Bool) → Side
    → (price size : ℕ) → (tick_size : Option ℕ) → Sent
    → Placed
unfolding refusal finish_order
place_order order_id available_cash tick check_balance side price size tick_size sent =
    finish_order order_id size side
      (refusal order_id available_cash tick check_balance side price size tick_size) sent

-- An answer to the query of an order.
pub data Answer : Type 0 where
  failed missing live : Answer
  final : (size_matched : ℕ) → Answer

abbrev pub final_or : Answer → Option ℕ → Option ℕ
final_or (Answer.final n) later = some n
final_or _ later = later

-- `_get_order_after_cancel`: as many attempts as are left, from the attempt `i` on.
unfoldable pub query : (attempts i : ℕ) → (ℕ → Answer) → Option ℕ
query zero i answers = none
query (suc attempts) i answers = final_or (answers i) (query attempts (suc i) answers)

unfoldable pub get_order_after_cancel : (ℕ → Answer) → Option ℕ
unfolding query
get_order_after_cancel answers = query 3 0 answers

unfoldable pub check_fill : (cancelled : Bool) → Option ℕ → CancelResult
check_fill cancelled none = record {
  cancelled = cancelled;
  final_matched = negsuc 0;
  query_failed = true;
  has_error = not cancelled;
}
check_fill cancelled (some n) = record {
  cancelled = cancelled;
  final_matched = pos n;
  query_failed = false;
  has_error = not cancelled;
}

-- `cancel_order_with_fill_check`
unfoldable pub cancel_order_with_fill_check : (cancelled : Bool) → (ℕ → Answer) → CancelResult
unfolding get_order_after_cancel check_fill
cancel_order_with_fill_check cancelled answers =
    check_fill cancelled (get_order_after_cancel answers)
