-- ===== src/OrderExecutor/Tests.antt =====
-- Orders and cancels at concrete inputs (order_executor.py), with sizes in shares and prices in cents.
use poly_strategy.Prelude.{ℕ, zero, suc, ◌≡◌, ◌⊎◌, refl, true, none, some, pos, ◌≤ℤ◌, arith}
use poly_strategy.UserWs.Watch.{Side}
use poly_strategy.SellFailure.Classify.{OrderStatus}
use poly_strategy.SweepTrade.State.{new_trade}
use poly_strategy.SweepTrade.Entry.{reconcile_buy}
use poly_strategy.OrderExecutor.{
  RawStatus, Response, Answer, parse_result, cancel_order_with_fill_check,
}
use poly_strategy.OrderExecutor.Orders.{counted, named, unfilled, reading, parse_result-reading}
use poly_strategy.OrderExecutor.Cancels.{fill_check_reconciles}

-- 40 shares for 3800 cents.
abbrev response : Response
response = record {
  raw_status = RawStatus.matched;
  order_id = some 8;
  taking_amount = some (pos 40);
  making_amount = some (pos 3800);
}

parse_result-reading_example :
    (parse_result 7 100 Side.buy none ≡ unfilled 7 OrderStatus.failed)
    × ((r : Response)
        → parse_result 7 100 Side.buy (some r)
          ≡ reading
              (named 7 r.order_id)
              100
              Side.buy
              r.raw_status
              (counted r.taking_amount)
              (counted r.making_amount))
parse_result-reading_example = parse_result-reading 7 100 Side.buy

-- The answer above is a fill of 40 of the 100 shares.
response_fills : parse_result 7 100 Side.buy (some response) ≡ record {
  order_id = 8;
  status = OrderStatus.partial;
  filled_size = 40;
  filled_price = some (3800, 40);
}
response_fills = (parse_result-reading 7 100 Side.buy).1 response

abbrev answers : ℕ → Answer
answers zero = Answer.failed
answers (suc i) = Answer.final 60

fill_check_reconciles_example :
    let t' = reconcile_buy 7 (cancel_order_with_fill_check true answers) (new_trade 10) in
    (pos 60 ≤ℤ t'.position_shares)
    × ((t'.position_shares ≡ (new_trade 10).position_shares) ⊎ (t'.position_shares ≡ pos 60))
fill_check_reconciles_example = fill_check_reconciles 7 60 answers (new_trade 10) (omega arith) refl
