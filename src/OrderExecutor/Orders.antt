-- ===== src/OrderExecutor/Orders.antt =====
-- How the answer to an order is read (order_executor.py).
use poly_strategy.Prelude.{
  ℕ, ◌≡◌, sym, refl, Option, none, some, ℤ, pos, negsuc, ltb, ◌==◌, ◌||◌, if◌then◌else◌, arith,
}
use poly_strategy.UserWs.Watch.{Side}
use poly_strategy.SellFailure.Classify.{OrderStatus}
use poly_strategy.OrderExecutor.{
  RawStatus, Response, Placed, amount, id_or, parse_matched, parse_response, parse_result,
}

-- An amount that counts: one above zero.
abbrev pub counted : Option ℤ → ℕ
counted none = 0
counted (some (pos n)) = n
counted (some (negsuc n)) = 0

-- The identifier that the answer names, or else the given one.
abbrev pub named : ℕ → Option ℕ → ℕ
named given none = given
named given (some i) = i

id_or-named : (given : ℕ) (o : Option ℕ) → id_or given o ≡ named given o
id_or-named given none = refl
id_or-named given (some i) = refl

-- What is said of a BUY of `n` shares that took shares for cash, and of a SELL that made shares for cash.
abbrev pub settled : (id n : ℕ) → Side → (taken made : ℕ) → Placed
settled id n Side.buy taken made = record {
  order_id = id;
  status = if ltb taken n then OrderStatus.partial else OrderStatus.filled;
  filled_size = taken;
  filled_price = some (made, taken);
}
settled id n Side.sell taken made = record {
  order_id = id;
  status = if ltb made n then OrderStatus.partial else OrderStatus.filled;
  filled_size = made;
  filled_price = some (taken, made);
}

abbrev pub unfilled : (id : ℕ) → OrderStatus → Placed
unfilled id status = record { order_id = id; status = status; filled_size = 0; filled_price = none }

-- What an answer of the exchange says of the order.
abbrev pub reading : (id n : ℕ) → Side → RawStatus → (taken made : ℕ) → Placed
reading id n side RawStatus.live taken made = unfilled id OrderStatus.live
reading id n side RawStatus.other taken made = unfilled id OrderStatus.failed
reading id n side RawStatus.matched taken made =
    if taken == 0 || made == 0 then unfilled id OrderStatus.failed else settled id n side taken made

matched-reading :
    (id n : ℕ) (side : Side) (taking making : Option ℤ)
    → parse_matched id n side (amount taking) (amount making)
      ≡ reading id n side RawStatus.matched (counted taking) (counted making)
unfolding parse_matched
matched-reading id n Side.buy none none = ground arith
matched-reading id n Side.buy none (some (pos y)) = ground arith
matched-reading id n Side.buy none (some (negsuc y)) = ground arith
matched-reading id n Side.buy (some (pos x)) none = ground arith
matched-reading id n Side.buy (some (pos x)) (some (pos y)) = ground arith
matched-reading id n Side.buy (some (pos x)) (some (negsuc y)) = ground arith
matched-reading id n Side.buy (some (negsuc x)) none = ground arith
matched-reading id n Side.buy (some (negsuc x)) (some (pos y)) = ground arith
matched-reading id n Side.buy (some (negsuc x)) (some (negsuc y)) = ground arith
matched-reading id n Side.sell none none = ground arith
matched-reading id n Side.sell none (some (pos y)) = ground arith
matched-reading id n Side.sell none (some (negsuc y)) = ground arith
matched-reading id n Side.sell (some (pos x)) none = ground arith
matched-reading id n Side.sell (some (pos x)) (some (pos y)) = ground arith
matched-reading id n Side.sell (some (pos x)) (some (negsuc y)) = ground arith
matched-reading id n Side.sell (some (negsuc x)) none = ground arith
matched-reading id n Side.sell (some (negsuc x)) (some (pos y)) = ground arith
matched-reading id n Side.sell (some (negsuc x)) (some (negsuc y)) = ground arith

-- An answer with a status is read by it: live as a resting order, matched with both amounts above zero as a
-- fill, and everything else, a missing answer included, as a failure. A fill has the taken shares for a
-- BUY and the made ones for a SELL, at the price of the other amount by them, and is partial exactly if
-- they are fewer than ordered. The order has the identifier of the answer, or else the given one.
pub parse_result-reading :
    (i n : ℕ) (side : Side)
    → (parse_result i n side none ≡ unfilled i OrderStatus.failed)
      × ((r : Response)
          → parse_result i n side (some r)
            ≡ reading
                (named i r.order_id)
                n
                side
                r.raw_status
                (counted r.taking_amount)
                (counted r.making_amount))
unfolding parse_result parse_response
parse_result-reading i n side = (refl, of_answer)
  where
    of_status :
        (r : Response) (s : RawStatus)
        → parse_response i n side r s
          ≡ reading
              (named i r.order_id)
              n
              side
              s
              (counted r.taking_amount)
              (counted r.making_amount)
    of_status r RawStatus.matched =
        rw (sym (id_or-named i r.order_id))
          (matched-reading (id_or i r.order_id) n side r.taking_amount r.making_amount)
    of_status r RawStatus.live = rw (id_or-named i r.order_id) refl
    of_status r RawStatus.other = rw (id_or-named i r.order_id) refl

    of_answer :
        (r : Response)
        → parse_result i n side (some r)
          ≡ reading
              (named i r.order_id)
              n
              side
              r.raw_status
              (counted r.taking_amount)
              (counted r.making_amount)
    of_answer r = of_status r r.raw_status
