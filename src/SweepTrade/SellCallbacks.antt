-- ===== src/SweepTrade/SellCallbacks.antt =====
-- The callbacks of the SELL orders that the normal exit watches (service.py).
use poly_strategy.Prelude.{
  ℕ, ◌-◌, max, Bool, true, false, ◌||◌, Option, none, some, ltb, leb, if◌then◌else◌, lookup, insert,
  erase,
}
use poly_strategy.SweepTrade.State.{Trade, Note, is_closed, is_flat}
use poly_strategy.SweepTrade.Ledger.{log_note, record_sell_fill, signal_done}

abbrev or_zero : Option ℕ → ℕ
or_zero none = 0
or_zero (some n) = n

abbrev is_reached : Option ℕ → ℕ → Bool
is_reached none total = false
is_reached (some size) total = leb size total

-- `_on_sell_fill`
unfoldable pub on_sell_fill : (order_id fill_size fill_price total_matched : ℕ) → Trade → Trade
unfolding record_sell_fill signal_done
on_sell_fill order_id fill_size fill_price total_matched t =
    let known = max (or_zero (lookup order_id t.normal_sell_matched)) total_matched in
    let t1 =
      record_sell_fill order_id fill_size fill_price
        (record t { normal_sell_matched = insert order_id known t.normal_sell_matched }) in
    if is_closed t
    then t
    else if is_flat t1 || is_reached (lookup order_id t1.normal_sell_order_sizes) total_matched
    then signal_done t1
    else t1

-- `_on_normal_sell_cancel`
unfoldable pub on_normal_sell_cancel : (order_id size_matched : ℕ) → Trade → Trade
unfolding record_sell_fill signal_done log_note
on_normal_sell_cancel order_id size_matched t =
    let known = or_zero (lookup order_id t.normal_sell_matched) in
    let t1 = record t { normal_sell_cancelled = true } in
    let t2 =
      if ltb known size_matched
      then record_sell_fill order_id (size_matched - known) t.sell_price t1
      else t1 in
    signal_done (
      log_note Note.sell_cancelled (record t2 {
        normal_sell_matched = erase order_id t2.normal_sell_matched;
        normal_sell_order_sizes = erase order_id t2.normal_sell_order_sizes;
      }))
