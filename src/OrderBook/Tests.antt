-- ===== src/OrderBook/Tests.antt =====
-- Order books at concrete inputs (orderbook_ws.py), with prices in cents.
use poly_strategy.Prelude.{
  ℕ, ◌≡◌, refl, true, false, ◌&&◌, none, some, List, [], ◌∷◌, lookup, insert, ◌==◌, if◌then◌else◌,
}
use poly_strategy.OrderBook.Book.{
  Level, BookSide, empty_book, apply_snapshot, apply_change, best_bid, best_ask, double_mid,
}
use poly_strategy.OrderBook.Levels.{
  last_size, size_after, is_buy, IsGreatest, IsLeast, snapshot_and_change,
}
use poly_strategy.OrderBook.Registry.{Subscription, Call, calls, new_ws}
use poly_strategy.OrderBook.Consistency.{IsConsistent, registry-IsConsistent}

abbrev row : ℕ → ℕ → Level
row p s = record { price = p; size = s }

abbrev bids : List Level
bids = row 40 5 ∷ row 41 7 ∷ row 39 0 ∷ row 40 6 ∷ []

abbrev asks : List Level
asks = row 45 2 ∷ row 44 1 ∷ []

double_mid_runs : double_mid (apply_snapshot bids asks empty_book) ≡ some 85
unfolding double_mid apply_snapshot insert
double_mid_runs = refl

snapshot_and_change_example :
    let b = apply_change 41 0 BookSide.buy (apply_snapshot bids asks empty_book) in
    (lookup 41 b.bids
      ≡ (if is_buy BookSide.buy && (41 == 41) then size_after 0 else last_size 41 bids none))
    × IsGreatest (best_bid b) b.bids
    × IsLeast (best_ask b) b.asks
snapshot_and_change_example = snapshot_and_change bids asks 41 0 41 BookSide.buy empty_book

abbrev subscription : ℕ → Subscription
subscription i = record { id = i; asset_id = 5; has_on_bbo = true; has_on_tick = false }

abbrev session : List Call
session =
    Call.subscribe_to (subscription 1)
    ∷ Call.subscribe_to (subscription 2)
    ∷ Call.snapshot_message (
        record { asset_id = 5; bids = bids; asks = asks; tick_size = some 1; min_order_size = none }
        ∷ [])
    ∷ Call.price_message 100 (
        record {
          asset_id = 5;
          price = 41;
          size = 0;
          side = BookSide.buy;
          server_bid = some 40;
          server_ask = none;
        }
        ∷ [])
    ∷ Call.unsubscribe_from 1
    ∷ Call.tick_message 5 1
    ∷ []

registry-IsConsistent_example : IsConsistent (calls session new_ws)
registry-IsConsistent_example = registry-IsConsistent session
