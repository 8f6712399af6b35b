-- ===== src/OrderBook/Book.antt =====
-- `LocalOrderBook` of orderbook_ws.py.
use poly_strategy.Prelude.{
  ℕ, ◌+◌, min, max, Option, none, some, List, [], ◌∷◌, Dict, insert, erase, ltb, ◌==◌,
  if◌then◌else◌,
}

pub record Level : Type 0 where
  pub price : ℕ
  pub size : ℕ

pub record LocalOrderBook : Type 0 where
  pub bids : Dict ℕ
  pub asks : Dict ℕ

unfoldable pub empty_book : LocalOrderBook
empty_book = record { bids = []; asks = [] }

-- The dictionary that `apply_snapshot` builds, in the order of the rows.
unfoldable pub collect : List Level → Dict ℕ → Dict ℕ
collect [] d = d
collect (r ∷ rows) d =
    let d' = if ltb 0 r.size then insert r.price r.size d else d in collect rows d'

unfoldable pub levels_of : List Level → Dict ℕ
unfolding collect
levels_of rows = collect rows []

unfoldable pub apply_snapshot : (bids asks : List Level) → LocalOrderBook → LocalOrderBook
unfolding levels_of
apply_snapshot bids asks book = record { bids = levels_of bids; asks = levels_of asks }

-- The side of a change; the source takes any text.
pub data BookSide : Type 0 where
  buy sell other : BookSide

unfoldable pub change_levels : (price size : ℕ) → Dict ℕ → Dict ℕ
change_levels price size levels = if size == 0 then erase price levels else insert price size levels

unfoldable pub apply_change : (price size : ℕ) → BookSide → LocalOrderBook → LocalOrderBook
unfolding change_levels
apply_change price size BookSide.sell book = record book {
  asks = change_levels price size book.asks;
}
apply_change price size BookSide.buy book = record book {
  bids = change_levels price size book.bids;
}
apply_change price size BookSide.other book = book

abbrev pub join : (ℕ → ℕ → ℕ) → ℕ → Option ℕ → Option ℕ
join f p none = some p
join f p (some q) = some (f p q)

-- `max(self.bids, default=None)`
unfoldable pub best_bid_of : Dict ℕ → Option ℕ
best_bid_of [] = none
best_bid_of ((p, s) ∷ rest) = join max p (best_bid_of rest)

-- `min(self.asks, default=None)`
unfoldable pub best_ask_of : Dict ℕ → Option ℕ
best_ask_of [] = none
best_ask_of ((p, s) ∷ rest) = join min p (best_ask_of rest)

unfoldable pub best_bid : LocalOrderBook → Option ℕ
unfolding best_bid_of
best_bid book = best_bid_of book.bids

unfoldable pub best_ask : LocalOrderBook → Option ℕ
unfolding best_ask_of
best_ask book = best_ask_of book.asks

-- `mid_price`, doubled. A price of 0 is false, so `b or a` then takes the other side.
unfoldable pub double_mid_of : Option ℕ → Option ℕ → Option ℕ
double_mid_of (some b) (some a) = some (b + a)
double_mid_of (some b) none = if b == 0 then none else some (b + b)
double_mid_of none (some a) = some (a + a)
double_mid_of none none = none

unfoldable pub double_mid : LocalOrderBook → Option ℕ
unfolding double_mid_of best_bid best_ask
double_mid book = double_mid_of (best_bid book) (best_ask book)
