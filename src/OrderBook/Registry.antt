-- ===== src/OrderBook/Registry.antt =====
-- `OrderBookWS` of orderbook_ws.py: subscriptions, messages and what the subscribers are told. A message
-- has been parsed. The connection, the periodic full check and the REST request are not here; a resync
-- is asked for, and its answer is a message.
use poly_strategy.Prelude.{
  ℕ, ◌-◌, Bool, true, false, not, ◌&&◌, ◌||◌, Option, none, some, List, [], ◌∷◌, ◌++◌, Dict, lookup,
  insert, erase, contains, elem, ltb, ◌==◌, if◌then◌else◌,
}
use poly_strategy.OrderBook.Book.{
  Level, LocalOrderBook, BookSide, empty_book, apply_snapshot, apply_change, best_bid, best_ask,
}

-- `_Subscription`, with whether it has each callback.
pub record Subscription : Type 0 where
  pub id : ℕ
  pub asset_id : ℕ
  pub has_on_bbo : Bool
  pub has_on_tick : Bool

pub record OrderBookWs : Type 0 where
  pub subs : Dict Subscription
  pub asset_subs : Dict (List Subscription)
  pub subscribed_on_wire : List ℕ
  pub books : Dict LocalOrderBook
  pub tick_sizes : Dict ℕ
  pub min_order_sizes : Dict ℕ
  pub drift_cooldown : Dict ℕ

unfoldable pub new_ws : OrderBookWs
new_ws = record {
  subs = [];
  asset_subs = [];
  subscribed_on_wire = [];
  books = [];
  tick_sizes = [];
  min_order_sizes = [];
  drift_cooldown = [];
}

-- A callback that is started, or a resync.
pub data Notice : Type 0 where
  bbo : (sub_id : ℕ) → (best_bid best_ask : Option ℕ) → Notice
  tick : (sub_id tick_size : ℕ) → Notice
  resync : (asset_id : ℕ) → Notice

abbrev pub list_or_empty : Option (List Subscription) → List Subscription
list_or_empty none = []
list_or_empty (some subs) = subs

-- `subscribe`, with the id that the new subscription draws.
unfoldable pub subscribe : Subscription → OrderBookWs → OrderBookWs
subscribe sub w =
    let a = sub.asset_id in
    let known = record w {
      subs = insert sub.id sub w.subs;
      asset_subs = insert a (list_or_empty (lookup a w.asset_subs) ++ sub ∷ []) w.asset_subs;
    } in
    if elem a w.subscribed_on_wire then known else record known {
      subscribed_on_wire = a ∷ w.subscribed_on_wire;
      books = insert a empty_book w.books;
    }

-- `set.discard`
unfoldable pub discard : ℕ → List ℕ → List ℕ
discard a [] = []
discard a (x ∷ xs) = let rest = discard a xs in if a == x then rest else x ∷ rest

unfoldable pub without : (sub_id : ℕ) → List Subscription → List Subscription
without sub_id [] = []
without sub_id (s ∷ subs) =
    let rest = without sub_id subs in if s.id == sub_id then rest else s ∷ rest

-- The rest of `unsubscribe` with the asset's other subscriptions.
unfoldable pub keep_asset : (asset_id : ℕ) → List Subscription → OrderBookWs → OrderBookWs
unfolding discard
keep_asset a [] w = record w {
  asset_subs = erase a w.asset_subs;
  subscribed_on_wire = discard a w.subscribed_on_wire;
  books = erase a w.books;
  tick_sizes = erase a w.tick_sizes;
  min_order_sizes = erase a w.min_order_sizes;
}
keep_asset a (s ∷ subs) w = record w { asset_subs = insert a (s ∷ subs) w.asset_subs }

unfoldable pub unsubscribe_of : (sub_id : ℕ) → Option Subscription → OrderBookWs → OrderBookWs
unfolding keep_asset without
unsubscribe_of sub_id none w = w
unsubscribe_of sub_id (some s) w =
    keep_asset s.asset_id (without sub_id (list_or_empty (lookup s.asset_id w.asset_subs)))
      (record w { subs = erase sub_id w.subs })

-- `unsubscribe`
unfoldable pub unsubscribe : (sub_id : ℕ) → OrderBookWs → OrderBookWs
unfolding unsubscribe_of
unsubscribe sub_id w = unsubscribe_of sub_id (lookup sub_id w.subs) w

abbrev pub bbo_notices : Option ℕ → Option ℕ → List Subscription → List Notice
bbo_notices b a [] = []
bbo_notices b a (s ∷ subs) =
    let rest = bbo_notices b a subs in if s.has_on_bbo then Notice.bbo s.id b a ∷ rest else rest

-- `_notify_bbo`
unfoldable pub notify_bbo : (asset_id : ℕ) → LocalOrderBook → OrderBookWs → List Notice
unfolding best_bid best_ask
notify_bbo a book w =
    bbo_notices (best_bid book) (best_ask book) (list_or_empty (lookup a w.asset_subs))

-- `_cache_market_params`, for a tick size and a minimum size that have been read.
abbrev pub cache : ℕ → Option ℕ → Dict ℕ → Dict ℕ
cache a none d = d
cache a (some n) d = insert a n d

-- A `book` message, one item of a snapshot, or the answer to a resync.
pub record BookMessage : Type 0 where
  pub asset_id : ℕ
  pub bids : List Level
  pub asks : List Level
  pub tick_size : Option ℕ
  pub min_order_size : Option ℕ

unfoldable pub replace_book :
    BookMessage → Option LocalOrderBook → OrderBookWs → OrderBookWs × List Notice
unfolding apply_snapshot notify_bbo
replace_book m none w = (w, [])
replace_book m (some old) w =
    let book = apply_snapshot m.bids m.asks old in
    (
      record w {
        books = insert m.asset_id book w.books;
        tick_sizes = cache m.asset_id m.tick_size w.tick_sizes;
        min_order_sizes = cache m.asset_id m.min_order_size w.min_order_sizes;
      },
      notify_bbo m.asset_id book w,
    )

unfoldable pub handle_book : BookMessage → OrderBookWs → OrderBookWs × List Notice
unfolding replace_book
handle_book m w = replace_book m (lookup m.asset_id w.books) w

-- `_handle_snapshot`
unfoldable pub handle_snapshot : List BookMessage → OrderBookWs → OrderBookWs × List Notice
unfolding handle_book
handle_snapshot [] w = (w, [])
handle_snapshot (m ∷ ms) w =
    let (w', notices) = handle_book m w in
    let (w'', more) = handle_snapshot ms w' in (w'', notices ++ more)

-- One item of `price_changes`, with the best prices that the server states.
pub record PriceChange : Type 0 where
  pub asset_id : ℕ
  pub price : ℕ
  pub size : ℕ
  pub side : BookSide
  pub server_bid : Option ℕ
  pub server_ask : Option ℕ

abbrev pub differs : Option ℕ → Option ℕ → Bool
differs (some n) (some m) = not (n == m)
differs _ _ = false

abbrev pub cooldown_of : Option ℕ → ℕ
cooldown_of none = 0
cooldown_of (some t) = t

-- `_check_drift` at the time `now`, in seconds.
unfoldable pub check_drift :
    (now : ℕ) → PriceChange → LocalOrderBook → OrderBookWs → OrderBookWs × List Notice
unfolding best_bid best_ask
check_drift now c book w =
    if ltb (now - cooldown_of (lookup c.asset_id w.drift_cooldown)) 30
    then (w, [])
    else if differs c.server_bid (best_bid book) || differs c.server_ask (best_ask book)
    then (
      record w { drift_cooldown = insert c.asset_id now w.drift_cooldown },
      Notice.resync c.asset_id ∷ [],
    )
    else (w, [])

unfoldable pub change_book :
    (now : ℕ) → PriceChange → Option LocalOrderBook → OrderBookWs → OrderBookWs × List Notice
unfolding apply_change check_drift notify_bbo
change_book now c none w = (w, [])
change_book now c (some old) w =
    let book = apply_change c.price c.size c.side old in
    let changed = record w { books = insert c.asset_id book w.books } in
    let (w', resyncs) = check_drift now c book changed in
    (w', resyncs ++ notify_bbo c.asset_id book w)

-- `_handle_price_change`
unfoldable pub handle_price_change :
    (now : ℕ) → List PriceChange → OrderBookWs → OrderBookWs × List Notice
unfolding change_book
handle_price_change now [] w = (w, [])
handle_price_change now (c ∷ cs) w =
    let (w', notices) = change_book now c (lookup c.asset_id w.books) w in
    let (w'', more) = handle_price_change now cs w' in (w'', notices ++ more)

abbrev pub tick_notices : ℕ → List Subscription → List Notice
tick_notices n [] = []
tick_notices n (s ∷ subs) =
    let rest = tick_notices n subs in if s.has_on_tick then Notice.tick s.id n ∷ rest else rest

-- `_handle_tick_change`
unfoldable pub handle_tick_change :
    (asset_id tick_size : ℕ) → OrderBookWs → OrderBookWs × List Notice
handle_tick_change a n w =
    if contains a w.asset_subs
    then (
      record w { tick_sizes = insert a n w.tick_sizes },
      tick_notices n (list_or_empty (lookup a w.asset_subs)),
    )
    else (w, [])

abbrev pub same_price : Option ℕ → Option ℕ → Bool
same_price none none = true
same_price (some n) (some m) = n == m
same_price _ _ = false

-- A book that is replaced by the answer of `_fetch_and_replace`: the subscribers are told if a best price
-- has changed.
unfoldable pub refill : BookMessage → LocalOrderBook → OrderBookWs → OrderBookWs × List Notice
unfolding replace_book apply_snapshot best_bid best_ask
refill m old w =
    let book = apply_snapshot m.bids m.asks old in
    let (w', notices) = replace_book m (some old) w in
    if same_price (best_bid old) (best_bid book) && same_price (best_ask old) (best_ask book)
    then (w', [])
    else (w', notices)

unfoldable pub notify_current : ℕ → Option LocalOrderBook → OrderBookWs → List Notice
unfolding notify_bbo
notify_current asset_id none w = []
notify_current asset_id (some book) w = notify_bbo asset_id book w

-- The answer for a book that the registry has dropped meanwhile, by `unsubscribe` or `stop`: its sizes
-- are cached all the same, and the subscribers of a new book of the asset are told of that book.
unfoldable pub refill_dropped :
    BookMessage → LocalOrderBook → OrderBookWs → OrderBookWs × List Notice
unfolding apply_snapshot best_bid best_ask notify_current
refill_dropped m old w =
    let book = apply_snapshot m.bids m.asks old in
    let cached = record w {
      tick_sizes = cache m.asset_id m.tick_size w.tick_sizes;
      min_order_sizes = cache m.asset_id m.min_order_size w.min_order_sizes;
    } in
    if same_price (best_bid old) (best_bid book) && same_price (best_ask old) (best_ask book)
    then (cached, [])
    else (cached, notify_current m.asset_id (lookup m.asset_id w.books) w)

-- The book that was to be replaced is still the registry's, or has been dropped.
unfoldable pub refill_asked :
    (dropped : Option LocalOrderBook)
    → BookMessage
    → Option LocalOrderBook
    → OrderBookWs
    → OrderBookWs × List Notice
unfolding refill refill_dropped
refill_asked (some old) m current w = refill_dropped m old w
refill_asked none m (some old) w = refill m old w
refill_asked none m none w = (w, [])

-- The answer of `_fetch_and_replace`, with the book if the registry has dropped it since the request.
unfoldable pub fetch_and_replace :
    (dropped : Option LocalOrderBook) → BookMessage → OrderBookWs → OrderBookWs × List Notice
unfolding refill_asked
fetch_and_replace dropped m w = refill_asked dropped m (lookup m.asset_id w.books) w

-- `stop`: the subscriptions stay.
unfoldable pub stop_ws : OrderBookWs → OrderBookWs
stop_ws w = record w { subscribed_on_wire = []; books = []; min_order_sizes = [] }

-- What the registry is called for, until it is stopped.
pub data Call : Type 0 where
  subscribe_to : Subscription → Call
  unsubscribe_from : (sub_id : ℕ) → Call
  snapshot_message : List BookMessage → Call
  price_message : (now : ℕ) → List PriceChange → Call
  tick_message : (asset_id tick_size : ℕ) → Call
  resync_answer : (dropped : Option LocalOrderBook) → BookMessage → Call

unfoldable pub call : Call → OrderBookWs → OrderBookWs
unfolding subscribe unsubscribe handle_snapshot handle_price_change handle_tick_change
    fetch_and_replace
call (Call.subscribe_to s) w = subscribe s w
call (Call.unsubscribe_from i) w = unsubscribe i w
call (Call.snapshot_message ms) w = (handle_snapshot ms w).0
call (Call.price_message now cs) w = (handle_price_change now cs w).0
call (Call.tick_message a n) w = (handle_tick_change a n w).0
call (Call.resync_answer dropped m) w = (fetch_and_replace dropped m w).0

unfoldable pub calls : List Call → OrderBookWs → OrderBookWs
unfolding call
calls [] w = w
calls (c ∷ cs) w = calls cs (call c w)
