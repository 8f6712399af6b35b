-- ===== src/UserWs/Watch.antt =====
-- `OrderWatch`, `FillEvent`, `CancelEvent` and the handlers of one watch of user_ws.py.
use poly_strategy.Prelude.{
  ℕ, ◌+◌, ◌-◌, min, Bool, ◌||◌, Option, none, some, List, [], ◌∷◌, ◌++◌, ltb, leb, ◌==◌,
  if◌then◌else◌, elem, ℤ,
}

pub data Side : Type 0 where
  buy sell : Side

pub data Source : Type 0 where
  ws_trade ws_order_update reconnect_reconcile : Source

pub record FillEvent : Type 0 where
  pub order_id : ℕ
  pub token_id : ℕ
  pub side : Side
  pub fill_size : ℕ
  pub fill_price : ℕ
  pub total_matched : ℕ
  pub trade_id : Option ℕ
  pub source : Source

pub record CancelEvent : Type 0 where
  pub order_id : ℕ
  pub token_id : ℕ
  pub side : Side
  pub size_matched : ℤ

-- An entry of `pending_trades`.
pub record PendingTrade : Type 0 where
  pub trade_id : ℕ
  pub size : ℕ
  pub price : ℕ

pub record OrderWatch : Type 0 where
  pub order_id : ℕ
  pub token_id : ℕ
  pub side : Side
  pub price : ℕ
  pub last_matched : ℕ
  pub seen_trade_ids : List ℕ
  pub pending_trades : List PendingTrade
  pub on_fill : Bool
  pub on_cancel : Bool

-- `_emit_fill`
unfoldable pub emit_fill :
    OrderWatch → (delta price total_matched : ℕ) → Option ℕ → Source → List FillEvent
emit_fill w delta price total_matched trade_id source =
    if w.on_fill
    then record {
      order_id = w.order_id;
      token_id = w.token_id;
      side = w.side;
      fill_size = delta;
      fill_price = price;
      total_matched = total_matched;
      trade_id = trade_id;
      source = source;
    }
      ∷ []
    else []

-- What the `while` loop of `_handle_order_event` leaves: the events, `remaining` and the trades.
pub record Consumed : Type 0 where
  pub events : List FillEvent
  pub remaining : ℕ
  pub trades : List PendingTrade

-- The loop over `pending_trades`. A trade that is not used up is the last one: the rest of
-- `remaining` went into it, so the loop ends there.
unfoldable pub consume_trades :
    OrderWatch → (size_matched remaining : ℕ) → List PendingTrade → Consumed
unfolding emit_fill
consume_trades w size_matched remaining [] = record {
  events = [];
  remaining = remaining;
  trades = [];
}
consume_trades w size_matched remaining (t ∷ ts) =
    let matched = min remaining t.size in
    let fill =
      emit_fill w matched t.price (size_matched - remaining + matched) (some t.trade_id)
        Source.ws_trade in
    let later = consume_trades w size_matched (remaining - matched) ts in
    if remaining == 0
    then record { events = []; remaining = remaining; trades = t ∷ ts }
    else if matched == t.size
    then record {
      events = fill ++ later.events;
      remaining = later.remaining;
      trades = later.trades;
    }
    else record {
      events = fill;
      remaining = remaining - matched;
      trades = record t { size = t.size - matched } ∷ ts;
    }

-- The order update is authoritative for quantity: what no pending trade covers is reported at the
-- limit price.
unfoldable pub emit_rest : OrderWatch → (size_matched remaining : ℕ) → List FillEvent
unfolding emit_fill
emit_rest w size_matched remaining =
    if ltb 0 remaining
    then emit_fill w remaining w.price size_matched none Source.ws_order_update
    else []

-- `_handle_order_event` for a watch that is there: the watch after it and the events.
unfoldable pub match_order : OrderWatch → ℕ → OrderWatch × List FillEvent
match_order w size_matched =
    if leb size_matched w.last_matched
    then (w, [])
    else let c = consume_trades w size_matched (size_matched - w.last_matched) w.pending_trades in
      (
        record w { last_matched = size_matched; pending_trades = c.trades },
        c.events ++ emit_rest w size_matched c.remaining,
      )

-- `_handle_trade_event` for a watch that is there and a size and price above zero.
unfoldable pub match_trade : OrderWatch → (trade_id size price : ℕ) → OrderWatch
match_trade w trade_id size price =
    if elem trade_id w.seen_trade_ids || (size == 0 || price == 0) then w else record w {
      seen_trade_ids = trade_id ∷ w.seen_trade_ids;
      pending_trades =
          w.pending_trades ++ record { trade_id = trade_id; size = size; price = price } ∷ [];
    }

-- The body of the loop of `_on_reconnect` for one watch.
unfoldable pub match_reconnect : OrderWatch → ℕ → OrderWatch × List FillEvent
unfolding emit_fill
match_reconnect w server_matched = if leb server_matched w.last_matched then (w, []) else (
  record w { last_matched = server_matched },
  emit_fill w (server_matched - w.last_matched) w.price server_matched none
      Source.reconnect_reconcile,
)
