-- ===== src/UserWs/Session.antt =====
-- `UserWS` of user_ws.py: the watches by order id, the watch API, the messages of the user channel
-- and the two reconciliations with the REST order.
--
-- The reply of `get_order` is an argument. A handler's awaits are only those of callbacks and of that
-- request, so a step is one handler from its start to its end.
pub mod Messages
use poly_strategy.Prelude.{
  ℕ, Bool, Option, none, some, List, [], ◌∷◌, ◌++◌, ℤ, pos, negsuc, Dict, lookup, insert, erase,
  if◌then◌else◌, or_else, ltb_ℤ, map,
}
use poly_strategy.UserWs.Watch.{
  Side, FillEvent, CancelEvent, OrderWatch, match_order, match_trade, match_reconnect,
}
pub use poly_strategy.UserWs.Session.Messages.{
  Watches, RawAmount, parse_amount, Operation, OrderMessage, TradeMessage, Message, Frame, Reply,
  Outcome, quiet,
}

-- A change of the watch of an order, if it is watched. The watch is changed in place.
unfoldable pub change : ℕ → (OrderWatch → OrderWatch × List FillEvent) → Watches → Outcome
change order_id f ws = elim (lookup order_id ws) [
  | none ↦ quiet ws
  | some w ↦
      let (w', events) = f w in
      record { watches = insert order_id w' ws; fills = events; cancels = [] }
]

-- A Decimal below zero never exceeds `last_matched`.
unfoldable pub match_order_signed : ℤ → OrderWatch → OrderWatch × List FillEvent
match_order_signed (pos n) w = match_order w n
match_order_signed (negsuc n) w = (w, [])

unfoldable pub match_reconnect_signed : ℤ → OrderWatch → OrderWatch × List FillEvent
match_reconnect_signed (pos n) w = match_reconnect w n
match_reconnect_signed (negsuc n) w = (w, [])

-- The guard `size <= 0 or price <= 0` and the rest of `_handle_trade_event`.
unfoldable pub match_trade_signed :
    (trade_id : ℕ) → ℤ → ℤ → OrderWatch → OrderWatch × List FillEvent
match_trade_signed trade_id (pos size) (pos price) w = (match_trade w trade_id size price, [])
match_trade_signed trade_id size price w = (w, [])

-- `_handle_order_event`
unfoldable pub handle_order_event : ℕ → ℤ → Watches → Outcome
handle_order_event order_id size_matched = change order_id (match_order_signed size_matched)

-- `_handle_trade_event`
unfoldable pub handle_trade_event : (order_id trade_id : ℕ) → ℤ → ℤ → Watches → Outcome
handle_trade_event order_id trade_id size price =
    change order_id (match_trade_signed trade_id size price)

amount_or_zero : RawAmount → ℤ
amount_or_zero RawAmount.missing = pos 0
amount_or_zero RawAmount.malformed = pos 0
amount_or_zero (RawAmount.amount z) = z

unfoldable pub cancel_events : OrderWatch → ℕ → RawAmount → List CancelEvent
unfolding amount_or_zero
cancel_events w order_id raw =
    if w.on_cancel
    then record {
      order_id = order_id;
      token_id = w.token_id;
      side = w.side;
      size_matched = amount_or_zero raw;
    }
      ∷ []
    else []

unfoldable pub on_cancellation : ℕ → RawAmount → Watches → Outcome
unfolding cancel_events
on_cancellation order_id raw ws = elim (lookup order_id ws) [
  | none ↦ quiet ws
  | some w ↦ record { watches = ws; fills = []; cancels = cancel_events w order_id raw }
]

unfoldable pub on_matched : ℕ → Option ℤ → Watches → Outcome
on_matched order_id none ws = quiet ws
on_matched order_id (some size_matched) ws = handle_order_event order_id size_matched ws

unfoldable pub on_operation : Operation → ℕ → RawAmount → Watches → Outcome
unfolding on_matched on_cancellation parse_amount
on_operation Operation.cancellation order_id raw ws = on_cancellation order_id raw ws
on_operation Operation.update order_id raw ws = on_matched order_id (parse_amount raw) ws
on_operation Operation.placement order_id raw ws = on_matched order_id (parse_amount raw) ws
on_operation Operation.other order_id raw ws = quiet ws

-- `_on_order_event`
unfoldable pub on_order_event : OrderMessage → Watches → Outcome
unfolding on_operation
on_order_event m ws = elim (or_else m.id m.order_id) [
  | none ↦ quiet ws
  | some order_id ↦ on_operation m.operation order_id m.size_matched ws
]

unfoldable pub on_trade_amounts : (order_id trade_id : ℕ) → Option ℤ → Option ℤ → Watches → Outcome
on_trade_amounts order_id trade_id (some size) (some price) ws =
    handle_trade_event order_id trade_id size price ws
on_trade_amounts order_id trade_id size price ws = quiet ws

unfoldable pub on_trade_ids : Option ℕ → Option ℕ → TradeMessage → Watches → Outcome
unfolding on_trade_amounts parse_amount
on_trade_ids (some order_id) (some trade_id) m ws =
    on_trade_amounts order_id trade_id (parse_amount m.size) (parse_amount m.price) ws
on_trade_ids order_id trade_id m ws = quiet ws

-- `_on_trade_event`
unfoldable pub on_trade_event : TradeMessage → Watches → Outcome
unfolding on_trade_ids
on_trade_event m ws =
    on_trade_ids (or_else m.taker_order_id m.maker_order_id) (or_else m.trade_id m.id) m ws

-- `_dispatch_single`
unfoldable pub dispatch_single : Message → Watches → Outcome
unfolding on_order_event on_trade_event
dispatch_single (Message.order m) ws = on_order_event m ws
dispatch_single (Message.trade m) ws = on_trade_event m ws
dispatch_single Message.unknown ws = quiet ws

-- One step after another: the events come in order.
abbrev pub after : Outcome → (Watches → Outcome) → Outcome
after o next =
    let p = next o.watches in
    record { watches = p.watches; fills = o.fills ++ p.fills; cancels = o.cancels ++ p.cancels }

unfoldable pub dispatch_all : List Message → Watches → Outcome
unfolding dispatch_single
dispatch_all [] ws = quiet ws
dispatch_all (m ∷ ms) ws = after (dispatch_single m ws) (dispatch_all ms)

-- `_dispatch`
unfoldable pub dispatch : Frame → Watches → Outcome
unfolding dispatch_all dispatch_single
dispatch Frame.pong ws = quiet ws
dispatch Frame.not_json ws = quiet ws
dispatch (Frame.batch ms) ws = dispatch_all ms ws
dispatch (Frame.single m) ws = dispatch_single m ws

-- The `OrderWatch` that `watch_order` makes.
unfoldable pub fresh_watch :
    (order_id token_id : ℕ)
    → Side
    → (price initial_matched : ℕ) → (on_fill on_cancel : Bool) → OrderWatch
fresh_watch order_id token_id side price initial_matched on_fill on_cancel = record {
  order_id = order_id;
  token_id = token_id;
  side = side;
  price = price;
  last_matched = initial_matched;
  seen_trade_ids = [];
  pending_trades = [];
  on_fill = on_fill;
  on_cancel = on_cancel;
}

-- `watch_order`
unfoldable pub watch_order :
    (order_id token_id : ℕ)
    → Side
    → (price initial_matched : ℕ) → (on_fill on_cancel : Bool) → Watches
    → Watches
unfolding fresh_watch
watch_order order_id token_id side price initial_matched on_fill on_cancel =
    insert order_id (fresh_watch order_id token_id side price initial_matched on_fill on_cancel)

-- `unwatch_order`
unfoldable pub unwatch_order : ℕ → Watches → Watches
unwatch_order order_id = erase order_id

-- The amount that `reconcile_order` reads from the reply.
unfoldable pub reconciled_amount : Reply → Option ℤ
unfolding parse_amount
reconciled_amount Reply.failed = none
reconciled_amount Reply.no_order = some (pos 0)
reconciled_amount (Reply.order_info raw) = parse_amount raw

-- `reconcile_order`, whose test `server_matched > watch.last_matched` is the one that
-- `_handle_order_event` makes again: the steps, and the value that is returned.
unfoldable pub reconcile_order : ℕ → Reply → Watches → Outcome × Option ℤ
unfolding reconciled_amount
reconcile_order order_id reply ws = elim (lookup order_id ws) [
  | none ↦ (quiet ws, none)
  | some w ↦ elim (reconciled_amount reply) [
    | none ↦ (quiet ws, none)
    | some z ↦ (
      if ltb_ℤ (pos w.last_matched) z then handle_order_event order_id z ws else quiet ws,
      some z,
    )
  ]
]

-- The amount that the loop of `_on_reconnect` reads: `info.get` on no order raises.
unfoldable pub reconnect_amount : Reply → Option ℤ
unfolding parse_amount
reconnect_amount Reply.failed = none
reconnect_amount Reply.no_order = none
reconnect_amount (Reply.order_info raw) = parse_amount raw

unfoldable pub reconnect_one : ℕ → Reply → Watches → Outcome
unfolding reconnect_amount
reconnect_one order_id reply ws = elim (reconnect_amount reply) [
  | none ↦ quiet ws
  | some z ↦ change order_id (match_reconnect_signed z) ws
]

unfoldable pub reconnect_all : List ℕ → (ℕ → Reply) → Watches → Outcome
unfolding reconnect_one
reconnect_all [] replies ws = quiet ws
reconnect_all (k ∷ ks) replies ws =
    after (reconnect_one k (replies k) ws) (reconnect_all ks replies)

-- `_on_reconnect`, over the ids that are watched when it starts.
unfoldable pub on_reconnect : (ℕ → Reply) → Watches → Outcome
unfolding reconnect_all
on_reconnect replies ws = reconnect_all (map (λ (e : ℕ × OrderWatch). e.0) ws) replies ws

-- What can happen to the watches of a session.
pub data Step : Type 0 where
  frame : Frame → Step
  reconcile : ℕ → Reply → Step
  reconnect : (ℕ → Reply) → Step
  watch :
      (order_id token_id : ℕ)
      → Side
      → (price initial_matched : ℕ) → (on_fill on_cancel : Bool) → Step
  unwatch : ℕ → Step

unfoldable pub step : Step → Watches → Outcome
unfolding dispatch reconcile_order on_reconnect watch_order unwatch_order
step (frame f) ws = dispatch f ws
step (reconcile order_id reply) ws = (reconcile_order order_id reply ws).0
step (reconnect replies) ws = on_reconnect replies ws
step (watch k t s p i f c) ws = quiet (watch_order k t s p i f c ws)
step (unwatch k) ws = quiet (unwatch_order k ws)

unfoldable pub run : List Step → Watches → Outcome
unfolding step
run [] ws = quiet ws
run (s ∷ ss) ws = after (step s ws) (run ss)
