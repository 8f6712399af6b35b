-- ===== src/UserWs/Session/Messages.antt =====
-- The messages of the user channel and the replies of `get_order`, as the handlers of user_ws.py read
-- them, and what a handler leaves: the watches and the events it emits.
use poly_strategy.Prelude.{ℕ, Option, none, some, List, [], ℤ, pos, Dict}
use poly_strategy.UserWs.Watch.{FillEvent, CancelEvent, OrderWatch}

abbrev pub Watches : Type 0
Watches = Dict OrderWatch

-- A field that `Decimal(str(...))` reads: absent, not a number, or a number.
pub data RawAmount : Type 0 where
  missing malformed : RawAmount
  amount : ℤ → RawAmount

-- `Decimal(str(data.get(key, "0")))`
unfoldable pub parse_amount : RawAmount → Option ℤ
parse_amount missing = some (pos 0)
parse_amount malformed = none
parse_amount (amount z) = some z

pub data Operation : Type 0 where
  cancellation update placement other : Operation

pub record OrderMessage : Type 0 where
  pub id : Option ℕ
  pub order_id : Option ℕ
  pub operation : Operation
  pub size_matched : RawAmount

pub record TradeMessage : Type 0 where
  pub taker_order_id : Option ℕ
  pub maker_order_id : Option ℕ
  pub trade_id : Option ℕ
  pub id : Option ℕ
  pub size : RawAmount
  pub price : RawAmount

pub data Message : Type 0 where
  order : OrderMessage → Message
  trade : TradeMessage → Message
  unknown : Message

-- A text frame: `PONG`, text that is no JSON, a list, or one object.
pub data Frame : Type 0 where
  pong not_json : Frame
  batch : List Message → Frame
  single : Message → Frame

-- What `get_order` gives: an exception, no order, or the order with its `size_matched`.
pub data Reply : Type 0 where
  failed no_order : Reply
  order_info : RawAmount → Reply

pub record Outcome : Type 0 where
  pub watches : Watches
  pub fills : List FillEvent
  pub cancels : List CancelEvent

abbrev pub quiet : Watches → Outcome
quiet ws = record { watches = ws; fills = []; cancels = [] }
