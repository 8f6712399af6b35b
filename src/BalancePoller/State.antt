-- ===== src/BalancePoller/State.antt =====
-- `BalancePoller` and its registry (balance_poller.py).
use poly_strategy.Prelude.{
  ℕ, ◌+◌, ◌-◌, ◌*◌, ◌/◌, min, Bool, true, false, ◌&&◌, ◌||◌, Option, none, some, List, [], ◌∷◌, ltb,
  ◌==◌, if◌then◌else◌, is_some, or_else, Dict, lookup, insert,
}

pub record OpenOrder : Type 0 where
  pub side_is_buy : Bool
  pub buy : Bool
  pub price : ℕ
  pub original_size : Option ℕ
  pub size : Option ℕ
  pub size_matched : ℕ

pub record Poller : Type 0 where
  pub safety_buffer : ℕ
  pub collateral_balance : ℕ
  pub open_buy_locked : ℕ
  pub reserved_buy_notional : ℕ
  pub open_orders : List OpenOrder
  pub positions : Dict ℕ
  pub last_balance_poll : ℕ
  pub last_position_poll : ℕ
  pub running : Bool
  pub ready : Bool

-- `BalancePoller(...)`, with its safety buffer.
unfoldable pub new_poller : ℕ → Poller
new_poller safety_buffer = record {
  safety_buffer = safety_buffer;
  collateral_balance = 0;
  open_buy_locked = 0;
  reserved_buy_notional = 0;
  open_orders = [];
  positions = [];
  last_balance_poll = 0;
  last_position_poll = 0;
  running = false;
  ready = false;
}

-- `available_cash`
unfoldable pub available_cash : Poller → ℕ
available_cash p =
    p.collateral_balance - p.open_buy_locked - p.reserved_buy_notional - p.safety_buffer

-- `position_size`
unfoldable pub position_size : ℕ → Poller → ℕ
position_size token_id p = elim (lookup token_id p.positions) [ none ↦ 0 | some size ↦ size ]

-- `release_buy`
unfoldable pub release_buy : ℕ → Poller → Poller
release_buy notional p = record p { reserved_buy_notional = p.reserved_buy_notional - notional }

-- `reserve_buy_shares`: the poller after it and the shares that are granted.
unfoldable pub reserve_buy_shares :
    (share_unit requested_shares price min_shares : ℕ) → Poller → Poller × ℕ
unfolding available_cash
reserve_buy_shares share_unit requested_shares price min_shares p =
    if requested_shares == 0 || price == 0
    then (p, 0)
    else let max_shares = available_cash p / (price * share_unit) * share_unit in
      let actual_shares = min requested_shares max_shares in
      if ltb actual_shares min_shares then (p, 0) else (
        record p { reserved_buy_notional = p.reserved_buy_notional + actual_shares * price },
        actual_shares,
      )

-- `original_size`, or `size`, or 0.
unfoldable pub resting_size : OpenOrder → ℕ
resting_size o = elim (or_else o.original_size o.size) [ none ↦ 0 | some n ↦ n ]

-- The sum over `orders_raw` in `_poll_balance_and_orders`.
unfoldable pub locked_by : List OpenOrder → ℕ → ℕ
unfolding resting_size
locked_by [] locked = locked
locked_by (o ∷ os) locked =
    let remaining = resting_size o - o.size_matched in
    locked_by os
      (if (o.side_is_buy || o.buy) && ltb 0 remaining then locked + o.price * remaining else locked)

-- What the client gives for the balance: an exception, a dictionary, or another value.
pub data BalanceReply : Type 0 where
  failed : BalanceReply
  fields : (allowance balance : Option ℕ) → BalanceReply
  scalar : Option ℕ → BalanceReply

-- `_fetch_balance`
unfoldable pub fetch_balance : BalanceReply → Option ℕ
fetch_balance failed = none
fetch_balance (fields allowance balance) = or_else allowance (or_else balance (some 0))
fetch_balance (scalar value) = value

-- `_poll_balance_and_orders`, at the time `now`: without a client nothing is polled.
unfoldable pub poll_balance_and_orders :
    (has_client : Bool)
    → BalanceReply
    → Option (List OpenOrder)
    → (now : ℕ) → Poller
    → Poller × Bool
unfolding fetch_balance locked_by
poll_balance_and_orders false reply orders now p = (p, false)
poll_balance_and_orders true reply orders now p =
    let balance_raw = fetch_balance reply in
    let collateral : ℕ = elim balance_raw [ none ↦ p.collateral_balance | some b ↦ b ] in
    let listed : List OpenOrder = elim orders [ none ↦ p.open_orders | some os ↦ os ] in
    let locked : ℕ = elim orders [ none ↦ p.open_buy_locked | some os ↦ locked_by os 0 ] in
    (
      record p {
        collateral_balance = collateral;
        open_orders = listed;
        open_buy_locked = locked;
        last_balance_poll = now;
      },
      is_some balance_raw && is_some orders,
    )

-- One round of `_balance_poll_loop`.
unfoldable pub balance_poll_round :
    (has_client : Bool) → BalanceReply → Option (List OpenOrder) → (now : ℕ) → Poller → Poller
unfolding poll_balance_and_orders
balance_poll_round has_client reply orders now p =
    let (q, refreshed) = poll_balance_and_orders has_client reply orders now p in
    if p.running then record q { ready = q.ready || refreshed } else p

-- The loop of `_poll_positions` over `(asset, size)`; an asset that is missing or empty is `none`.
unfoldable pub collect_positions : List (Option ℕ × ℕ) → Dict ℕ → Dict ℕ
collect_positions [] acc = acc
collect_positions ((none, size) ∷ rest) acc = collect_positions rest acc
collect_positions ((some token_id, size) ∷ rest) acc =
    collect_positions rest (if ltb 0 size then insert token_id size acc else acc)

-- `_poll_positions`
unfoldable pub poll_positions : Option (List (Option ℕ × ℕ)) → (now : ℕ) → Poller → Poller
unfolding collect_positions
poll_positions none now p = p
poll_positions (some ps) now p = record p {
  positions = collect_positions ps [];
  last_position_poll = now;
}

-- `start` and `stop`, without the tasks.
unfoldable pub start : Poller → Poller
start p = record p { running = true }

unfoldable pub stop : Poller → Poller
stop p = record p { running = false }

-- `get_or_create_poller` over `_pollers`, by lower-case address.
unfoldable pub get_or_create_poller :
    (safety_buffer addr : ℕ) → (auto_start : Bool) → Dict Poller → Dict Poller × Poller
unfolding new_poller start
get_or_create_poller safety_buffer addr auto_start pollers = elim (lookup addr pollers) [
  | some p ↦ (pollers, p)
  | none ↦
      let fresh = new_poller safety_buffer in
      let p = if auto_start then start fresh else fresh in (insert addr p pollers, p)
]
