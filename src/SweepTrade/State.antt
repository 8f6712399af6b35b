-- ===== src/SweepTrade/State.antt =====
-- The state of a trade, its event log and what it is told by the executor (service.py,
-- framework/strategy_runtime/interfaces.py).
use poly_strategy.Prelude.{
  ℕ, ◌*◌, Bool, true, false, Option, none, List, [], ℤ, pos, Dict, Text, leb_ℤ,
}
use poly_strategy.UserWs.Watch.{Side}
use poly_strategy.SellFailure.Classify.{OrderStatus}
use poly_strategy.SellFailure.Tracker.{Tracker}

-- `self.state`
pub data Phase : Type 0 where
  entry exit closed : Phase

pub data Reason : Type 0 where
  no_cash buy_placement_failed timeout_no_fill normal_exit stop_loss force_exit : Reason
  dust_position tick_refresh_failed sell_placement_failed sell_fill_parse_error : Reason
  buy_cancel_failed sell_cancel_failed fill_reconcile_failed : Reason

-- Steps of the event log that carry no quantity here.
pub data Note : Type 0 where
  buy_order_skipped buy_order_placed buy_order_failed entry_complete entry_timeout : Note
  fill_reconciled fill_reconcile_unavailable fill_reconcile_failed : Note
  exit_trigger_deferred tick_verified tick_verify_failed tick_refresh_failed tick_refreshed : Note
  sell_order_placed sell_order_failed sell_retry_started balance_settlement_retry : Note
  sell_circuit_breaker_triggered sell_complete sell_cancelled buy_cancelled : Note
  buy_cancel_failed sell_cancel_failed risk_triggered exit_order_unfilled : Note
  dust_position_detected force_exit_requested strategy_paused : Note

pub data LogStep : Type 0 where
  buy_filled : (order_id size price : ℕ) → LogStep
  sell_filled : (order_id size price : ℕ) → LogStep
  event_closed : Reason → LogStep
  note : Note → LogStep

-- `OrderResult`, with a filled price that has been parsed.
pub record OrderResult : Type 0 where
  pub order_id : ℕ
  pub status : OrderStatus
  pub filled_size : ℕ
  pub filled_price : Option ℕ
  pub error : Option Text

-- `CancelResult`; a matched size of -1 stands for an unknown one, and
-- `has_error` says that there is a cancel error.
pub record CancelResult : Type 0 where
  pub cancelled : Bool
  pub final_matched : ℤ
  pub query_failed : Bool
  pub has_error : Bool

-- The local variables of the loop of `_start_normal_exit`.
pub record Loop : Type 0 where
  pub min_order_size : Option ℕ
  pub sell_price : ℕ
  pub attempt : ℕ
  pub tracker : Tracker
  pub invalid_tick_retries : ℕ
  pub balance_retry_size : Option ℕ

-- Where `_start_normal_exit` stands.
pub data NormalPoint : Type 0 where
  idle awaiting_consensus awaiting_min_size finished : NormalPoint
  awaiting_grace backing_off : Loop → NormalPoint
  awaiting_order : Loop → (sell_size : ℕ) → NormalPoint
  refreshing_tick : Loop → OrderResult → NormalPoint
  awaiting_fill : Loop → (order_id : ℕ) → NormalPoint

-- Where `_risk_exit` stands; the sides are those of `cancellation_failures`.
pub data RiskPoint : Type 0 where
  idle finished : RiskPoint
  cancelling_buy cancelling_sell : List Side → (order_id : ℕ) → RiskPoint
  awaiting_order : List Side → RiskPoint
  awaiting_fill cancelling_rest : List Side → (order_id : ℕ) → RiskPoint

-- Where `force_exit` stands.
pub data ForcePoint : Type 0 where
  idle finished : ForcePoint
  cancelling_buy : (order_id : ℕ) → ForcePoint
  cancelling_sell : (order_id : ℕ) → (sell_start_shares : ℤ) → ForcePoint

-- Where `_entry_timeout` stands: waiting, or cancelling the BUY order.
pub data TimerPoint : Type 0 where
  off waiting : TimerPoint
  cancelling : (order_id : ℕ) → TimerPoint

pub record Trade : Type 0 where
  pub phase : Phase
  pub position_shares : ℤ
  pub entry_order_id : Option ℕ
  pub exit_order_id : Option ℕ
  pub entry_timer : TimerPoint
  pub tick_is_verified : Bool
  pub tick_verifying : Bool
  pub normal_exit_started : Bool
  pub tick_size : ℕ
  pub entry_cost : ℕ
  pub exit_revenue : ℕ
  pub exit_filled_shares : ℕ
  pub exit_failure_reported : Bool
  pub exit_started : Bool
  pub balance_lag_retry_index : ℕ
  pub normal_sell_cancelled : Bool
  pub normal_sell_matched : Dict ℕ
  pub normal_sell_order_sizes : Dict ℕ
  pub order_size : ℕ
  pub buy_fill_count : ℕ
  pub buy_price : ℕ
  pub sell_price : ℕ
  pub sell_done : Option Bool
  pub normal : NormalPoint
  pub risk : RiskPoint
  pub force : ForcePoint
  pub log : List LogStep

-- `SweepTrade(...)`, with a tick size of 0.01 (`cent`), and the prices that `getattr` falls back to.
unfoldable pub new_trade : (cent : ℕ) → Trade
new_trade cent = record {
  phase = Phase.entry;
  position_shares = pos 0;
  entry_order_id = none;
  exit_order_id = none;
  entry_timer = TimerPoint.off;
  tick_is_verified = false;
  tick_verifying = false;
  normal_exit_started = false;
  tick_size = cent;
  entry_cost = 0;
  exit_revenue = 0;
  exit_filled_shares = 0;
  exit_failure_reported = false;
  exit_started = false;
  balance_lag_retry_index = 0;
  normal_sell_cancelled = false;
  normal_sell_matched = [];
  normal_sell_order_sizes = [];
  order_size = 0;
  buy_fill_count = 0;
  buy_price = 99 * cent;
  sell_price = cent;
  sell_done = none;
  normal = NormalPoint.idle;
  risk = RiskPoint.idle;
  force = ForcePoint.idle;
  log = [];
}

abbrev pub is_closed : Trade → Bool
is_closed t = elim t.phase [ Phase.closed ↦ true | _ ↦ false ]

-- `self.position_shares <= 0`
abbrev pub is_flat : Trade → Bool
is_flat t = leb_ℤ t.position_shares (pos 0)
