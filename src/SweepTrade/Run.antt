-- ===== src/SweepTrade/Run.antt =====
-- The steps of a trade (service.py): each is a section of a method between two awaits. A step whose
-- section is not the next one of its method does nothing.
use poly_strategy.Prelude.{ℕ, Bool, Option, List, [], ◌∷◌}
use poly_strategy.SweepTrade.State.{
  Trade, OrderResult, CancelResult, NormalPoint, RiskPoint, ForcePoint, TimerPoint,
}
use poly_strategy.SweepTrade.Ledger.{signal_done}
use poly_strategy.SweepTrade.Entry.{
  skip_entry, on_buy_result, on_buy_fill, on_entry_timeout, on_entry_cancel, on_tick_change,
  on_tick_verified,
}
use poly_strategy.SweepTrade.NormalExit.{
  on_consensus, on_min_order_size, on_grace_over, on_sell_result, loop_head, on_tick_refreshed,
  on_sell_done,
}
use poly_strategy.SweepTrade.SellCallbacks.{on_sell_fill, on_normal_sell_cancel}
use poly_strategy.SweepTrade.RiskExit.{
  start_risk_exit, on_buy_cancelled, on_sell_cancelled, on_floor_result, on_floor_done,
  on_floor_timeout, on_rest_cancelled, on_sell_fill_risk,
}
use poly_strategy.SweepTrade.ForceExit.{
  start_force_exit, on_force_buy_cancel, on_force_sell_cancel, stop_trade,
}

-- The prices and sizes that the methods name: 1, 0.01, 0.99, and 0.01 shares.
pub record Units : Type 0 where
  pub one : ℕ
  pub cent : ℕ
  pub limit_price : ℕ
  pub cent_share : ℕ

-- What a step of the trade is told. `pauses` says whether the strategy pauses if it is told of a
-- failure in this step.
pub data Step : Type 0 where
  entry_without_cash : Step
  buy_result : (actual_shares : ℕ) → OrderResult → Step
  buy_fill : (order_id fill_size fill_price total_matched : ℕ) → Step
  entry_timeout : Step
  entry_cancel : (pauses : Bool) → CancelResult → Step
  tick_change : (is_fine : Bool) → Step
  tick_verified : Option ℕ → Step
  consensus : (pauses : Bool) → Option ℕ → Step
  min_order_size : (now : ℕ) → Option ℕ → Step
  grace_over backoff_over sell_done : Step
  sell_result :
      (now : ℕ) → (missing_fill pauses : Bool) → (observed : Option ℕ) → OrderResult → Step
  tick_refreshed : (missing_fill pauses : Bool) → Option ℕ → Step
  sell_fill : (order_id fill_size fill_price total_matched : ℕ) → Step
  sell_cancel : (order_id size_matched : ℕ) → Step
  risk_exit : (pauses : Bool) → Step
  risk_cancel : (pauses cancelled : Bool) → Step
  floor_result : (missing_fill pauses watched : Bool) → OrderResult → Step
  floor_fill : (order_id fill_size fill_price : ℕ) → Step
  floor_cancel floor_timeout : Step
  floor_done : (pauses : Bool) → Step
  force_exit stop : Step
  force_cancel : (pauses : Bool) → CancelResult → Step

-- The sections of `_entry_timeout`.
unfoldable pub timer_step : Step → TimerPoint → Trade → Trade
unfolding on_entry_timeout on_entry_cancel
timer_step Step.entry_timeout TimerPoint.waiting t = on_entry_timeout t
timer_step (Step.entry_cancel pauses c) (TimerPoint.cancelling order_id) t =
    on_entry_cancel pauses order_id c t
timer_step s p t = t

-- The sections of `_start_normal_exit`.
unfoldable pub normal_step : Units → Step → NormalPoint → Trade → Trade
unfolding on_consensus on_min_order_size on_grace_over on_sell_result loop_head on_tick_refreshed
    on_sell_done
normal_step u (Step.consensus pauses tick) NormalPoint.awaiting_consensus t =
    on_consensus pauses tick t
normal_step u (Step.min_order_size now size) NormalPoint.awaiting_min_size t =
    on_min_order_size u.one now size t
normal_step u Step.grace_over (NormalPoint.awaiting_grace l) t = on_grace_over l t
normal_step u Step.backoff_over (NormalPoint.backing_off l) t = loop_head l t
normal_step u Step.sell_done (NormalPoint.awaiting_fill l order_id) t = on_sell_done l order_id t
normal_step u (Step.sell_result now missing_fill pauses observed r)
      (NormalPoint.awaiting_order l sell_size) t =
    on_sell_result u.cent_share now missing_fill pauses observed l sell_size r t
normal_step u (Step.tick_refreshed missing_fill pauses tick) (NormalPoint.refreshing_tick l r) t =
    on_tick_refreshed u.one missing_fill pauses tick l t
normal_step u s p t = t

-- The sections of `_risk_exit`.
unfoldable pub risk_step : Units → Step → RiskPoint → Trade → Trade
unfolding on_buy_cancelled on_sell_cancelled on_rest_cancelled on_floor_result on_floor_done
    on_floor_timeout
risk_step u (Step.risk_cancel pauses cancelled) (RiskPoint.cancelling_buy failures order_id) t =
    on_buy_cancelled u.cent pauses cancelled failures t
risk_step u (Step.risk_cancel pauses cancelled) (RiskPoint.cancelling_sell failures order_id) t =
    on_sell_cancelled u.cent pauses cancelled failures t
risk_step u (Step.risk_cancel pauses cancelled) (RiskPoint.cancelling_rest failures order_id) t =
    on_rest_cancelled pauses cancelled failures t
risk_step u (Step.floor_result missing_fill pauses watched r) (RiskPoint.awaiting_order failures)
      t =
    on_floor_result u.cent missing_fill pauses watched failures r t
risk_step u (Step.floor_done pauses) (RiskPoint.awaiting_fill failures order_id) t =
    on_floor_done pauses failures t
risk_step u Step.floor_timeout (RiskPoint.awaiting_fill failures order_id) t =
    on_floor_timeout failures order_id t
risk_step u s p t = t

-- The sections of `force_exit`.
unfoldable pub force_step : Bool → CancelResult → ForcePoint → Trade → Trade
unfolding on_force_buy_cancel on_force_sell_cancel
force_step pauses c (ForcePoint.cancelling_buy order_id) t = on_force_buy_cancel pauses order_id c t
force_step pauses c (ForcePoint.cancelling_sell order_id start) t =
    on_force_sell_cancel pauses order_id start c t
force_step pauses c p t = t

unfoldable pub step : Units → Step → Trade → Trade
unfolding skip_entry on_buy_result on_buy_fill on_tick_change on_tick_verified on_sell_fill
    on_normal_sell_cancel start_risk_exit on_sell_fill_risk signal_done start_force_exit timer_step
    normal_step risk_step force_step stop_trade
step u Step.entry_without_cash t = skip_entry t
step u (Step.buy_result actual_shares r) t = on_buy_result u.limit_price actual_shares r t
step u (Step.buy_fill order_id size price total) t = on_buy_fill order_id size price total t
step u Step.entry_timeout t = timer_step Step.entry_timeout t.entry_timer t
step u (Step.entry_cancel pauses c) t = timer_step (Step.entry_cancel pauses c) t.entry_timer t
step u (Step.tick_change is_fine) t = on_tick_change is_fine t
step u (Step.tick_verified tick) t = on_tick_verified tick t
step u (Step.sell_fill order_id size price total) t = on_sell_fill order_id size price total t
step u (Step.sell_cancel order_id matched) t = on_normal_sell_cancel order_id matched t
step u (Step.risk_exit pauses) t = start_risk_exit u.cent pauses t
step u (Step.floor_fill order_id size price) t = on_sell_fill_risk order_id size price t
step u Step.floor_cancel t = signal_done t
step u Step.force_exit t = start_force_exit t
step u Step.stop t = stop_trade t
step u (Step.force_cancel pauses c) t = force_step pauses c t.force t
step u (Step.risk_cancel pauses cancelled) t =
    risk_step u (Step.risk_cancel pauses cancelled) t.risk t
step u (Step.floor_result m p w r) t = risk_step u (Step.floor_result m p w r) t.risk t
step u (Step.floor_done pauses) t = risk_step u (Step.floor_done pauses) t.risk t
step u Step.floor_timeout t = risk_step u Step.floor_timeout t.risk t
step u s t = normal_step u s t.normal t

-- A trade's run.
unfoldable pub run : Units → List Step → Trade → Trade
unfolding step
run u [] t = t
run u (s ∷ ss) t = run u ss (step u s t)
