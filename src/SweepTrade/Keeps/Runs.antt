-- ===== src/SweepTrade/Keeps/Runs.antt =====
-- Every step of a trade keeps an invariant that the primitives keep, and so does every run
-- (service.py).
use poly_strategy.Prelude.{Bool, List, [], ◌∷◌}
use poly_strategy.SweepTrade.State.{
  Trade, CancelResult, NormalPoint, RiskPoint, ForcePoint, TimerPoint,
}
use poly_strategy.SweepTrade.Run.{
  Units, Step, timer_step, normal_step, risk_step, force_step, step, run,
}
use poly_strategy.SweepTrade.Keeps.{Invariant, Kept, signal_done-Kept}
use poly_strategy.SweepTrade.Keeps.Entry.{
  skip_entry-Kept, on_buy_result-Kept, on_buy_fill-Kept, on_entry_timeout-Kept,
  on_entry_cancel-Kept, on_tick_change-Kept, on_tick_verified-Kept,
}
use poly_strategy.SweepTrade.Keeps.NormalExit.{
  on_consensus-Kept, on_min_order_size-Kept, on_grace_over-Kept, on_sell_result-Kept,
  loop_head-Kept, on_tick_refreshed-Kept, on_sell_done-Kept, on_sell_fill-Kept,
  on_normal_sell_cancel-Kept,
}
use poly_strategy.SweepTrade.Keeps.Exits.{
  start_risk_exit-Kept, on_buy_cancelled-Kept, on_sell_cancelled-Kept, on_floor_result-Kept,
  on_floor_done-Kept, on_floor_timeout-Kept, on_rest_cancelled-Kept, on_sell_fill_risk-Kept,
  start_force_exit-Kept, on_force_buy_cancel-Kept, on_force_sell_cancel-Kept, stop_trade-Kept,
}

module _ (inv : Invariant) (u : Units) where
  timer_step-Kept :
      (s : Step) (p : TimerPoint) (t : Trade) → Kept inv t → Kept inv (timer_step s p t)
  unfolding timer_step
  timer_step-Kept Step.entry_timeout TimerPoint.waiting t h = on_entry_timeout-Kept inv t h
  timer_step-Kept (Step.entry_cancel p c) (TimerPoint.cancelling i) t h =
      on_entry_cancel-Kept inv p i c t h
  timer_step-Kept s p t h = h

  normal_step-Kept :
      (s : Step) (p : NormalPoint) (t : Trade) → Kept inv t → Kept inv (normal_step u s p t)
  unfolding normal_step
  normal_step-Kept (Step.consensus p tick) NormalPoint.awaiting_consensus t h =
      on_consensus-Kept inv p tick t h
  normal_step-Kept (Step.min_order_size now n) NormalPoint.awaiting_min_size t h =
      on_min_order_size-Kept inv u.one now n t h
  normal_step-Kept Step.grace_over (NormalPoint.awaiting_grace l) t h = on_grace_over-Kept inv l t h
  normal_step-Kept Step.backoff_over (NormalPoint.backing_off l) t h = loop_head-Kept inv l t h
  normal_step-Kept Step.sell_done (NormalPoint.awaiting_fill l i) t h =
      on_sell_done-Kept inv l i t h
  normal_step-Kept (Step.sell_result now m p o r) (NormalPoint.awaiting_order l n) t h =
      on_sell_result-Kept inv u.cent_share now m p o l n r t h
  normal_step-Kept (Step.tick_refreshed m p tick) (NormalPoint.refreshing_tick l r) t h =
      on_tick_refreshed-Kept inv u.one m p tick l t h
  normal_step-Kept s p t h = h

  risk_step-Kept :
      (s : Step) (p : RiskPoint) (t : Trade) → Kept inv t → Kept inv (risk_step u s p t)
  unfolding risk_step
  risk_step-Kept (Step.risk_cancel p c) (RiskPoint.cancelling_buy f i) t h =
      on_buy_cancelled-Kept inv u.cent p c f t h
  risk_step-Kept (Step.risk_cancel p c) (RiskPoint.cancelling_sell f i) t h =
      on_sell_cancelled-Kept inv u.cent p c f t h
  risk_step-Kept (Step.risk_cancel p c) (RiskPoint.cancelling_rest f i) t h =
      on_rest_cancelled-Kept inv p c f t h
  risk_step-Kept (Step.floor_result m p w r) (RiskPoint.awaiting_order f) t h =
      on_floor_result-Kept inv u.cent m p w f r t h
  risk_step-Kept (Step.floor_done p) (RiskPoint.awaiting_fill f i) t h =
      on_floor_done-Kept inv p f t h
  risk_step-Kept Step.floor_timeout (RiskPoint.awaiting_fill f i) t h =
      on_floor_timeout-Kept inv f i t h
  risk_step-Kept s p t h = h

  force_step-Kept :
      (p : Bool) (c : CancelResult) (q : ForcePoint) (t : Trade)
      → Kept inv t
      → Kept inv (force_step p c q t)
  unfolding force_step
  force_step-Kept p c (ForcePoint.cancelling_buy i) t h = on_force_buy_cancel-Kept inv p i c t h
  force_step-Kept p c (ForcePoint.cancelling_sell i z) t h =
      on_force_sell_cancel-Kept inv p i z c t h
  force_step-Kept p c q t h = h

  pub step-Kept : (s : Step) (t : Trade) → Kept inv t → Kept inv (step u s t)
  unfolding step
  step-Kept Step.entry_without_cash t h = skip_entry-Kept inv t h
  step-Kept (Step.buy_result n r) t h = on_buy_result-Kept inv u.limit_price n r t h
  step-Kept (Step.buy_fill i n p total) t h = on_buy_fill-Kept inv i n p total t h
  step-Kept Step.entry_timeout t h = timer_step-Kept Step.entry_timeout t.entry_timer t h
  step-Kept (Step.entry_cancel p c) t h = timer_step-Kept (Step.entry_cancel p c) t.entry_timer t h
  step-Kept (Step.tick_change b) t h = on_tick_change-Kept inv b t h
  step-Kept (Step.tick_verified tick) t h = on_tick_verified-Kept inv tick t h
  step-Kept (Step.sell_fill i n p total) t h = on_sell_fill-Kept inv i n p total t h
  step-Kept (Step.sell_cancel i n) t h = on_normal_sell_cancel-Kept inv i n t h
  step-Kept (Step.risk_exit p) t h = start_risk_exit-Kept inv u.cent p t h
  step-Kept (Step.floor_fill i n p) t h = on_sell_fill_risk-Kept inv i n p t h
  step-Kept Step.floor_cancel t h = signal_done-Kept inv t h
  step-Kept Step.force_exit t h = start_force_exit-Kept inv t h
  step-Kept Step.stop t h = stop_trade-Kept inv t h
  step-Kept (Step.force_cancel p c) t h = force_step-Kept p c t.force t h
  step-Kept (Step.risk_cancel p c) t h = risk_step-Kept (Step.risk_cancel p c) t.risk t h
  step-Kept (Step.floor_result m p w r) t h = risk_step-Kept (Step.floor_result m p w r) t.risk t h
  step-Kept (Step.floor_done p) t h = risk_step-Kept (Step.floor_done p) t.risk t h
  step-Kept Step.floor_timeout t h = risk_step-Kept Step.floor_timeout t.risk t h
  step-Kept s t h = normal_step-Kept s t.normal t h

  pub run-Kept : (ss : List Step) (t : Trade) → Kept inv t → Kept inv (run u ss t)
  unfolding run
  run-Kept [] t h = h
  run-Kept (s ∷ ss) t h = run-Kept ss (step u s t) (step-Kept s t h)
