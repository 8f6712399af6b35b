-- ===== src/SweepTrade/Keeps/Exits.antt =====
-- The risk exit and the forced exit keep an invariant of the trade (service.py).
use poly_strategy.Prelude.{ℕ, Bool, Option, none, some, ℤ, List, [], ◌∷◌, Option-cases, inl, inr}
use poly_strategy.UserWs.Watch.{Side}
use poly_strategy.SweepTrade.State.{Trade, OrderResult, CancelResult}
use poly_strategy.SweepTrade.Keeps.{Invariant, Kept, keeps}
use poly_strategy.SweepTrade.Keeps.NormalExit.{take_fill-Kept}
use poly_strategy.SweepTrade.Keeps.Entry.{reconcile_buy-Kept, stop_for_cancel_failure-Kept}
use poly_strategy.SweepTrade.RiskExit.{
  risk_close, sell_at_floor, cancel_sell, start_risk_exit, on_buy_cancelled, on_sell_cancelled,
  on_floor_accepted, on_floor_result, finish_risk_exit, on_floor_done, on_floor_timeout,
  on_rest_cancelled, on_sell_fill_risk,
}
use poly_strategy.SweepTrade.ForceExit.{
  force_close, cancel_sell_of, cancel_buy_of, force_cancel_sell, start_force_exit, stop_trade,
  on_force_buy_cancel, reconcile_sell, on_force_sell_cancel,
}

module _ (inv : Invariant) where
  pub risk_close-Kept :
      (p : Bool) (f : List Side) (t : Trade) → Kept inv t → Kept inv (risk_close p f t)
  unfolding Kept risk_close
  risk_close-Kept p [] t h = search keeps
  risk_close-Kept p (s ∷ f) t h = search keeps

  pub sell_at_floor-Kept :
      (u : ℕ) (p : Bool) (f : List Side) (t : Trade) → Kept inv t → Kept inv (sell_at_floor u p f t)
  unfolding Kept sell_at_floor
  sell_at_floor-Kept u p f t h = search (keeps, risk_close-Kept)

  pub cancel_sell-Kept :
      (u : ℕ) (p : Bool) (f : List Side) (t : Trade) → Kept inv t → Kept inv (cancel_sell u p f t)
  unfolding Kept cancel_sell
  cancel_sell-Kept u p f t h = elim (Option-cases t.exit_order_id) [
    | inl e ↦ rw e search (keeps, sell_at_floor-Kept)
    | inr (i, e) ↦ rw e search keeps
  ]

  pub start_risk_exit-Kept :
      (u : ℕ) (p : Bool) (t : Trade) → Kept inv t → Kept inv (start_risk_exit u p t)
  unfolding Kept start_risk_exit
  start_risk_exit-Kept u p t h = elim (Option-cases t.entry_order_id) [
    | inl e ↦ rw e search (keeps, cancel_sell-Kept)
    | inr (i, e) ↦ rw e search keeps
  ]

  pub on_buy_cancelled-Kept :
      (u : ℕ) (p c : Bool) (f : List Side) (t : Trade)
      → Kept inv t
      → Kept inv (on_buy_cancelled u p c f t)
  unfolding Kept on_buy_cancelled
  on_buy_cancelled-Kept u p c f t h = search (keeps, cancel_sell-Kept)

  pub on_sell_cancelled-Kept :
      (u : ℕ) (p c : Bool) (f : List Side) (t : Trade)
      → Kept inv t
      → Kept inv (on_sell_cancelled u p c f t)
  unfolding Kept on_sell_cancelled
  on_sell_cancelled-Kept u p c f t h = search (keeps, sell_at_floor-Kept)

  pub on_floor_accepted-Kept :
      (u : ℕ) (p w : Bool) (f : List Side) (r : OrderResult) (t : Trade)
      → Kept inv t
      → Kept inv (on_floor_accepted u p w f r t)
  unfolding Kept on_floor_accepted
  on_floor_accepted-Kept u p w f r t h = search (keeps, take_fill-Kept, risk_close-Kept)

  pub on_floor_result-Kept :
      (u : ℕ) (m p w : Bool) (f : List Side) (r : OrderResult) (t : Trade)
      → Kept inv t
      → Kept inv (on_floor_result u m p w f r t)
  unfolding Kept on_floor_result
  on_floor_result-Kept u m p w f r t h = search (keeps, on_floor_accepted-Kept)

  pub finish_risk_exit-Kept :
      (p : Bool) (f : List Side) (t : Trade) → Kept inv t → Kept inv (finish_risk_exit p f t)
  unfolding Kept finish_risk_exit
  finish_risk_exit-Kept p f t h = search (keeps, risk_close-Kept)

  pub on_floor_done-Kept :
      (p : Bool) (f : List Side) (t : Trade) → Kept inv t → Kept inv (on_floor_done p f t)
  unfolding Kept on_floor_done
  on_floor_done-Kept p f t h = search (keeps, finish_risk_exit-Kept)

  pub on_floor_timeout-Kept :
      (f : List Side) (i : ℕ) (t : Trade) → Kept inv t → Kept inv (on_floor_timeout f i t)
  unfolding Kept on_floor_timeout
  on_floor_timeout-Kept f i t h = search keeps

  pub on_rest_cancelled-Kept :
      (p c : Bool) (f : List Side) (t : Trade) → Kept inv t → Kept inv (on_rest_cancelled p c f t)
  unfolding Kept on_rest_cancelled
  on_rest_cancelled-Kept p c f t h = search (keeps, finish_risk_exit-Kept)

  pub on_sell_fill_risk-Kept :
      (i n p : ℕ) (t : Trade) → Kept inv t → Kept inv (on_sell_fill_risk i n p t)
  unfolding Kept on_sell_fill_risk
  on_sell_fill_risk-Kept i n p t h = search keeps

  pub force_close-Kept : (t : Trade) → Kept inv t → Kept inv (force_close t)
  unfolding Kept force_close
  force_close-Kept t h = search keeps

  pub cancel_sell_of-Kept : (o : Option ℕ) (t : Trade) → Kept inv t → Kept inv (cancel_sell_of o t)
  unfolding Kept cancel_sell_of
  cancel_sell_of-Kept none t h = search force_close-Kept
  cancel_sell_of-Kept (some i) t h = h

  pub force_cancel_sell-Kept : (t : Trade) → Kept inv t → Kept inv (force_cancel_sell t)
  unfolding Kept force_cancel_sell
  force_cancel_sell-Kept t h = search cancel_sell_of-Kept

  pub cancel_buy_of-Kept : (o : Option ℕ) (t : Trade) → Kept inv t → Kept inv (cancel_buy_of o t)
  unfolding Kept cancel_buy_of
  cancel_buy_of-Kept none t h = search force_cancel_sell-Kept
  cancel_buy_of-Kept (some i) t h = h

  pub start_force_exit-Kept : (t : Trade) → Kept inv t → Kept inv (start_force_exit t)
  unfolding Kept start_force_exit
  start_force_exit-Kept t h = search (keeps, cancel_buy_of-Kept)

  pub on_force_buy_cancel-Kept :
      (p : Bool) (i : ℕ) (c : CancelResult) (t : Trade)
      → Kept inv t
      → Kept inv (on_force_buy_cancel p i c t)
  unfolding Kept on_force_buy_cancel
  on_force_buy_cancel-Kept p i c t h =
      search (keeps, stop_for_cancel_failure-Kept, force_cancel_sell-Kept, reconcile_buy-Kept)

  pub reconcile_sell-Kept :
      (i : ℕ) (z : ℤ) (c : CancelResult) (t : Trade)
      → Kept inv t
      → Kept inv (reconcile_sell i z c t)
  unfolding Kept reconcile_sell
  reconcile_sell-Kept i z c t h = search keeps

  pub on_force_sell_cancel-Kept :
      (p : Bool) (i : ℕ) (z : ℤ) (c : CancelResult) (t : Trade)
      → Kept inv t
      → Kept inv (on_force_sell_cancel p i z c t)
  unfolding Kept on_force_sell_cancel
  on_force_sell_cancel-Kept p i z c t h =
      search (keeps, stop_for_cancel_failure-Kept, force_close-Kept, reconcile_sell-Kept)

  pub stop_trade-Kept : (t : Trade) → Kept inv t → Kept inv (stop_trade t)
  unfolding Kept stop_trade
  stop_trade-Kept t h = h
