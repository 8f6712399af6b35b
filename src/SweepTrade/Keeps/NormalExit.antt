-- ===== src/SweepTrade/Keeps/NormalExit.antt =====
-- The normal exit keeps an invariant of the trade (service.py).
use poly_strategy.Prelude.{ℕ, Bool, Option, none, some}
use poly_strategy.SellFailure.Classify.{Signature}
use poly_strategy.SweepTrade.State.{Trade, OrderResult, Loop}
use poly_strategy.SweepTrade.SellCallbacks.{on_sell_fill, on_normal_sell_cancel}
use poly_strategy.SweepTrade.NormalExit.{
  start_normal_exit, on_consensus, submit, loop_head, on_min_order_size, on_grace_over,
  on_balance_lag, on_sell_error, on_tick_refreshed, take_fill, complete, on_sell_filled, await_fill,
  place_sell, on_sell_accepted, on_sell_result, on_sell_done,
}
use poly_strategy.SweepTrade.Keeps.{Invariant, Kept, keeps}

module _ (inv : Invariant) where
  pub start_normal_exit-Kept : (t : Trade) → Kept inv t → Kept inv (start_normal_exit t)
  unfolding Kept start_normal_exit
  start_normal_exit-Kept t h = search keeps

  pub on_consensus-Kept :
      (p : Bool) (tick : Option ℕ) (t : Trade) → Kept inv t → Kept inv (on_consensus p tick t)
  unfolding Kept on_consensus
  on_consensus-Kept p none t h = search keeps
  on_consensus-Kept p (some tick) t h = search keeps

  pub submit-Kept : (l : Loop) (t : Trade) → Kept inv t → Kept inv (submit l t)
  unfolding Kept submit
  submit-Kept l t h = search keeps

  pub loop_head-Kept : (l : Loop) (t : Trade) → Kept inv t → Kept inv (loop_head l t)
  unfolding Kept loop_head
  loop_head-Kept l t h = search keeps

  pub on_min_order_size-Kept :
      (one now : ℕ) (m : Option ℕ) (t : Trade)
      → Kept inv t
      → Kept inv (on_min_order_size one now m t)
  unfolding Kept on_min_order_size
  on_min_order_size-Kept one now m t h = search (keeps, loop_head-Kept)

  pub on_grace_over-Kept : (l : Loop) (t : Trade) → Kept inv t → Kept inv (on_grace_over l t)
  unfolding Kept on_grace_over
  on_grace_over-Kept l t h = search keeps

  pub on_balance_lag-Kept :
      (retry : Option ℕ) (l : Loop) (t : Trade) → Kept inv t → Kept inv (on_balance_lag retry l t)
  unfolding Kept on_balance_lag
  on_balance_lag-Kept (some retry) l t h = search (keeps, loop_head-Kept)
  on_balance_lag-Kept none l t h = search keeps

  pub on_sell_error-Kept :
      (now : ℕ) (m p : Bool) (signature : Signature) (l : Loop) (r : OrderResult) (t : Trade)
      → Kept inv t
      → Kept inv (on_sell_error now m p signature l r t)
  unfolding Kept on_sell_error
  on_sell_error-Kept now m p signature l r t h = search keeps

  pub on_tick_refreshed-Kept :
      (one : ℕ) (m p : Bool) (tick : Option ℕ) (l : Loop) (t : Trade)
      → Kept inv t
      → Kept inv (on_tick_refreshed one m p tick l t)
  unfolding Kept on_tick_refreshed
  on_tick_refreshed-Kept one m p none l t h = search keeps
  on_tick_refreshed-Kept one m p (some tick) l t h = search (keeps, loop_head-Kept)

  pub take_fill-Kept :
      (limit : ℕ) (r : OrderResult) (t : Trade) → Kept inv t → Kept inv (take_fill limit r t)
  unfolding Kept take_fill
  take_fill-Kept limit r t h = search keeps

  pub complete-Kept : (t : Trade) → Kept inv t → Kept inv (complete t)
  unfolding Kept complete
  complete-Kept t h = search keeps

  pub on_sell_filled-Kept :
      (l : Loop) (i : ℕ) (t : Trade) → Kept inv t → Kept inv (on_sell_filled l i t)
  unfolding Kept on_sell_filled
  on_sell_filled-Kept l i t h = search (keeps, complete-Kept, loop_head-Kept)

  pub on_sell_accepted-Kept :
      (l : Loop) (size : ℕ) (r : OrderResult) (t : Trade)
      → Kept inv t
      → Kept inv (on_sell_accepted l size r t)
  unfolding Kept on_sell_accepted await_fill place_sell
  on_sell_accepted-Kept l size r t h = search (keeps, on_sell_filled-Kept, take_fill-Kept)

  pub on_sell_result-Kept :
      (u now : ℕ) (m p : Bool) (o : Option ℕ) (l : Loop) (size : ℕ) (r : OrderResult) (t : Trade)
      → Kept inv t
      → Kept inv (on_sell_result u now m p o l size r t)
  unfolding Kept on_sell_result
  on_sell_result-Kept u now m p o l size r t h =
      search (keeps, on_balance_lag-Kept, on_sell_error-Kept, on_sell_accepted-Kept)

  pub on_sell_done-Kept :
      (l : Loop) (i : ℕ) (t : Trade) → Kept inv t → Kept inv (on_sell_done l i t)
  unfolding Kept on_sell_done
  on_sell_done-Kept l i t h = search (keeps, complete-Kept, loop_head-Kept)

  pub on_sell_fill-Kept :
      (i n p total : ℕ) (t : Trade) → Kept inv t → Kept inv (on_sell_fill i n p total t)
  unfolding Kept on_sell_fill
  on_sell_fill-Kept i n p total t h = search keeps

  pub on_normal_sell_cancel-Kept :
      (i n : ℕ) (t : Trade) → Kept inv t → Kept inv (on_normal_sell_cancel i n t)
  unfolding Kept on_normal_sell_cancel
  on_normal_sell_cancel-Kept i n t h = search keeps
