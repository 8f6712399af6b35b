-- ===== src/SweepTrade/Keeps/Entry.antt =====
-- The entry keeps an invariant of the trade (service.py).
use poly_strategy.Prelude.{ℕ, Bool, Option, none, some, Option-cases, inl, inr}
use poly_strategy.SellFailure.Classify.{OrderStatus}
use poly_strategy.SweepTrade.State.{Trade, Reason, Note, OrderResult, CancelResult}
use poly_strategy.SweepTrade.Keeps.{Invariant, Kept, keeps}
use poly_strategy.SweepTrade.Keeps.NormalExit.{start_normal_exit-Kept}
use poly_strategy.SweepTrade.Entry.{
  record_entry_complete, skip_entry, take_buy_fill, on_buy_accepted, on_buy_status, on_buy_result,
  on_buy_fill, after_entry_timeout, on_entry_timeout, reconcile_buy, stop_for_cancel_failure,
  on_entry_cancel, on_tick_change, on_tick_verified,
}

module _ (inv : Invariant) where
  pub record_entry_complete-Kept : (t : Trade) → Kept inv t → Kept inv (record_entry_complete t)
  unfolding Kept record_entry_complete
  record_entry_complete-Kept t h = search (keeps, start_normal_exit-Kept)

  pub skip_entry-Kept : (t : Trade) → Kept inv t → Kept inv (skip_entry t)
  unfolding Kept skip_entry
  skip_entry-Kept t h = search keeps

  pub take_buy_fill-Kept :
      (limit : ℕ) (r : OrderResult) (t : Trade) → Kept inv t → Kept inv (take_buy_fill limit r t)
  unfolding Kept take_buy_fill
  take_buy_fill-Kept limit r t h = search keeps

  pub on_buy_accepted-Kept :
      (limit : ℕ) (r : OrderResult) (t : Trade) → Kept inv t → Kept inv (on_buy_accepted limit r t)
  unfolding Kept on_buy_accepted
  on_buy_accepted-Kept limit r t h = search (keeps, record_entry_complete-Kept, take_buy_fill-Kept)

  pub on_buy_status-Kept :
      (s : OrderStatus) (limit : ℕ) (r : OrderResult) (t : Trade)
      → Kept inv t
      → Kept inv (on_buy_status s limit r t)
  unfolding Kept on_buy_status
  on_buy_status-Kept OrderStatus.insufficient_balance limit r t h = search keeps
  on_buy_status-Kept OrderStatus.failed limit r t h = search keeps
  on_buy_status-Kept _ limit r t h = search (keeps, on_buy_accepted-Kept)

  pub on_buy_result-Kept :
      (limit n : ℕ) (r : OrderResult) (t : Trade)
      → Kept inv t
      → Kept inv (on_buy_result limit n r t)
  unfolding Kept on_buy_result
  on_buy_result-Kept limit n r t h = search (keeps, on_buy_status-Kept)

  pub on_buy_fill-Kept :
      (i n p total : ℕ) (t : Trade) → Kept inv t → Kept inv (on_buy_fill i n p total t)
  unfolding Kept on_buy_fill
  on_buy_fill-Kept i n p total t h = search (keeps, record_entry_complete-Kept)

  pub after_entry_timeout-Kept : (t : Trade) → Kept inv t → Kept inv (after_entry_timeout t)
  unfolding Kept after_entry_timeout
  after_entry_timeout-Kept t h = search (keeps, start_normal_exit-Kept)

  pub on_entry_timeout-Kept : (t : Trade) → Kept inv t → Kept inv (on_entry_timeout t)
  unfolding Kept on_entry_timeout
  on_entry_timeout-Kept t h = elim (Option-cases t.entry_order_id) [
    | inl e ↦ rw e search (keeps, after_entry_timeout-Kept)
    | inr (i, e) ↦ rw e search keeps
  ]

  pub reconcile_buy-Kept :
      (i : ℕ) (c : CancelResult) (t : Trade) → Kept inv t → Kept inv (reconcile_buy i c t)
  unfolding Kept reconcile_buy
  reconcile_buy-Kept i c t h = search keeps

  pub stop_for_cancel_failure-Kept :
      (n : Note) (r : Reason) (p : Bool) (c : CancelResult) (t : Trade)
      → Kept inv t
      → Kept inv (stop_for_cancel_failure n r p c t)
  unfolding Kept stop_for_cancel_failure
  stop_for_cancel_failure-Kept n r p c t h = search keeps

  pub on_entry_cancel-Kept :
      (p : Bool) (i : ℕ) (c : CancelResult) (t : Trade)
      → Kept inv t
      → Kept inv (on_entry_cancel p i c t)
  unfolding Kept on_entry_cancel
  on_entry_cancel-Kept p i c t h =
      search (keeps, stop_for_cancel_failure-Kept, after_entry_timeout-Kept, reconcile_buy-Kept)

  pub on_tick_change-Kept : (b : Bool) (t : Trade) → Kept inv t → Kept inv (on_tick_change b t)
  unfolding Kept on_tick_change
  on_tick_change-Kept b t h = search keeps

  pub on_tick_verified-Kept :
      (tick : Option ℕ) (t : Trade) → Kept inv t → Kept inv (on_tick_verified tick t)
  unfolding Kept on_tick_verified
  on_tick_verified-Kept none t h = search keeps
  on_tick_verified-Kept (some tick) t h = search (keeps, start_normal_exit-Kept)
