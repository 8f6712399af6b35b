-- ===== src/SweepTrade/ForcedEnd.antt =====
-- A forced exit comes to its end (service.py).
use poly_strategy.Prelude.{
  either_way, ℕ, ◌≡◌, Bool, true, Option, none, some, ℤ, arith, Bool-cases, inl, inr, if◌then◌else◌,
}
use poly_strategy.SweepTrade.State.{Trade, Note, Reason, CancelResult, ForcePoint, is_closed}
use poly_strategy.SweepTrade.Ledger.{log_note, record_buy_fill, close, close_exit_failed}
use poly_strategy.SweepTrade.Entry.{stop_for_cancel_failure, reconcile_buy}
use poly_strategy.SweepTrade.ForceExit.{
  force_close, cancel_sell_of, cancel_buy_of, force_cancel_sell, start_force_exit,
  on_force_buy_cancel, on_force_sell_cancel,
}
use poly_strategy.SweepTrade.Run.{force_step}

unfoldable IsClosed : Trade → Type 0
IsClosed t = is_closed t ≡ true

if-IsClosed : (b : Bool) (x y : Trade) → IsClosed x → IsClosed y → IsClosed (if b then x else y)
if-IsClosed b x y h k = either_way IsClosed b x y h k

close-IsClosed : (r : Reason) (t : Trade) → IsClosed (close r t)
unfolding close IsClosed
close-IsClosed r t = ground arith

close_exit_failed-IsClosed :
    (r : Reason) (s p : Bool) (t : Trade) → IsClosed (close_exit_failed r s p t)
unfolding close_exit_failed IsClosed
close_exit_failed-IsClosed r s p t = search close-IsClosed

stop_for_cancel_failure-IsClosed :
    (n : Note) (r : Reason) (p : Bool) (c : CancelResult) (t : Trade)
    → IsClosed (stop_for_cancel_failure n r p c t)
unfolding stop_for_cancel_failure IsClosed
stop_for_cancel_failure-IsClosed n r p c t = search close_exit_failed-IsClosed

reconcile_buy-IsClosed :
    (i : ℕ) (c : CancelResult) (t : Trade) → IsClosed t → IsClosed (reconcile_buy i c t)
unfolding reconcile_buy record_buy_fill log_note IsClosed
reconcile_buy-IsClosed i c t h = either_way (λ x. is_closed x ≡ true) _ _ t h h

force_close-IsClosed : (t : Trade) → IsClosed (force_close t)
unfolding force_close IsClosed close
force_close-IsClosed t = ground arith

on_force_sell_cancel-IsClosed :
    (p : Bool) (i : ℕ) (z : ℤ) (c : CancelResult) (t : Trade)
    → IsClosed (on_force_sell_cancel p i z c t)
unfolding on_force_sell_cancel IsClosed
on_force_sell_cancel-IsClosed p i z c t =
    search (if-IsClosed, stop_for_cancel_failure-IsClosed, force_close-IsClosed)

cancel_sell_of-IsClosed : (o : Option ℕ) (t : Trade) → IsClosed t → IsClosed (cancel_sell_of o t)
unfolding cancel_sell_of IsClosed
cancel_sell_of-IsClosed none t h = force_close-IsClosed t
cancel_sell_of-IsClosed (some i) t h = h

force_cancel_sell-IsClosed : (t : Trade) → IsClosed t → IsClosed (force_cancel_sell t)
unfolding force_cancel_sell IsClosed
force_cancel_sell-IsClosed t h = cancel_sell_of-IsClosed t.exit_order_id t h

on_force_buy_cancel-IsClosed :
    (p : Bool) (i : ℕ) (c : CancelResult) (t : Trade)
    → IsClosed t
    → IsClosed (on_force_buy_cancel p i c t)
unfolding on_force_buy_cancel IsClosed
on_force_buy_cancel-IsClosed p i c t h = search (
  if-IsClosed, stop_for_cancel_failure-IsClosed, force_cancel_sell-IsClosed, reconcile_buy-IsClosed,
)

force_step-IsClosed :
    (p : Bool) (c : CancelResult) (q : ForcePoint) (t : Trade)
    → IsClosed t
    → IsClosed (force_step p c q t)
unfolding force_step
force_step-IsClosed p c (ForcePoint.cancelling_buy i) t h = on_force_buy_cancel-IsClosed p i c t h
force_step-IsClosed p c (ForcePoint.cancelling_sell i z) t h =
    on_force_sell_cancel-IsClosed p i z c t
force_step-IsClosed p c q t h = h

-- One more answer closes the trade.
unfoldable Ends : Trade → Type 0
Ends t = (p : Bool) (c : CancelResult) → IsClosed (force_step p c t.force t)

if-Ends : (b : Bool) (x y : Trade) → Ends x → Ends y → Ends (if b then x else y)
if-Ends b x y h k = either_way Ends b x y h k

closed-Ends : (t : Trade) → IsClosed t → Ends t
unfolding Ends
closed-Ends t h p c = force_step-IsClosed p c t.force t h

at_sell-Ends :
    (i : ℕ) (z : ℤ) (t : Trade) → Ends (record t { force = ForcePoint.cancelling_sell i z })
unfolding Ends force_step
at_sell-Ends i z t p c = on_force_sell_cancel-IsClosed p i z c _

cancel_sell_of-Ends : (o : Option ℕ) (t : Trade) → Ends (cancel_sell_of o t)
unfolding cancel_sell_of
cancel_sell_of-Ends none t = closed-Ends (force_close t) (force_close-IsClosed t)
cancel_sell_of-Ends (some i) t = at_sell-Ends i t.position_shares t

force_cancel_sell-Ends : (t : Trade) → Ends (force_cancel_sell t)
unfolding force_cancel_sell
force_cancel_sell-Ends t = cancel_sell_of-Ends t.exit_order_id t

on_force_buy_cancel-Ends :
    (p : Bool) (i : ℕ) (c : CancelResult) (t : Trade) → Ends (on_force_buy_cancel p i c t)
unfolding on_force_buy_cancel IsClosed
on_force_buy_cancel-Ends p i c t =
    search (if-Ends, closed-Ends, stop_for_cancel_failure-IsClosed, force_cancel_sell-Ends)

-- Two more answers close the trade.
unfoldable EndsSoon : Trade → Type 0
EndsSoon t = (p : Bool) (c : CancelResult) → Ends (force_step p c t.force t)

closed-EndsSoon : (t : Trade) → IsClosed t → EndsSoon t
unfolding EndsSoon
closed-EndsSoon t h p c = closed-Ends _ (force_step-IsClosed p c t.force t h)

Ends-EndsSoon : (t : Trade) → Ends t → EndsSoon t
unfolding EndsSoon Ends
Ends-EndsSoon t h p c = closed-Ends (force_step p c t.force t) (h p c)

at_buy-EndsSoon : (i : ℕ) (t : Trade) → EndsSoon (record t { force = ForcePoint.cancelling_buy i })
unfolding EndsSoon force_step
at_buy-EndsSoon i t p c = on_force_buy_cancel-Ends p i c _

cancel_buy_of-EndsSoon : (o : Option ℕ) (t : Trade) → EndsSoon (cancel_buy_of o t)
unfolding cancel_buy_of
cancel_buy_of-EndsSoon none t = Ends-EndsSoon _ (force_cancel_sell-Ends t)
cancel_buy_of-EndsSoon (some i) t = at_buy-EndsSoon i t

start_force_exit-EndsSoon : (t : Trade) → EndsSoon (start_force_exit t)
unfolding start_force_exit IsClosed
start_force_exit-EndsSoon t = elim (Bool-cases (is_closed t)) [
  | inl e ↦ rw e (closed-EndsSoon t e)
  | inr e ↦ rw e (cancel_buy_of-EndsSoon t.entry_order_id _)
]

-- A forced exit ends: whatever the exchange answers to its cancels, the trade is closed after two
-- answers at the most, from every state of the trade.
pub force_exit_ends :
    (p q : Bool) (c d : CancelResult) (t : Trade)
    → let t1 = start_force_exit t in
      let t2 = force_step p c t1.force t1 in
      let t3 = force_step q d t2.force t2 in is_closed t3 ≡ true
unfolding EndsSoon Ends IsClosed
force_exit_ends p q c d t = start_force_exit-EndsSoon t p c q d
