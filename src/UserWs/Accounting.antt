-- ===== src/UserWs/Accounting.antt =====
-- Every fill of an order is reported once (user_ws.py), over any frames, reconciliations, reconnects
-- and changes of other watches; and how a trade that comes after its order update is priced.
use poly_strategy.Prelude.{
  ℕ, ◌+◌, ◌-◌, ◌≤◌, ◌<◌, ◌≡◌, ◌≢◌, refl, subst, Bool, true, false, Option, none, some, List, [],
  ◌∷◌, arith, pos, lookup, lookup-insert, lookup-erase, insert-Entries, erase-Entries, Option-cases,
  Bool-cases, inl, inr, ltb_ℤ, map, elem, All,
}
use poly_strategy.UserWs.Watch.{
  Side, Source, FillEvent, OrderWatch, match_order, match_trade, consume_trades, emit_rest,
  emit_fill,
}
use poly_strategy.UserWs.Fills.{total_size, IsRunning}
use poly_strategy.UserWs.Tracking.{fills_of, Tracks, Tracks-refl, match_reconnect_signed-Behaves}
use poly_strategy.UserWs.Session.{
  Watches, quiet, Step, Reply, match_reconnect_signed, reconcile_order, reconciled_amount,
  reconnect_amount, reconnect_one, reconnect_all, step, run, fresh_watch, watch_order,
  unwatch_order,
}
use poly_strategy.UserWs.Replay.{
  IsAt, IsKeyed, Follows, Follows-quiet, Follows-after, change-Follows, handle_order_event-Follows,
  dispatch-Follows,
}

-- The step neither watches nor unwatches the order.
abbrev pub LeavesAlone : ℕ → Step → Type 0
LeavesAlone k (Step.watch j t s p i f c) = j ≢ k
LeavesAlone k (Step.unwatch j) = j ≢ k
LeavesAlone k _ = Unit

module _ (k : ℕ) where
  reconcile_order-Follows :
      (j : ℕ) (r : Reply) (ws : Watches) → IsKeyed ws → Follows k ws (reconcile_order j r ws).0
  unfolding reconcile_order
  reconcile_order-Follows j r ws h = elim (Option-cases (lookup j ws)) [
    | inl absent ↦ rw (absent, reconcile_order) (Follows-quiet k ws h)
    | inr (w, e) ↦ elim (Option-cases (reconciled_amount r)) [
      | inl unread ↦ rw (e, unread, reconcile_order) (Follows-quiet k ws h)
      | inr (z, read) ↦ elim (Bool-cases (ltb_ℤ (pos w.last_matched) z)) [
        | inl more ↦ rw (e, read, more, reconcile_order) (handle_order_event-Follows k j z ws h)
        | inr same ↦ rw (e, read, same, reconcile_order) (Follows-quiet k ws h)
      ]
    ]
  ]

  reconnect_one-Follows :
      (j : ℕ) (r : Reply) (ws : Watches) → IsKeyed ws → Follows k ws (reconnect_one j r ws)
  unfolding reconnect_one
  reconnect_one-Follows j r ws h = elim (Option-cases (reconnect_amount r)) [
    | inl unread ↦ rw (unread, reconnect_one) (Follows-quiet k ws h)
    | inr (z, read) ↦
        rw (read, reconnect_one)
          (change-Follows k j (match_reconnect_signed z) (match_reconnect_signed-Behaves z) ws h)
  ]

  reconnect_all-Follows :
      (ks : List ℕ) (replies : ℕ → Reply) (ws : Watches)
      → IsKeyed ws
      → Follows k ws (reconnect_all ks replies ws)
  unfolding reconnect_all
  reconnect_all-Follows [] replies ws h = Follows-quiet k ws h
  reconnect_all-Follows (j ∷ js) replies ws h =
      let o = reconnect_one j (replies j) ws in
      Follows-after k ws o (reconnect_all js replies) (reconnect_one-Follows j (replies j) ws h)
        (reconnect_all-Follows js replies o.watches)

  -- A change of the watches that keeps this one, and reports nothing.
  kept-Follows :
      (ws ws' : Watches) → IsKeyed ws' → lookup k ws' ≡ lookup k ws → Follows k ws (quiet ws')
  kept-Follows ws ws' h e = (h, rw e (Tracks-refl (lookup k ws)))

  watch_order-Follows :
      (j t : ℕ) (s : Side) (p i : ℕ) (f c : Bool) (ws : Watches)
      → j ≢ k
      → IsKeyed ws
      → Follows k ws (quiet (watch_order j t s p i f c ws))
  unfolding watch_order
  watch_order-Follows j t s p i f c ws a h =
      kept-Follows ws (watch_order j t s p i f c ws)
        (insert-Entries IsAt j (fresh_watch j t s p i f c) ws refl h)
        (ground (arith, lookup-insert j k (fresh_watch j t s p i f c) ws))

  unwatch_order-Follows :
      (j : ℕ) (ws : Watches) → j ≢ k → IsKeyed ws → Follows k ws (quiet (unwatch_order j ws))
  unfolding unwatch_order
  unwatch_order-Follows j ws a h =
      kept-Follows ws (unwatch_order j ws) (erase-Entries IsAt j ws h)
        (ground (arith, lookup-erase j k ws))

  step-Follows : (s : Step) (ws : Watches) → LeavesAlone k s → IsKeyed ws → Follows k ws (step s ws)
  unfolding step
  step-Follows (Step.frame f) ws a h = dispatch-Follows k f ws h
  step-Follows (Step.reconcile j r) ws a h = reconcile_order-Follows j r ws h
  step-Follows (Step.reconnect replies) ws a h =
      reconnect_all-Follows (map (λ (e : ℕ × OrderWatch). e.0) ws) replies ws h
  step-Follows (Step.watch j t s p i f c) ws a h = watch_order-Follows j t s p i f c ws a h
  step-Follows (Step.unwatch j) ws a h = unwatch_order-Follows j ws a h

  run-Follows :
      (ss : List Step) (ws : Watches)
      → All (LeavesAlone k) ss
      → IsKeyed ws
      → Follows k ws (run ss ws)
  unfolding run
  run-Follows [] ws a h = Follows-quiet k ws h
  run-Follows (s ∷ ss) ws a h =
      let o = step s ws in
      Follows-after k ws o (run ss) (step-Follows s ws a.0 h) (run-Follows ss o.watches a.1)

Tracks-watched :
    (w : OrderWatch) (fs : List FillEvent) (o : Option OrderWatch)
    → Tracks (some w) fs o
    → w.on_fill ≡ true
    → (w' : OrderWatch) × (o ≡ some w')
      × (w.last_matched + total_size fs ≡ w'.last_matched)
      × IsRunning w.last_matched fs
Tracks-watched w fs none t on = absurd t
Tracks-watched w fs (some w') t on = (w', refl, (t.1 on).0, (t.1 on).1)

-- A session starts with watches that stand under their own order ids. Over any frames, REST
-- reconciliations, reconnects, and watches and unwatches of other orders, a watched order with a fill
-- callback stays watched; the sizes of the fills reported for it add up to what its `last_matched`
-- has risen by, and each of these fills carries the matched quantity that is reached with it.
pub run_accounts :
    (k : ℕ) (ss : List Step) (ws : Watches) (w : OrderWatch)
    → IsKeyed ws
    → lookup k ws ≡ some w
    → w.on_fill ≡ true
    → All (LeavesAlone k) ss
    → let o = run ss ws in
      (w' : OrderWatch) × (lookup k o.watches ≡ some w')
      × (w.last_matched + total_size (fills_of k o.fills) ≡ w'.last_matched)
      × IsRunning w.last_matched (fills_of k o.fills)
run_accounts k ss ws w h e on a =
    let o = run ss ws in
    Tracks-watched w (fills_of k o.fills) (lookup k o.watches)
      (subst (λ p. Tracks p (fills_of k o.fills) (lookup k o.watches)) e
        (run-Follows k ss ws a h).1)
      on

-- An order update that comes before its trade is reported at the limit price, and the trade stays
-- pending: the next fill of at most that size is then reported at the earlier trade's price and under
-- its id.
pub late_trade_prices_next_fill :
    (w : OrderWatch) (s t i p : ℕ)
    → w.on_fill ≡ true
    → w.pending_trades ≡ []
    → elem i w.seen_trade_ids ≡ false
    → 0 < p
    → w.last_matched < s
    → s < t
    → t - s ≤ s - w.last_matched
    → let first = match_order w s in
      let second = match_order (match_trade first.0 i (s - w.last_matched) p) t in
      (first.1 ≡ emit_fill w (s - w.last_matched) w.price s none Source.ws_order_update)
      × (second.1 ≡ emit_fill w (t - s) p t (some i) Source.ws_trade)
unfolding match_order match_trade consume_trades emit_rest
late_trade_prices_next_fill w s t i p on empty fresh pp ls st small = ground arith
