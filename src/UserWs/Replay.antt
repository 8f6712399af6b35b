-- ===== src/UserWs/Replay.antt =====
-- Over any course of a session (user_ws.py), the fills reported for an order account for what its
-- `last_matched` rises by: no quantity is lost or reported twice.
use poly_strategy.Prelude.{
  ℕ, ◌≡◌, ◌≢◌, subst, Option, none, some, List, [], ◌∷◌, ℤ, arith, lookup, insert, lookup-insert,
  Entries, insert-Entries, lookup-Entries, ◌==◌, Option-cases, Bool-cases, inl, inr, ==_iff,
  ==_refl, or_else, All, ◌∙◌,
}
use poly_strategy.UserWs.Watch.{FillEvent, OrderWatch}
use poly_strategy.UserWs.Tracking.{
  HasOrder, fills_of, fills_of-append, fills_of_own, fills_of_other, Behaves, Tracks, Tracks-refl,
  Tracks-trans, match_order_signed-Behaves, match_trade_signed-Behaves,
}
use poly_strategy.UserWs.Session.{
  Watches, Outcome, quiet, after, change, Frame, Message, TradeMessage, RawAmount, Operation,
  match_order_signed, match_trade_signed, handle_order_event, handle_trade_event, on_cancellation,
  on_matched, on_operation, on_order_event, on_trade_amounts, on_trade_ids, dispatch_single,
  dispatch_all, dispatch, parse_amount,
}

abbrev pub IsAt : ℕ → OrderWatch → Type 0
IsAt k w = w.order_id ≡ k

-- Every watch stands under its own order id.
abbrev pub IsKeyed : Watches → Type 0
IsKeyed ws = Entries IsAt ws

-- A changed watch, seen from its own order and from another one.
module _ (j : ℕ) (w w' : OrderWatch) (es : List FillEvent) (ws : Watches) where
  changed_own :
      lookup j ws ≡ some w
      → w.order_id ≡ j
      → Behaves w (w', es)
      → Tracks (lookup j ws) (fills_of j es) (lookup j (insert j w' ws))
  changed_own e own b =
      rw (lookup-insert, ==_refl j, e, fills_of_own j es (subst (λ i. All (HasOrder i) es) own b.2))
        (b.1, b.3)

  changed_other :
      (k : ℕ)
      → j ≢ k
      → w.order_id ≡ j
      → Behaves w (w', es)
      → Tracks (lookup k ws) (fills_of k es) (lookup k (insert j w' ws))
  changed_other k n own b =
      let kept : lookup k (insert j w' ws) ≡ lookup k ws =
        ground (arith, lookup-insert j k w' ws) in
      rw (kept, fills_of_other k j es n (subst (λ i. All (HasOrder i) es) own b.2))
        (Tracks-refl (lookup k ws))

module _ (k : ℕ) where
  abbrev pub Follows : Watches → Outcome → Type 0
  Follows ws o = IsKeyed o.watches × Tracks (lookup k ws) (fills_of k o.fills) (lookup k o.watches)

  pub Follows-quiet : (ws : Watches) → IsKeyed ws → Follows ws (quiet ws)
  Follows-quiet ws h = (h, Tracks-refl (lookup k ws))

  pub Follows-after :
      (ws : Watches) (o : Outcome) (next : Watches → Outcome)
      → Follows ws o
      → (IsKeyed o.watches → Follows o.watches (next o.watches))
      → Follows ws (after o next)
  Follows-after ws o next h n =
      let p = n h.0 in
      (
        p.0,
        rw fills_of-append (
            Tracks-trans (lookup k ws) (lookup k o.watches) (lookup k (next o.watches).watches)
              (fills_of k o.fills) (fills_of k (next o.watches).fills) h.1 p.1),
      )

  -- A handler that behaves on each watch follows the order, whichever order it is called for.
  pub change-Follows :
      (j : ℕ) (f : OrderWatch → OrderWatch × List FillEvent)
      → ((w : OrderWatch) → Behaves w (f w))
      → (ws : Watches) → IsKeyed ws
      → Follows ws (change j f ws)
  unfolding change
  change-Follows j f behaves ws h = elim (Option-cases (lookup j ws)) [
    | inl absent ↦ rw (absent, change) (Follows-quiet ws h)
    | inr (w, e) ↦
        let own : w.order_id ≡ j = lookup-Entries IsAt j w ws h e in
        let b = behaves w in
        rw (e, change)
          (
            insert-Entries IsAt j (f w).0 ws (b.0 ∙ own) h,
            elim (Bool-cases (j == k)) [
              | inl same ↦
                  subst
                    (λ i.
                      Tracks (lookup i ws) (fills_of i (f w).1) (lookup i (insert j (f w).0 ws)))
                    ((==_iff j k).0 same) (changed_own j w (f w).0 (f w).1 ws e own b)
              | inr other ↦ changed_other j w (f w).0 (f w).1 ws k (ground arith) own b
            ],
          )
  ]

  pub handle_order_event-Follows :
      (j : ℕ) (z : ℤ) (ws : Watches) → IsKeyed ws → Follows ws (handle_order_event j z ws)
  unfolding handle_order_event
  handle_order_event-Follows j z ws h =
      change-Follows j (match_order_signed z) (match_order_signed-Behaves z) ws h

  on_matched-Follows :
      (j : ℕ) (o : Option ℤ) (ws : Watches) → IsKeyed ws → Follows ws (on_matched j o ws)
  unfolding on_matched
  on_matched-Follows j none ws h = Follows-quiet ws h
  on_matched-Follows j (some z) ws h = handle_order_event-Follows j z ws h

  on_cancellation-Follows :
      (j : ℕ) (raw : RawAmount) (ws : Watches) → IsKeyed ws → Follows ws (on_cancellation j raw ws)
  unfolding on_cancellation
  on_cancellation-Follows j raw ws h = elim (Option-cases (lookup j ws)) [
    | inl absent ↦ rw (absent, on_cancellation) (Follows-quiet ws h)
    | inr (w, e) ↦ rw (e, on_cancellation) (Follows-quiet ws h)
  ]

  on_operation-Follows :
      (op : Operation) (j : ℕ) (raw : RawAmount) (ws : Watches)
      → IsKeyed ws
      → Follows ws (on_operation op j raw ws)
  unfolding on_operation
  on_operation-Follows Operation.cancellation j raw ws h = on_cancellation-Follows j raw ws h
  on_operation-Follows Operation.update j raw ws h = on_matched-Follows j (parse_amount raw) ws h
  on_operation-Follows Operation.placement j raw ws h = on_matched-Follows j (parse_amount raw) ws h
  on_operation-Follows Operation.other j raw ws h = Follows-quiet ws h

  on_trade_amounts-Follows :
      (j i : ℕ) (s p : Option ℤ) (ws : Watches)
      → IsKeyed ws
      → Follows ws (on_trade_amounts j i s p ws)
  unfolding on_trade_amounts handle_trade_event
  on_trade_amounts-Follows j i (some s) (some p) ws h =
      change-Follows j (match_trade_signed i s p) (match_trade_signed-Behaves i s p) ws h
  on_trade_amounts-Follows j i _ _ ws h = Follows-quiet ws h

  on_trade_ids-Follows :
      (o t : Option ℕ) (m : TradeMessage) (ws : Watches)
      → IsKeyed ws
      → Follows ws (on_trade_ids o t m ws)
  unfolding on_trade_ids
  on_trade_ids-Follows (some j) (some i) m ws h =
      on_trade_amounts-Follows j i (parse_amount m.size) (parse_amount m.price) ws h
  on_trade_ids-Follows _ _ m ws h = Follows-quiet ws h

  dispatch_single-Follows :
      (m : Message) (ws : Watches) → IsKeyed ws → Follows ws (dispatch_single m ws)
  unfolding dispatch_single
  dispatch_single-Follows (Message.order m) ws h = elim (Option-cases (or_else m.id m.order_id)) [
    | inl absent ↦ rw (absent, on_order_event) (Follows-quiet ws h)
    | inr (j, e) ↦ rw (e, on_order_event) (on_operation-Follows m.operation j m.size_matched ws h)
  ]
  dispatch_single-Follows (Message.trade m) ws h =
      on_trade_ids-Follows (or_else m.taker_order_id m.maker_order_id) (or_else m.trade_id m.id) m
        ws h
  dispatch_single-Follows Message.unknown ws h = Follows-quiet ws h

  dispatch_all-Follows :
      (ms : List Message) (ws : Watches) → IsKeyed ws → Follows ws (dispatch_all ms ws)
  unfolding dispatch_all
  dispatch_all-Follows [] ws h = Follows-quiet ws h
  dispatch_all-Follows (m ∷ ms) ws h =
      let o = dispatch_single m ws in
      Follows-after ws o (dispatch_all ms) (dispatch_single-Follows m ws h)
        (dispatch_all-Follows ms o.watches)

  pub dispatch-Follows : (f : Frame) (ws : Watches) → IsKeyed ws → Follows ws (dispatch f ws)
  unfolding dispatch
  dispatch-Follows Frame.pong ws h = Follows-quiet ws h
  dispatch-Follows Frame.not_json ws h = Follows-quiet ws h
  dispatch-Follows (Frame.batch ms) ws h = dispatch_all-Follows ms ws h
  dispatch-Follows (Frame.single m) ws h = dispatch_single-Follows m ws h
