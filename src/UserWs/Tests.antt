-- ===== src/UserWs/Tests.antt =====
-- The watches of user_ws.py at a few inputs.
use poly_strategy.Prelude.{
  ℕ, ◌+◌, ◌-◌, ◌*◌, ◌≡◌, refl, true, false, none, some, List, [], ◌∷◌, arith, lookup, pos,
}
use poly_strategy.UserWs.Watch.{
  Side, Source, OrderWatch, emit_fill, consume_trades, emit_rest, match_order, match_trade,
}
use poly_strategy.UserWs.Fills.{
  total_size, notional, pending_notional, pending_size, IsRunning, match_order-notional,
}
use poly_strategy.UserWs.Tracking.{fills_of}
use poly_strategy.UserWs.Session.{Watches, Step, Frame, Message, Operation, RawAmount, Reply, run}
use poly_strategy.UserWs.Accounting.{run_accounts, late_trade_prices_next_fill}

abbrev bought : OrderWatch
bought = record {
  order_id = 7;
  token_id = 3;
  side = Side.buy;
  price = 99;
  last_matched = 10;
  seen_trade_ids = [];
  pending_trades = [];
  on_fill = true;
  on_cancel = false;
}

abbrev with_trades : OrderWatch
with_trades = record bought {
  pending_trades =
      record { trade_id = 1; size = 5; price = 97 }
      ∷ record { trade_id = 2; size = 8; price = 98 }
      ∷ [];
}

-- Ten more: five at 97 and five at 98, and three of the second trade stay pending.
two_trades :
    (notional (match_order with_trades 20).1 ≡ 975)
    × ((match_order with_trades 20).0.pending_trades
        ≡ record { trade_id = 2; size = 3; price = 98 } ∷ [])
unfolding match_order consume_trades emit_rest
two_trades = (refl, refl)

match_order-notional_example :
    notional (match_order with_trades 30).1
      + pending_notional (match_order with_trades 30).0.pending_trades
    ≡ pending_notional with_trades.pending_trades
      + (30 - 10 - pending_size with_trades.pending_trades) * 99
match_order-notional_example = match_order-notional with_trades 30 refl (omega arith)

abbrev watches : Watches
watches = (7, bought) ∷ []

abbrev update_to : ℕ → Step
update_to n = Step.frame (
    Frame.single (
      Message.order (record {
        id = some 7;
        order_id = none;
        operation = Operation.update;
        size_matched = RawAmount.amount (pos n);
      })))

abbrev steps : List Step
steps =
    update_to 12
    ∷ Step.reconnect (λ k. Reply.order_info (RawAmount.amount (pos 15)))
    ∷ update_to 15
    ∷ Step.unwatch 8
    ∷ Step.reconcile 7 (Reply.order_info (RawAmount.amount (pos 20)))
    ∷ []

run_accounts_example :
    let o = run steps watches in
    (w' : OrderWatch) × (lookup 7 o.watches ≡ some w')
    × (10 + total_size (fills_of 7 o.fills) ≡ w'.last_matched)
    × IsRunning 10 (fills_of 7 o.fills)
unfolding lookup
run_accounts_example =
    run_accounts 7 steps watches bought (refl, tt) refl refl
      (tt, (tt, (tt, ((λ e. omega arith), (tt, tt)))))

late_trade_prices_next_fill_example :
    let first = match_order bought 15 in
    let second = match_order (match_trade first.0 4 (15 - 10) 90) 18 in
    (first.1 ≡ emit_fill bought (15 - 10) 99 15 none Source.ws_order_update)
    × (second.1 ≡ emit_fill bought (18 - 15) 90 18 (some 4) Source.ws_trade)
late_trade_prices_next_fill_example =
    late_trade_prices_next_fill bought 15 18 4 90 refl refl refl (omega arith) (omega arith)
      (omega arith) (omega arith)
