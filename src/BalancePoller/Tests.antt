-- ===== src/BalancePoller/Tests.antt =====
-- Reservations of balance_poller.py at a few inputs.
use poly_strategy.Prelude.{◌+◌, ◌*◌, ◌≤◌, ◌<◌, ◌≡◌, ◌⊎◌, refl, true, [], ◌∷◌, arith}
use poly_strategy.BalancePoller.State.{Poller, available_cash, reserve_buy_shares}
use poly_strategy.BalancePoller.Reservations.{
  Request, reserve_all, reserve_all_conserves, reserve_is_maximal,
}

-- 50 dollars in cents and whole shares.
abbrev fifty : Poller
fifty = record {
  safety_buffer = 0;
  collateral_balance = 5000;
  open_buy_locked = 0;
  reserved_buy_notional = 0;
  open_orders = [];
  positions = [];
  last_balance_poll = 0;
  last_position_poll = 0;
  running = true;
  ready = true;
}

abbrev hundred : Request
hundred = record { shares = 100; price = 99; min_shares = 5 }

-- The first request gets what there is, the second nothing.
shared_wallet : (reserve_all 1 (hundred ∷ hundred ∷ []) fifty).1 ≡ 4950
unfolding reserve_all reserve_buy_shares
shared_wallet = refl

reserve_all_conserves_example :
    (reserve_all 1 (hundred ∷ hundred ∷ []) fifty).1
      + available_cash (reserve_all 1 (hundred ∷ hundred ∷ []) fifty).0
    ≡ available_cash fifty
reserve_all_conserves_example = reserve_all_conserves 1 (hundred ∷ hundred ∷ []) fifty

reserve_is_maximal_example :
    let (s', n) = reserve_buy_shares 1 100 99 5 fifty in
    (n ≡ 0) ⊎ ((5 ≤ n) × (n ≤ 100) × ((n ≡ 100) ⊎ (available_cash s' < 99 * 1)))
reserve_is_maximal_example = reserve_is_maximal 1 100 99 5 fifty (omega arith)
