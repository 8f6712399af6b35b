-- ===== src/BalancePoller.antt =====
-- backend/src/framework/strategy_runtime/balance_poller.py: the cached balance of one wallet, the
-- BUY reservations that several configurations share, and the registry of pollers.
--
-- Decimals that are not negative are numbers: a price counts units of 1/P, a share quantity units of
-- 1/S (`share_unit` is S, a whole share), money units of 1/(S * P). A quotient that is rounded down
-- is then exact. `max(0, a - b)` is the subtraction of numbers, which stops at 0. What the HTTP
-- client answers is an argument. A lock makes each method one step, so it is not part of the state.
pub mod State
pub mod Reservations
pub mod Tests
