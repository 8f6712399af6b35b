-- ===== src/SweepTrade.antt =====
-- backend/src/strategy_weather_sweep/service.py: `SweepTrade`, one trade from its signal to its close.
--
-- The methods are coroutines on one event loop. Each is cut at its awaits on the exchange (orders,
-- cancels, tick sizes) and on timers, and a trade records where its normal exit, risk exit, force exit
-- and entry timeout stand; between two such steps any other step may run. Awaits that only pass
-- through this process (`risk.stop`, `ensure_user_ws`, the BBO observations) are not cut. Share
-- quantities and prices are numbers of fixed units; `one` is the price 1, and the position is an
-- integer. The event log is kept latest first, with the fills and the close in full and the other
-- steps by name. The logger is there; the database summary, time stamps and BBO details are left out.
pub mod State
pub mod Ledger
pub mod Entry
pub mod NormalExit
pub mod SellCallbacks
pub mod RiskExit
pub mod ForceExit
pub mod Run
pub mod Keeps
pub mod Books
pub mod Phases
pub mod ForcedEnd
pub mod Late
pub mod Retries
mod Tests
