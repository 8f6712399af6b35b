-- ===== src/SignalWeather.antt =====
-- backend/src/signal_weather_orderbook/internal/weather_engine.py: the source of the weather signals.
--
-- Prices and tick sizes are numbers in units of 0.0001, times are seconds, and the doubled mid price
-- stands for the mid price. The two assets of a market are told apart by their outcome; their
-- identifiers are taken to differ. `LocalOrderBook` of internal/orderbook.py has the same methods as
-- that of orderbook_ws.py, and OrderBook/Book models both.
pub mod Market
pub mod Timers
pub mod Tasks
pub mod Confirmation
pub mod Monitor
pub mod Sweeps
pub mod Timely
pub mod Evaluation
pub mod Snapshots
pub mod Messages
pub mod Stable
pub mod Finished
pub mod Watched
pub mod Lapse
pub mod Runs
pub mod Discovery
pub mod Directions
pub mod Events
pub mod Coordination
pub mod Planning
pub mod Handlers
pub mod Registration
pub mod Leaks
mod DirectionTests
mod Tests
