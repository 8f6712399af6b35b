-- ===== src/SellFailure.antt =====
-- backend/src/strategy_weather_sweep/internal/sell_failure.py, and the same file in
-- strategy_follow_weather_sweeper: the classification of SELL errors, the tracker of one SELL phase,
-- and the circuit breaker over the events of a strategy.
--
-- An error signature is a constructor, and its number where the source keys a dictionary by it. Times
-- are numbers of one unit, read by the caller here.
pub mod Classify
pub mod Tracker
pub mod Breaker
mod Tests
