-- ===== src/UserWs.antt =====
-- backend/src/framework/user_ws.py: the watches of `UserWS` and the fills that it reports.
--
-- Order, token and trade ids are numbers, since they are only compared; `none` is a field that is
-- missing or empty. Sizes and prices are Decimals of one unit. An integer is a Decimal that arrives
-- and may be negative, `none` one that does not parse. Time stamps and log lines are left out, and a
-- callback is a flag: the events handed to a registered callback are the list that a handler returns.
pub mod Watch
pub mod Fills
pub mod Session
pub mod Tracking
pub mod Replay
pub mod Accounting
pub mod Tests
