-- ===== src/OrderBook.antt =====
-- backend/src/framework/orderbook_ws.py: the local order books and the registry of their subscribers.
-- Prices and sizes are numbers of fixed units (the source's floats), asset and subscription ids are
-- numbers, and the id of a new subscription, which the source draws, is given.
pub mod Book
pub mod Levels
pub mod Registry
pub mod Consistency
mod Tests
