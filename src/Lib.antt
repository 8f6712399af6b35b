-- ===== src/Lib.antt =====
-- PolyStrategy, a trading system for prediction markets: the parts of its Python back end that decide
-- what is bought, sold and counted.
--
-- The parts and their files, with the sources under backend/src/:
--   Prelude          what the modules share: Boolean tests, lists and integers over the native
--                    numbers, dictionaries as association lists in insertion order, texts as lists
--                    of code points.
--   UserWs           framework/user_ws.py. Watch has the watched order and the matching of order and
--                    trade messages; Session has the messages (Session/Messages), the REST
--                    reconciliation and the reconnect over all watches. Fills, Tracking, Replay and
--                    Accounting have the proofs.
--   BalancePoller    framework/strategy_runtime/balance_poller.py: State has the wallet that the
--                    configurations share, Reservations what its reservations keep.
--   StopLoss         framework/strategy_runtime/stop_loss.py.
--   SignalDedup      framework/strategy_runtime/signal_dedup.py.
--   SignalClient     framework/strategy_runtime/signal_client.py: messages, adapter and deduplicator.
--   SellFailure      strategy_weather_sweep/internal/sell_failure.py: classification of SELL errors,
--                    the tracker of one exit, the circuit breaker of a strategy.
--   RiskMonitor      strategy_weather_sweep/internal/risk_monitor.py.
--   SweepTrade       strategy_weather_sweep/service.py, class SweepTrade: State and Ledger have the
--                    record and its primitives; Entry, NormalExit, SellCallbacks, RiskExit and
--                    ForceExit the methods; Run any interleaving of their sections. Keeps
--                    shows that every section keeps what the primitives keep; Books and Phases
--                    use it. ForcedEnd is about the forced exit, Late about the size of the BUY
--                    order, Retries about the settlement lag.
--   SweepStrategy    the same file, class SweepStrategy: the trades of one configuration, which make
--                    the steps of SweepTrade.
--   InstancePool     framework/instance_pool.py.
--   OrderBook        framework/orderbook_ws.py: Book is the local book, Registry the subscriptions and
--                    messages.
--   OrderExecutor    framework/strategy_runtime/order_executor.py: the refusals of an order, the
--                    reading of its answer (Orders), the cancel with a fill check (Cancels).
--   TickSizes        framework/strategy_runtime/tick_size_service.py and tick_verifier.py.
--   SlugScript       framework/slug_script.py: Syntax has the tree of a script, Validation the white
--                    list, Machine the evaluator's state and loops, Evaluation the interpreter, Program
--                    the compilation and the answer; Values has what the interpreter takes from Python.
--                    Meaning is a big-step semantics of the statements, without limits on steps and
--                    rounds; values of expressions are the evaluator's, values are never changed in
--                    place, and `x += e` takes 0 for an unset x. Ensures has the rules of which Bounds,
--                    Supported, Meaning/Sound and Endings make use.
--   SignalWeather    signal_weather_orderbook/internal/weather_engine.py, the source of the weather
--                    signals. Of the monitor of a market, Market has what it reads of its books, Timers
--                    its state and the timers of certainty, Tasks their turns, Monitor its messages.
--                    Sweeps is about the sweeps that it publishes; Confirmation, Timely, Evaluation,
--                    Snapshots, Messages, Stable, Finished, Watched, Lapse and Runs lead to what holds
--                    of the timers in every run. Discovery has the selection of candidates, Directions
--                    and Events the monitors of one direction of a city; Coordination, Planning and
--                    Handlers are about which it holds, Registration and Leaks about those of the socket.
--
-- How they interact: the monitors of SignalWeather publish signals. A signal passes SignalClient to
-- SweepStrategy, which opens a SweepTrade for a token that has none. The trade is told of fills by
-- UserWs, of falling prices by RiskMonitor, which listens to OrderBook, and reports failures of its exit
-- to the breaker of SellFailure, which can pause the strategy. Its orders and cancels go through
-- OrderExecutor, and the tick size of its SELL orders is a consensus of TickSizes. The executor's cash is
-- that of BalancePoller.
--
-- Conventions. Sizes, prices and times are native numbers in fixed units, where the source has
-- decimals or floats; a product or an order of them is exact, and a division is written with its
-- rounding. Order, token, trade and configuration identifiers are numbers, since the programs only
-- compare them. A coroutine is cut at its awaits into sections, each a function of the state, and the
-- state records where the coroutine stands; a step is one section, and a run is any list of steps, so
-- that a theorem on runs holds for every interleaving and every answer of the exchange. A wait may end
-- at any time. The handlers of the weather engine run whole, one direction at a time,
-- and its calls to the shared socket succeed, where the source awaits them without a lock and they may
-- raise. What the exchange, the clock, the database and the user answer are arguments. The
-- bounds are the source's own: three attempts for a request, the rounds and steps of a slug script.
-- Loops over lists are structural, the retry loop of the normal exit is a step for each round, and the
-- verification of a tick size goes over a list of attempts with the times at which they start and stops
-- at its deadline.
--
-- Not modelled: sockets, HTTP endpoints, database rows, logging and service discovery, the exchange's
-- client library, the user interface, the reading of the exchange's events into candidates, and
-- strategy_follow_weather_sweeper, the strategy that follows other wallets.
pub mod Prelude
pub mod UserWs
pub mod BalancePoller
pub mod StopLoss
pub mod SignalDedup
pub mod SignalClient
pub mod SellFailure
pub mod SweepTrade
pub mod InstancePool
pub mod SweepStrategy
pub mod OrderBook
pub mod RiskMonitor
pub mod OrderExecutor
pub mod TickSizes
pub mod SlugScript
pub mod SignalWeather
