-- ===== src/SignalWeather/Timers.antt =====
-- `WeatherOrderBookMonitor` of weather_engine.py: its state and the timers of `_confirm`.
--
-- A timer task is in the list of tasks until it has ended. Its cancel is asked for at once and takes
-- effect in a later step, which runs its `finally` if the task had started.
use poly_strategy.Prelude.{
  ℕ, suc, Bool, true, false, ◌==◌, if◌then◌else◌, Option, none, some, List, [], ◌∷◌, ◌++◌, or_else,
}
use poly_strategy.OrderBook.Book.{LocalOrderBook, empty_book}
use poly_strategy.SignalWeather.Market.{Outcome, Snapshot, is_high}

pub data Mode : Type 0 where
  full sweep_only : Mode

pub data EventType : Type 0 where
  sweep no_longer_possible market_resolved : EventType

pub data Reason : Type 0 where
  ask_levels_cleared : (threshold : ℕ) → Reason
  high_certainty_maintained : Reason

pub record WeatherEvent : Type 0 where
  pub event_type : EventType
  pub outcome : Outcome
  pub previous_orderbook : Option Snapshot
  pub current_orderbook : Snapshot
  pub reason : Reason

-- What the monitor keeps of an asset in its dictionaries. No entry of the drift cooldown is 0.
pub record AssetState : Type 0 where
  pub book : LocalOrderBook
  pub last : Option Snapshot
  pub tick : Option ℕ
  pub confirmation : Option ℕ
  pub drift_cooldown : ℕ

pub data TaskStatus : Type 0 where
  created sleeping cancelling aborted : TaskStatus

-- A task of `_confirm`.
pub record Task : Type 0 where
  pub id : ℕ
  pub outcome : Outcome
  pub before : Option Snapshot
  pub status : TaskStatus

pub record Monitor : Type 0 where
  pub yes_id : ℕ
  pub no_id : ℕ
  pub mode : Mode
  pub running : Bool
  pub reports_drift : Bool
  pub publishes_books : Bool
  pub yes_state : AssetState
  pub no_state : AssetState
  pub tasks : List Task
  pub next_task : ℕ

-- What a step makes others do.
pub data Effect : Type 0 where
  published : WeatherEvent → Effect
  drift : Outcome → Effect
  book_update : Effect

abbrev pub Stepped : Type 0
Stepped = Monitor × List Effect

abbrev pub and_then : Stepped → (Monitor → Stepped) → Stepped
and_then (m, effects) next = let (m', more) = next m in (m', effects ++ more)

unfoldable pub new_asset : AssetState
unfolding empty_book
new_asset = record {
  book = empty_book;
  last = none;
  tick = none;
  confirmation = none;
  drift_cooldown = 0;
}

-- `WeatherOrderBookMonitor(candidate, on_event, on_book_update, on_drift, mode)`
unfoldable pub new_monitor : (yes_id no_id : ℕ) → (publishes_books : Bool) → Mode → Monitor
unfolding new_asset
new_monitor yes_id no_id publishes_books mode = record {
  yes_id = yes_id;
  no_id = no_id;
  mode = mode;
  running = false;
  reports_drift = true;
  publishes_books = publishes_books;
  yes_state = new_asset;
  no_state = new_asset;
  tasks = [];
  next_task = 0;
}

abbrev pub state_of : Outcome → Monitor → AssetState
state_of Outcome.yes_asset m = m.yes_state
state_of Outcome.no_asset m = m.no_state

abbrev pub with_state : Outcome → AssetState → Monitor → Monitor
with_state Outcome.yes_asset s m = record m { yes_state = s }
with_state Outcome.no_asset s m = record m { no_state = s }

-- `asset_id in self._assets`
unfoldable pub outcome_of : (asset_id : ℕ) → Monitor → Option Outcome
outcome_of asset_id m =
    if asset_id == m.yes_id
    then some Outcome.yes_asset
    else if asset_id == m.no_id
    then some Outcome.no_asset
    else none

-- `_set_tick`; the value is none where `float` fails.
unfoldable pub set_tick : Option ℕ → AssetState → AssetState
set_tick tick s = record s { tick = or_else tick s.tick }

-- `task.cancel()`: a task that has not started is never run.
abbrev pub cancelled : TaskStatus → TaskStatus
cancelled TaskStatus.created = TaskStatus.aborted
cancelled TaskStatus.sleeping = TaskStatus.cancelling
cancelled TaskStatus.cancelling = TaskStatus.cancelling
cancelled TaskStatus.aborted = TaskStatus.aborted

unfoldable pub cancel_task : (id : ℕ) → List Task → List Task
cancel_task id [] = []
cancel_task id (t ∷ ts) =
    record t { status = if t.id == id then cancelled t.status else t.status } ∷ cancel_task id ts

-- The monitor starts a timer for the asset.
unfoldable pub start_confirmation : Outcome → (before : Option Snapshot) → Monitor → Monitor
start_confirmation o before m =
    with_state o (record (state_of o m) { confirmation = some m.next_task })
      (record m {
        tasks =
            m.tasks
            ++ record {
              id = m.next_task;
              outcome = o;
              before = before;
              status = TaskStatus.created;
            }
              ∷ [];
        next_task = suc m.next_task;
      })

unfoldable pub cancel_confirmation : Outcome → (id : ℕ) → Monitor → Monitor
unfolding cancel_task
cancel_confirmation o id m =
    with_state o (record (state_of o m) { confirmation = none })
      (record m { tasks = cancel_task id m.tasks })

-- The end of `_evaluate` in the mode "full".
unfoldable pub confirm_or_cancel :
    (high : Bool) → Option ℕ → Outcome → (before : Option Snapshot) → Monitor → Monitor
unfolding start_confirmation cancel_confirmation
confirm_or_cancel true none o before m = start_confirmation o before m
confirm_or_cancel true (some id) o before m = m
confirm_or_cancel false none o before m = m
confirm_or_cancel false (some id) o before m = cancel_confirmation o id m

unfoldable pub check_certainty : Outcome → (before : Option Snapshot) → Monitor → Monitor
unfolding confirm_or_cancel
check_certainty o before m =
    let s = state_of o m in confirm_or_cancel (is_high s.tick s.book) s.confirmation o before m
