-- ===== src/SignalWeather/Tests.antt =====
-- The monitor of weather_engine.py on a few messages: the market has the assets 1 (yes) and 2 (no).
use poly_strategy.Prelude.{insert, arith, ap, ℕ, ◌≡◌, refl, true, false, none, some, List, [], ◌∷◌}
use poly_strategy.OrderBook.Book.{empty_book, best_ask, best_ask_of, best_bid_of}
use poly_strategy.OrderBook.Levels.{apply_snapshot-IsBook}
use poly_strategy.SignalWeather.Market.{higher_probability, reference_of, Outcome, is_high}
use poly_strategy.SignalWeather.Timers.{
  Mode, Monitor, Task, TaskStatus, Effect, EventType, new_monitor,
}
use poly_strategy.SignalWeather.Tasks.{start_monitor, find_task, turn_of}
use poly_strategy.SignalWeather.Monitor.{SnapshotMessage, Message, deliver}
use poly_strategy.SignalWeather.Confirmation.{has_cancelling}
use poly_strategy.SignalWeather.Messages.{IsSettled}
use poly_strategy.SignalWeather.Timely.{IsTimely, new_monitor-IsTimely}
use poly_strategy.SignalWeather.Runs.{Runs, Runs-IsTimely, lapsed_timers_publish_nothing}
use poly_strategy.SignalWeather.Watched.{IsWatched, touches, deliver-IsWatched}
use poly_strategy.SignalWeather.Sweeps.{book_message_sweeps}

abbrev certain_book : Message
certain_book = Message.book (record { asset_id = 1; bids = []; asks = []; tick_size = some 10 })

abbrev lapsed_book : Message
lapsed_book = Message.book (record {
  asset_id = 1;
  bids = [];
  asks = record { price = 5000; size = 1 } ∷ [];
  tick_size = some 10;
})

abbrev fresh : Monitor
fresh = start_monitor (new_monitor 1 2 true Mode.full)

abbrev told : Message → Monitor → Monitor
told x m = (deliver 100 false x m).0

abbrev turned : ℕ → Monitor → Monitor
turned id m = (turn_of (find_task id m.tasks) m).0

-- The timer of the first certain book sleeps.
abbrev waiting : Monitor
waiting = turned 0 (told certain_book fresh)

-- It is cancelled, and a second timer is started before its cancel has taken effect.
abbrev overtaken : Monitor
overtaken = told certain_book (told lapsed_book waiting)

-- The end of the first timer takes the entry of the second, which a lapse then does not cancel.
abbrev orphaned : Monitor
orphaned = told certain_book (told lapsed_book (turned 1 (turned 0 overtaken)))

abbrev published_types : List Effect → List EventType
published_types [] = []
published_types (Effect.published e ∷ es) = e.event_type ∷ published_types es
published_types (_ ∷ es) = published_types es

orphan_confirms :
    published_types (turn_of (find_task 1 orphaned.tasks) orphaned).1
    ≡ EventType.market_resolved ∷ []
unfolding new_monitor turn_of find_task deliver start_monitor is_high insert
orphan_confirms = refl

abbrev settled_run : Runs fresh (told lapsed_book waiting)
settled_run =
    Runs.message 100 false lapsed_book waiting
      (Runs.turn 0 (told certain_book fresh) (Runs.message 100 false certain_book fresh Runs.here))

fresh-IsSettled : IsSettled fresh
unfolding new_monitor start_monitor has_cancelling
fresh-IsSettled o = refl

waiting-IsSettled : IsSettled waiting
unfolding new_monitor turn_of find_task deliver start_monitor is_high insert has_cancelling
waiting-IsSettled Outcome.yes_asset = refl
waiting-IsSettled Outcome.no_asset = refl

Runs-IsTimely_example : IsTimely (told lapsed_book waiting)
unfolding new_monitor turn_of find_task deliver start_monitor is_high insert has_cancelling
Runs-IsTimely_example =
    Runs-IsTimely fresh (told lapsed_book waiting) settled_run
      ((waiting-IsSettled, tt, (fresh-IsSettled, tt, tt))) (new_monitor-IsTimely 1 2 true Mode.full)

deliver-IsWatched_example : IsWatched Outcome.yes_asset (told lapsed_book waiting)
unfolding new_monitor turn_of find_task deliver start_monitor is_high insert touches
deliver-IsWatched_example =
    deliver-IsWatched 100 false lapsed_book Outcome.yes_asset waiting refl refl refl

abbrev first_timer : Task
first_timer = record {
  id = 0;
  outcome = Outcome.yes_asset;
  before = none;
  status = TaskStatus.cancelling;
}

lapsed_timers_publish_nothing_example : (turn_of (find_task 0 overtaken.tasks) overtaken).1 ≡ []
unfolding new_monitor turn_of find_task deliver start_monitor is_high insert touches has_cancelling
lapsed_timers_publish_nothing_example =
    lapsed_timers_publish_nothing 100 false lapsed_book waiting overtaken first_timer refl refl
      (Runs-IsTimely fresh waiting
        (Runs.turn 0 (told certain_book fresh)
          (Runs.message 100 false certain_book fresh Runs.here))
        (fresh-IsSettled, tt, tt) (new_monitor-IsTimely 1 2 true Mode.full))
      waiting-IsSettled tt refl refl
      (Runs.message 100 false certain_book (told lapsed_book waiting) Runs.here) refl (omega arith)

-- The asks of the favoured asset go away at the tick size 0.01.
abbrev swept_book : SnapshotMessage
swept_book = record {
  asset_id = 1;
  bids = record { price = 9700; size = 5 } ∷ [];
  asks = [];
  tick_size = some 100;
}

abbrev offered : Monitor
offered =
    told
      (Message.book (record {
        asset_id = 1;
        bids = record { price = 9700; size = 5 } ∷ [];
        asks = record { price = 9800; size = 5 } ∷ [];
        tick_size = some 100;
      }))
      (told
        (Message.book (record {
          asset_id = 2;
          bids = record { price = 100; size = 5 } ∷ [];
          asks = record { price = 300; size = 5 } ∷ [];
          tick_size = some 100;
        }))
        fresh)

book_message_sweeps_example :
    published_types (deliver 100 false (Message.book swept_book) offered).1 ≡ EventType.sweep ∷ []
unfolding new_monitor turn_of find_task deliver start_monitor is_high insert higher_probability
    reference_of best_ask best_ask_of best_bid_of
book_message_sweeps_example = ap published_types (
    book_message_sweeps 100 false swept_book Outcome.yes_asset offered refl refl (
      apply_snapshot-IsBook (record { price = 9700; size = 5 } ∷ [])
        (record { price = 9800; size = 5 } ∷ []) empty_book))
