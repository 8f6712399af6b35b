-- ===== src/SignalWeather/Tasks.antt =====
-- `WeatherOrderBookMonitor` of weather_engine.py: the turns of its timer tasks, its start and its stop.
use poly_strategy.Prelude.{
  ℕ, Bool, true, false, ◌&&◌, not, ◌==◌, if◌then◌else◌, Option, none, some, List, [], ◌∷◌, is_some,
}
use poly_strategy.SignalWeather.Market.{Outcome, Snapshot, is_high}
use poly_strategy.SignalWeather.Timers.{
  EventType, Reason, TaskStatus, Task, Monitor, Effect, Stepped, state_of, with_state,
  start_confirmation,
}

-- `check_high_certainty` for one asset.
unfoldable pub check_asset : Outcome → Monitor → Monitor
unfolding start_confirmation
check_asset o m =
    let s = state_of o m in
    if is_high s.tick s.book && not (is_some s.confirmation)
    then start_confirmation o s.last m
    else m

unfoldable pub check_high_certainty : Monitor → Monitor
unfolding check_asset
check_high_certainty m = check_asset Outcome.no_asset (check_asset Outcome.yes_asset m)

unfoldable pub drop_task : (id : ℕ) → List Task → List Task
drop_task id [] = []
drop_task id (t ∷ ts) = let rest = drop_task id ts in if t.id == id then rest else t ∷ rest

-- The `finally` of `_confirm`: the entry of the asset goes, whichever task it is of.
unfoldable pub end_task : Outcome → (id : ℕ) → Monitor → Monitor
unfolding drop_task
end_task o id m =
    with_state o (record (state_of o m) { confirmation = none })
      (record m { tasks = drop_task id m.tasks })

abbrev pub confirmed_type : Outcome → EventType
confirmed_type Outcome.yes_asset = EventType.market_resolved
confirmed_type Outcome.no_asset = EventType.no_longer_possible

abbrev pub confirmed_effects : (high : Bool) → Task → (after : Option Snapshot) → List Effect
confirmed_effects true t (some after) =
    Effect.published (record {
      event_type = confirmed_type t.outcome;
      outcome = t.outcome;
      previous_orderbook = t.before;
      current_orderbook = after;
      reason = Reason.high_certainty_maintained;
    })
    ∷ []
confirmed_effects _ t after = []

-- `_confirm` after its sleep.
unfoldable pub wake : Task → Monitor → Stepped
unfolding end_task
wake t m =
    let s = state_of t.outcome m in
    (end_task t.outcome t.id m, confirmed_effects (is_high s.tick s.book) t s.last)

unfoldable pub find_task : (id : ℕ) → List Task → Option Task
find_task id [] = none
find_task id (t ∷ ts) = if t.id == id then some t else find_task id ts

abbrev pub begun : TaskStatus → TaskStatus
begun TaskStatus.created = TaskStatus.sleeping
begun TaskStatus.sleeping = TaskStatus.sleeping
begun TaskStatus.cancelling = TaskStatus.cancelling
begun TaskStatus.aborted = TaskStatus.aborted

unfoldable pub begin_task : (id : ℕ) → List Task → List Task
begin_task id [] = []
begin_task id (t ∷ ts) =
    record t { status = if t.id == id then begun t.status else t.status } ∷ begin_task id ts

-- A turn of the task: it starts, its sleep is over, or its cancel takes effect.
unfoldable pub turn_in : TaskStatus → Task → Monitor → Stepped
unfolding wake end_task begin_task drop_task
turn_in TaskStatus.created t m = (record m { tasks = begin_task t.id m.tasks }, [])
turn_in TaskStatus.sleeping t m = wake t m
turn_in TaskStatus.cancelling t m = (end_task t.outcome t.id m, [])
turn_in TaskStatus.aborted t m = (record m { tasks = drop_task t.id m.tasks }, [])

unfoldable pub turn_of : Option Task → Monitor → Stepped
unfolding turn_in
turn_of none m = (m, [])
turn_of (some t) m = turn_in t.status t m

unfoldable pub start_monitor : Monitor → Monitor
start_monitor m = record m { running = true }

abbrev pub drop_confirmed : Option ℕ → List Task → List Task
drop_confirmed none ts = ts
drop_confirmed (some id) ts = drop_task id ts

-- `stop`, which waits for the tasks that it cancels.
unfoldable pub stop_monitor : Monitor → Monitor
unfolding drop_task
stop_monitor m = record m {
  running = false;
  yes_state = record m.yes_state { confirmation = none };
  no_state = record m.no_state { confirmation = none };
  tasks = drop_confirmed m.no_state.confirmation (drop_confirmed m.yes_state.confirmation m.tasks);
}
