-- ===== src/SignalWeather/Events.antt =====
-- `WeatherEngine` of weather_engine.py: what events and new plans do to a direction.
--
-- Assumed here: a handler of the engine runs to its end before the next one of the same direction starts,
-- and the calls to the shared socket succeed. The source awaits those calls without a lock, and they may
-- raise. A promotion is broadcast.
use poly_strategy.Prelude.{
  ℕ, suc, Bool, false, ◌==◌, ltb, if◌then◌else◌, Option, none, some, List, [], ◌∷◌, ◌++◌, get_elem?,
  length,
}
use poly_strategy.SignalWeather.Timers.{EventType, Monitor}
use poly_strategy.SignalWeather.Tasks.{start_monitor, stop_monitor, find_task, turn_of}
use poly_strategy.SignalWeather.Monitor.{Message, deliver}
use poly_strategy.SignalWeather.Runs.{promote}
use poly_strategy.SignalWeather.Discovery.{Candidate, Fetch, Status}
use poly_strategy.SignalWeather.Directions.{
  Watch, DirectionState, SocketCall, Direction, Moved, unregister_held, register_held, next_watch,
  idle, index_after, after_calls, advance, advance_next,
}

abbrev pub broadcast_of : Option Candidate → List SocketCall
broadcast_of none = []
broadcast_of (some c) = SocketCall.next_candidate c ∷ []

-- `_promote_next` where there is a next monitor.
unfoldable pub promote_watch : Watch → Direction → Moved
unfolding next_watch
promote_watch w d =
    let s = d.state in
    let new_index = index_after s.index in
    let next = next_watch d.next_id (get_elem? s.candidates (suc new_index)) in
    (
      record {
        state = record s {
          index = some new_index;
          main_monitor = some (record w { monitor = promote w.monitor });
          next_monitor = next;
        };
        next_id = suc d.next_id;
      },
      unregister_held s.main_monitor
          ++ register_held next
          ++ broadcast_of (get_elem? s.candidates new_index),
    )

-- `_promote_next` where there is none.
unfoldable pub promote_without_next : Direction → Moved
unfolding advance_next
promote_without_next d =
    let s = d.state in
    let new_index = index_after s.index in
    after_calls (unregister_held s.main_monitor) (
      if ltb new_index (length s.candidates) then advance_next new_index d else (
        record d {
          state = record s { index = none; status = Status.exhausted; main_monitor = none };
        },
        [],
      ))

unfoldable pub promote_next : Option Watch → Direction → Moved
unfolding promote_watch promote_without_next
promote_next none d = promote_without_next d
promote_next (some w) d = promote_watch w d

unfoldable pub resolve : Direction → Moved
resolve d =
    let s = d.state in
    (
      record d {
        state = record s { status = Status.resolved; main_monitor = none; next_monitor = none };
      },
      unregister_held s.main_monitor ++ unregister_held s.next_monitor,
    )

abbrev pub is_main_market : (market_slug : ℕ) → Option Watch → Bool
is_main_market market_slug none = false
is_main_market market_slug (some w) = w.candidate.market_slug == market_slug

unfoldable pub on_main_event : EventType → Direction → Moved
unfolding promote_next resolve
on_main_event EventType.sweep d = (d, [])
on_main_event EventType.no_longer_possible d = promote_next d.state.next_monitor d
on_main_event EventType.market_resolved d = resolve d

-- The end of `_handle_event` for the direction of the event.
unfoldable pub handle_event : EventType → (market_slug : ℕ) → Direction → Moved
unfolding on_main_event
handle_event event_type market_slug d =
    let handled = on_main_event event_type d in
    if is_main_market market_slug d.state.main_monitor then handled else (d, [])

abbrev pub map_watch : (Monitor → Monitor) → Option Watch → Option Watch
map_watch f none = none
map_watch f (some w) = some (record w { monitor = f w.monitor })

-- `stop` and a later `start`.
unfoldable pub restart : Monitor → Monitor
unfolding start_monitor stop_monitor
restart m = start_monitor (stop_monitor m)

-- The old monitors of a direction whose new plan fails.
unfoldable pub restore : DirectionState → (next_id : ℕ) → Moved
restore s next_id = (
  record {
    state = record s {
      main_monitor = map_watch restart s.main_monitor;
      next_monitor = map_watch restart s.next_monitor;
    };
    next_id = next_id;
  },
  register_held s.main_monitor ++ register_held s.next_monitor,
)

abbrev pub restore_unless : Option Moved → Direction → Moved
restore_unless none d = restore d.state d.next_id
restore_unless (some moved) d = moved

-- `_replace_city_plan` for a direction that has a state.
unfoldable pub replace_plan : Fetch → List Candidate → Direction → Moved
unfolding advance
replace_plan fetch plan d =
    let fresh : Direction = record {
      state = idle plan Status.discovering none;
      next_id = d.next_id;
    } in
    after_calls (unregister_held d.state.main_monitor ++ unregister_held d.state.next_monitor)
      (restore_unless (advance fetch 0 fresh) d)

-- What happens to a direction. A message or a turn of a task is for one of the two monitors.
pub data Input : Type 0 where
  event : EventType → (market_slug : ℕ) → Input
  new_plan : Fetch → List Candidate → Input
  main_message next_message : (now : ℕ) (no_first : Bool) → Message → Input
  main_turn next_turn : (id : ℕ) → Input

abbrev pub messaged : (now : ℕ) (no_first : Bool) → Message → Monitor → Monitor
messaged now no_first x m = (deliver now no_first x m).0

abbrev pub turned : (id : ℕ) → Monitor → Monitor
turned id m = (turn_of (find_task id m.tasks) m).0

abbrev pub on_main : (Monitor → Monitor) → Direction → Moved
on_main f d =
    (record d { state = record d.state { main_monitor = map_watch f d.state.main_monitor } }, [])

abbrev pub on_next : (Monitor → Monitor) → Direction → Moved
on_next f d =
    (record d { state = record d.state { next_monitor = map_watch f d.state.next_monitor } }, [])

unfoldable pub direct : Input → Direction → Moved
unfolding handle_event replace_plan
direct (Input.event event_type market_slug) d = handle_event event_type market_slug d
direct (Input.new_plan fetch plan) d = replace_plan fetch plan d
direct (Input.main_message now no_first x) d = on_main (messaged now no_first x) d
direct (Input.next_message now no_first x) d = on_next (messaged now no_first x) d
direct (Input.main_turn id) d = on_main (turned id) d
direct (Input.next_turn id) d = on_next (turned id) d

unfoldable pub direct_all : List Input → Direction → Moved
unfolding direct
direct_all [] d = (d, [])
direct_all (i ∷ is) d = let (d', calls) = direct i d in after_calls calls (direct_all is d')
