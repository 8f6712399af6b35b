-- ===== src/SignalWeather/Directions.antt =====
-- `WeatherEngine` of weather_engine.py: the monitors of one direction of a city.
--
-- What the socket is asked for is a list of calls; the calls do not fail. The objects of the monitors
-- are told apart by numbers.
use poly_strategy.Prelude.{
  ℕ, suc, Bool, true, false, Option, none, some, List, [], ◌∷◌, ◌++◌, get_elem?,
}
use poly_strategy.SignalWeather.Timers.{Mode, Monitor, new_monitor}
use poly_strategy.SignalWeather.Tasks.{start_monitor}
use poly_strategy.SignalWeather.Discovery.{Candidate, Fetch, Status, Expected, expected_direction}

-- A monitor that the engine holds.
pub record Watch : Type 0 where
  pub id : ℕ
  pub candidate : Candidate
  pub monitor : Monitor

-- `DirectionState`; the index is none for -1.
pub record DirectionState : Type 0 where
  pub candidates : List Candidate
  pub index : Option ℕ
  pub status : Status
  pub main_monitor : Option Watch
  pub next_monitor : Option Watch

-- The calls of `_register_monitor` and `_unregister_monitor`, and the broadcast of a promotion.
pub data SocketCall : Type 0 where
  register unregister : (id : ℕ) → SocketCall
  next_candidate : Candidate → SocketCall

-- A direction with the number of the next monitor.
pub record Direction : Type 0 where
  pub state : DirectionState
  pub next_id : ℕ

abbrev pub Moved : Type 0
Moved = Direction × List SocketCall

abbrev pub unregister_held : Option Watch → List SocketCall
unregister_held none = []
unregister_held (some w) = SocketCall.unregister w.id ∷ []

abbrev pub register_held : Option Watch → List SocketCall
register_held none = []
register_held (some w) = SocketCall.register w.id ∷ []

unfoldable pub new_watch : (id : ℕ) → (publishes_books : Bool) → Mode → Candidate → Watch
unfolding new_monitor start_monitor
new_watch id publishes_books mode c = record {
  id = id;
  candidate = c;
  monitor = start_monitor (new_monitor c.yes_id c.no_id publishes_books mode);
}

-- The monitor of the candidate after the main one.
unfoldable pub next_watch : (id : ℕ) → Option Candidate → Option Watch
unfolding new_watch
next_watch id none = none
next_watch id (some c) = some (new_watch id false Mode.sweep_only c)

abbrev pub idle : List Candidate → Status → (index : Option ℕ) → DirectionState
idle candidates status index = record {
  candidates = candidates;
  index = index;
  status = status;
  main_monitor = none;
  next_monitor = none;
}

abbrev pub index_after : Option ℕ → ℕ
index_after none = 0
index_after (some index) = suc index

-- The monitors that `_set_direction` creates.
unfoldable pub watch_from : List Candidate → (index : Option ℕ) → Candidate → (next_id : ℕ) → Moved
unfolding new_watch next_watch
watch_from candidates index c next_id =
    let main = new_watch next_id true Mode.full c in
    let next = next_watch (suc next_id) (get_elem? candidates (index_after index)) in
    (
      record {
        state = record {
          candidates = candidates;
          index = index;
          status = Status.monitoring;
          main_monitor = some main;
          next_monitor = next;
        };
        next_id = suc (suc next_id);
      },
      register_held (some main) ++ register_held next,
    )

abbrev pub without_monitors : List Candidate → Status → (index : Option ℕ) → (next_id : ℕ) → Moved
without_monitors candidates status index next_id =
    (record { state = idle candidates status index; next_id = next_id }, [])

-- The state that `_set_direction` puts in the place of the old one.
unfoldable pub fresh_direction :
    List Candidate → Status → (index : Option ℕ) → Option Candidate → (next_id : ℕ) → Moved
unfolding watch_from
fresh_direction candidates Status.monitoring index (some c) next_id =
    watch_from candidates index c next_id
fresh_direction candidates status index _ next_id = without_monitors candidates status index next_id

abbrev pub after_calls : List SocketCall → Moved → Moved
after_calls calls (d, more) = (d, calls ++ more)

-- `_set_direction`
unfoldable pub set_direction : Status → (index : Option ℕ) → Option Candidate → Direction → Moved
unfolding fresh_direction
set_direction status index candidate d =
    after_calls (unregister_held d.state.main_monitor ++ unregister_held d.state.next_monitor)
      (fresh_direction d.state.candidates status index candidate d.next_id)

abbrev pub advance_to : Option Expected → Direction → Option Moved
advance_to none d = none
advance_to (some e) d = some (set_direction e.status e.index e.candidate d)

-- `_advance`; none where a request fails.
unfoldable pub advance : Fetch → (start : ℕ) → Direction → Option Moved
advance fetch start d = advance_to (expected_direction fetch d.state.candidates start) d

abbrev pub advance_at : Option Candidate → (start : ℕ) → Direction → Moved
advance_at none start d = set_direction Status.exhausted none none d
advance_at (some c) start d = set_direction Status.monitoring (some start) (some c) d

-- `_advance_next`
unfoldable pub advance_next : (start : ℕ) → Direction → Moved
advance_next start d = advance_at (get_elem? d.state.candidates start) start d
