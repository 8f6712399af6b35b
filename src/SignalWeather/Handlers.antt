-- ===== src/SignalWeather/Handlers.antt =====
-- What the handlers of the engine do with the monitors of a direction (weather_engine.py).
use poly_strategy.Prelude.{
  ℕ, suc, zero, ◌≡◌, refl, sym, ap, subst, false, ltb, if◌then◌else◌, Option, none, some, List, [],
  ◌∷◌, get_elem?, length, either_way, arith,
}
use poly_strategy.SignalWeather.Timers.{Mode, EventType, Monitor}
use poly_strategy.SignalWeather.Tasks.{start_monitor, stop_monitor, find_task}
use poly_strategy.SignalWeather.Discovery.{Candidate, Fetch, Status, Expected, expected_direction}
use poly_strategy.SignalWeather.Directions.{
  Watch, DirectionState, Direction, Moved, next_watch, idle, index_after, set_direction, advance,
  advance_to, advance_next,
}
use poly_strategy.SignalWeather.Events.{
  restore_unless, promote_watch, promote_without_next, promote_next, resolve, on_main_event,
  is_main_market, handle_event, restart, restore, replace_plan, map_watch, Input, messaged, turned,
  direct, direct_all,
}
use poly_strategy.SignalWeather.Coordination.{
  IsNext, IsMonitoring, IsIdle, FitsStatus, IsCoordinated, KeepsMode, promote-KeepsMode,
  messaged-KeepsMode, turn_of-KeepsMode, on_main-FitsStatus, on_next-FitsStatus,
}
use poly_strategy.SignalWeather.Planning.{
  IsPlanned, IsExpected, next_watch-IsNext, fresh_direction-IsCoordinated,
  expected_direction-IsExpected,
}

planned-IsCoordinated :
    (d : Direction) (e : Expected)
    → IsPlanned d.state.candidates e.status e.index e.candidate
    → IsCoordinated (set_direction e.status e.index e.candidate d).0.state
unfolding set_direction
planned-IsCoordinated d e h =
    fresh_direction-IsCoordinated d.state.candidates e.status e.index e.candidate d.next_id h

-- The next monitor becomes the main one, of the candidate after it.
promoted-IsMonitoring :
    (w : Watch) (d : Direction) (h : IsMonitoring d.state) (c : Option Candidate)
    → get_elem? d.state.candidates (suc h.index) ≡ c
    → IsNext (some w) c
    → IsMonitoring (promote_watch w d).0.state
unfolding promote_watch
promoted-IsMonitoring w d h none e watching = absurd watching
promoted-IsMonitoring w d h (some c) e watching =
    let k =
      promote-KeepsMode Mode.sweep_only w.monitor
        (record { moded = watching.moded; running = watching.running }) in
    record {
      index = suc h.index;
      candidate = c;
      at = ap (λ i. some (index_after i)) h.at;
      listed = e;
      main = record { candidate = watching.candidate; moded = k.moded; running = k.running };
      next =
          subst
            (λ i.
              IsNext (next_watch d.next_id (get_elem? d.state.candidates (suc (index_after i))))
                (get_elem? d.state.candidates (suc (suc h.index))))
            (sym h.at)
            (next_watch-IsNext d.next_id (get_elem? d.state.candidates (suc (suc h.index))));
    }

promote_watch-IsCoordinated :
    (w : Watch) (d : Direction)
    → d.state.status ≡ Status.monitoring
    → d.state.next_monitor ≡ some w
    → IsMonitoring d.state
    → IsCoordinated (promote_watch w d).0.state
unfolding promote_watch
promote_watch-IsCoordinated w d status e h =
    subst (λ x. FitsStatus x (promote_watch w d).0.state) (sym status)
      (promoted-IsMonitoring w d h (get_elem? d.state.candidates (suc h.index)) refl
        (subst (λ n. IsNext n (get_elem? d.state.candidates (suc h.index))) e h.next))

get_elem?-length : (i : ℕ) (cs : List Candidate) → get_elem? cs i ≡ none → ltb i (length cs) ≡ false
get_elem?-length i [] e = ground arith
get_elem?-length zero (c ∷ cs) e = ground (arith, e)
get_elem?-length (suc i) (c ∷ cs) e = ground (arith, get_elem?-length i cs e)

no_candidate : (c : Option Candidate) → IsNext none c → c ≡ none
no_candidate none h = refl
no_candidate (some c) h = absurd h

at_end :
    (d : Direction)
    → d.state.next_monitor ≡ none
    → IsMonitoring d.state
    → ltb (index_after d.state.index) (length d.state.candidates) ≡ false
at_end d e h =
    subst (λ i. ltb (index_after i) (length d.state.candidates) ≡ false) (sym h.at)
      (get_elem?-length (suc h.index) d.state.candidates (
        no_candidate (get_elem? d.state.candidates (suc h.index))
          (subst (λ n. IsNext n (get_elem? d.state.candidates (suc h.index))) e h.next)))

without_next-IsCoordinated :
    (d : Direction)
    → d.state.next_monitor ≡ none
    → IsMonitoring d.state
    → IsCoordinated (promote_without_next d).0.state
unfolding promote_without_next
without_next-IsCoordinated d e h =
    subst
      (λ b.
        IsCoordinated
          (if b then advance_next (index_after d.state.index) d else (
            record d {
              state = record d.state {
                index = none;
                status = Status.exhausted;
                main_monitor = none;
              };
            },
            [],
          )).0.state)
      (sym (at_end d e h)) (record { no_main = refl; no_next = e })

resolve-IsCoordinated : (d : Direction) → IsCoordinated (resolve d).0.state
unfolding resolve
resolve-IsCoordinated d = record { no_main = refl; no_next = refl }

promote_next-IsCoordinated :
    (next : Option Watch) (d : Direction)
    → d.state.next_monitor ≡ next
    → d.state.status ≡ Status.monitoring
    → IsMonitoring d.state
    → IsCoordinated (promote_next next d).0.state
unfolding promote_next
promote_next-IsCoordinated none d e status h = without_next-IsCoordinated d e h
promote_next-IsCoordinated (some w) d e status h = promote_watch-IsCoordinated w d status e h

on_main_event-IsCoordinated :
    (event_type : EventType) (d : Direction)
    → d.state.status ≡ Status.monitoring
    → IsMonitoring d.state
    → IsCoordinated (on_main_event event_type d).0.state
unfolding on_main_event
on_main_event-IsCoordinated EventType.sweep d status h =
    subst (λ x. FitsStatus x d.state) (sym status) h
on_main_event-IsCoordinated EventType.no_longer_possible d status h =
    promote_next-IsCoordinated d.state.next_monitor d refl status h
on_main_event-IsCoordinated EventType.market_resolved d status h = resolve-IsCoordinated d

-- A direction without a main monitor handles no event.
handle_idle :
    (event_type : EventType) (market_slug : ℕ) (d : Direction)
    → IsIdle d.state
    → (handle_event event_type market_slug d).0 ≡ d
unfolding handle_event
handle_idle event_type market_slug d h =
    ap (λ main. (if is_main_market market_slug main then on_main_event event_type d else (d, [])).0)
      h.no_main

handle_by_status :
    (status : Status) (event_type : EventType) (market_slug : ℕ) (d : Direction)
    → d.state.status ≡ status
    → FitsStatus status d.state
    → IsCoordinated (handle_event event_type market_slug d).0.state
unfolding handle_event
handle_by_status Status.monitoring event_type market_slug d status h =
    either_way (λ (r : Moved). IsCoordinated r.0.state)
      (is_main_market market_slug d.state.main_monitor) _ _
      (on_main_event-IsCoordinated event_type d status h)
      (subst (λ x. FitsStatus x d.state) (sym status) h)
handle_by_status Status.discovering event_type market_slug d status h =
    subst (λ x. IsCoordinated x.state) (sym (handle_idle event_type market_slug d h))
      (subst (λ x. FitsStatus x d.state) (sym status) h)
handle_by_status Status.exhausted event_type market_slug d status h =
    subst (λ x. IsCoordinated x.state) (sym (handle_idle event_type market_slug d h))
      (subst (λ x. FitsStatus x d.state) (sym status) h)
handle_by_status Status.resolved event_type market_slug d status h =
    subst (λ x. IsCoordinated x.state) (sym (handle_idle event_type market_slug d h))
      (subst (λ x. FitsStatus x d.state) (sym status) h)

restart-KeepsMode : (mode : Mode) (m : Monitor) → KeepsMode mode m → KeepsMode mode (restart m)
unfolding restart start_monitor stop_monitor
restart-KeepsMode mode m h = record { moded = h.moded; running = refl }

restore-IsCoordinated :
    (s : DirectionState) (next_id : ℕ) → IsCoordinated s → IsCoordinated (restore s next_id).0.state
unfolding restore
restore-IsCoordinated s next_id h =
    on_next-FitsStatus restart restart-KeepsMode s.status
      (record s { main_monitor = map_watch restart s.main_monitor })
      (on_main-FitsStatus restart restart-KeepsMode s.status s h)

replaced-IsCoordinated :
    (e : Option Expected) (plan : List Candidate) (d : Direction)
    → IsExpected plan e
    → IsCoordinated d.state
    → IsCoordinated
        (restore_unless
          (advance_to e (record { state = idle plan Status.discovering none; next_id = d.next_id }))
          d).0.state
replaced-IsCoordinated none plan d expected h = restore-IsCoordinated d.state d.next_id h
replaced-IsCoordinated (some e) plan d expected h =
    planned-IsCoordinated
      (record { state = idle plan Status.discovering none; next_id = d.next_id }) e expected

replace_plan-IsCoordinated :
    (fetch : Fetch) (plan : List Candidate) (d : Direction)
    → IsCoordinated d.state
    → IsCoordinated (replace_plan fetch plan d).0.state
unfolding replace_plan advance
replace_plan-IsCoordinated fetch plan d h =
    replaced-IsCoordinated (expected_direction fetch plan 0) plan d
      (expected_direction-IsExpected fetch plan 0) h

turned-KeepsMode :
    (id : ℕ) (mode : Mode) (m : Monitor) → KeepsMode mode m → KeepsMode mode (turned id m)
turned-KeepsMode id mode m h = turn_of-KeepsMode mode (find_task id m.tasks) m h

direct-IsCoordinated :
    (i : Input) (d : Direction) → IsCoordinated d.state → IsCoordinated (direct i d).0.state
unfolding direct
direct-IsCoordinated (Input.event event_type market_slug) d h =
    handle_by_status d.state.status event_type market_slug d refl h
direct-IsCoordinated (Input.new_plan fetch plan) d h = replace_plan-IsCoordinated fetch plan d h
direct-IsCoordinated (Input.main_message now no_first x) d h =
    on_main-FitsStatus (messaged now no_first x) (λ mode. messaged-KeepsMode mode now no_first x)
      d.state.status d.state h
direct-IsCoordinated (Input.next_message now no_first x) d h =
    on_next-FitsStatus (messaged now no_first x) (λ mode. messaged-KeepsMode mode now no_first x)
      d.state.status d.state h
direct-IsCoordinated (Input.main_turn id) d h =
    on_main-FitsStatus (turned id) (turned-KeepsMode id) d.state.status d.state h
direct-IsCoordinated (Input.next_turn id) d h =
    on_next-FitsStatus (turned id) (turned-KeepsMode id) d.state.status d.state h

-- While the handlers of a direction run one after another, each to its end, and the socket accepts every
-- monitor, the direction stays coordinated, whatever events, plans, messages and turns come: while it is
-- monitoring, its main monitor runs in the mode "full" for the candidate of its index, and its next
-- monitor runs in the mode "sweep_only" for the candidate after it if there is one; otherwise it holds no
-- monitor. Handlers that overlap at their awaits, or a register that raises, are not covered.
pub direct_all-IsCoordinated :
    (is : List Input) (d : Direction)
    → IsCoordinated d.state
    → IsCoordinated (direct_all is d).0.state
unfolding direct_all
direct_all-IsCoordinated [] d h = h
direct_all-IsCoordinated (i ∷ is) d h =
    direct_all-IsCoordinated is (direct i d).0 (direct-IsCoordinated i d h)
