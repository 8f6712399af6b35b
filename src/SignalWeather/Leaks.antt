-- ===== src/SignalWeather/Leaks.antt =====
-- The monitors of a direction that the socket knows, where handlers run whole (weather_engine.py).
use poly_strategy.Prelude.{
  ℕ, suc, ◌≡◌, refl, sym, ◌∙◌, ap, subst, ltb, Option, none, some, List, [], ◌∷◌, ◌++◌, get_elem?,
  length, either_way, arith,
}
use poly_strategy.SignalWeather.Timers.{EventType, Monitor}
use poly_strategy.SignalWeather.Discovery.{Candidate, Fetch, Status, Expected, expected_direction}
use poly_strategy.SignalWeather.Directions.{
  Watch, Direction, next_watch, unregister_held, register_held, idle, index_after, advance,
  advance_to, advance_next, advance_at,
}
use poly_strategy.SignalWeather.Events.{
  broadcast_of, on_main, on_next, restore_unless, promote_watch, promote_without_next, promote_next,
  resolve, on_main_event, is_main_market, handle_event, restart, restore, replace_plan, map_watch,
  Input, messaged, turned, direct, direct_all,
}
use poly_strategy.SignalWeather.Registration.{
  registered_after, held_ids, id_of, IsBelow, AreApart, IsNumbered, Accounts,
  registered_after-append, unregistered_all, unregistered_main, registered_held,
  after_calls-Accounts, next_watch-IsBelow, next_watch-AreApart, set_direction-Accounts,
}

advance_at-Accounts :
    (c : Option Candidate) (start : ℕ) (d : Direction) → Accounts [] (advance_at c start d)
advance_at-Accounts none start d = set_direction-Accounts Status.exhausted none none d
advance_at-Accounts (some c) start d =
    set_direction-Accounts Status.monitoring (some start) (some c) d

broadcast_keeps :
    (c : Option Candidate) (ids : List ℕ) → registered_after (broadcast_of c) ids ≡ ids
broadcast_keeps none ids = refl
broadcast_keeps (some c) ids = refl

below_apart :
    (main : Option Watch) (w : Watch)
    → AreApart main (some w)
    → registered_after (unregister_held main) (id_of main ++ w.id ∷ []) ≡ w.id ∷ []
below_apart main w apart = unregistered_main main (some w) apart

promote_watch-Accounts :
    (w : Watch) (d : Direction)
    → d.state.next_monitor ≡ some w
    → IsNumbered d
    → Accounts (held_ids d.state) (promote_watch w d)
unfolding promote_watch
promote_watch-Accounts w d e h =
    let s = d.state in
    let next = next_watch d.next_id (get_elem? s.candidates (suc (index_after s.index))) in
    let told = broadcast_of (get_elem? s.candidates (index_after s.index)) in
    let below = subst (λ n. IsBelow n d.next_id) e h.next_below in
    record {
      after =
          registered_after-append (unregister_held s.main_monitor ++ register_held next) told
            (held_ids s)
          ∙ broadcast_keeps (get_elem? s.candidates (index_after s.index)) _
          ∙ registered_after-append (unregister_held s.main_monitor) (register_held next)
              (held_ids s)
          ∙ ap (registered_after (register_held next))
              (unregistered_main s.main_monitor s.next_monitor h.apart ∙ ap id_of e)
          ∙ registered_held next (w.id ∷ []);
      numbered = record {
        main_below = omega (arith, below);
        next_below =
            next_watch-IsBelow d.next_id (get_elem? s.candidates (suc (index_after s.index)));
        apart =
            next_watch-AreApart w d.next_id (get_elem? s.candidates (suc (index_after s.index)))
              below;
      };
    }

promote_without_next-Accounts :
    (d : Direction)
    → d.state.next_monitor ≡ none
    → IsNumbered d
    → Accounts (held_ids d.state) (promote_without_next d)
unfolding promote_without_next advance_next
promote_without_next-Accounts d e h =
    after_calls-Accounts (unregister_held d.state.main_monitor) (held_ids d.state) [] _
      (unregistered_main d.state.main_monitor d.state.next_monitor h.apart ∙ ap id_of e)
      (either_way (Accounts []) (ltb (index_after d.state.index) (length d.state.candidates)) _ _
        (advance_at-Accounts (get_elem? d.state.candidates (index_after d.state.index))
          (index_after d.state.index) d)
        (record {
          after = sym (ap id_of e);
          numbered = record { main_below = tt; next_below = h.next_below; apart = tt };
        }))

promote_next-Accounts :
    (next : Option Watch) (d : Direction)
    → d.state.next_monitor ≡ next
    → IsNumbered d
    → Accounts (held_ids d.state) (promote_next next d)
unfolding promote_next
promote_next-Accounts none d e h = promote_without_next-Accounts d e h
promote_next-Accounts (some w) d e h = promote_watch-Accounts w d e h

resolve-Accounts : (d : Direction) → IsNumbered d → Accounts (held_ids d.state) (resolve d)
unfolding resolve
resolve-Accounts d h = record {
  after = unregistered_all d.state.main_monitor d.state.next_monitor h.apart;
  numbered = record { main_below = tt; next_below = tt; apart = tt };
}

on_main_event-Accounts :
    (event_type : EventType) (d : Direction)
    → IsNumbered d
    → Accounts (held_ids d.state) (on_main_event event_type d)
unfolding on_main_event
on_main_event-Accounts EventType.sweep d h = record { after = refl; numbered = h }
on_main_event-Accounts EventType.no_longer_possible d h =
    promote_next-Accounts d.state.next_monitor d refl h
on_main_event-Accounts EventType.market_resolved d h = resolve-Accounts d h

map_watch-id_of : (f : Monitor → Monitor) (w : Option Watch) → id_of (map_watch f w) ≡ id_of w
map_watch-id_of f none = refl
map_watch-id_of f (some w) = refl

map_watch-IsBelow :
    (f : Monitor → Monitor) (w : Option Watch) (next_id : ℕ)
    → IsBelow w next_id
    → IsBelow (map_watch f w) next_id
map_watch-IsBelow f none next_id h = h
map_watch-IsBelow f (some w) next_id h = h

map_main-AreApart :
    (f : Monitor → Monitor) (main next : Option Watch)
    → AreApart main next
    → AreApart (map_watch f main) next
map_main-AreApart f none next h = tt
map_main-AreApart f (some v) none h = tt
map_main-AreApart f (some v) (some w) h = h

map_next-AreApart :
    (f : Monitor → Monitor) (main next : Option Watch)
    → AreApart main next
    → AreApart main (map_watch f next)
map_next-AreApart f none next h = tt
map_next-AreApart f (some v) none h = tt
map_next-AreApart f (some v) (some w) h = h

on_main-Accounts :
    (f : Monitor → Monitor) (d : Direction)
    → IsNumbered d
    → Accounts (held_ids d.state) (on_main f d)
on_main-Accounts f d h = record {
  after = ap (λ x. x ++ id_of d.state.next_monitor) (sym (map_watch-id_of f d.state.main_monitor));
  numbered = record {
    main_below = map_watch-IsBelow f d.state.main_monitor d.next_id h.main_below;
    next_below = h.next_below;
    apart = map_main-AreApart f d.state.main_monitor d.state.next_monitor h.apart;
  };
}

on_next-Accounts :
    (f : Monitor → Monitor) (d : Direction)
    → IsNumbered d
    → Accounts (held_ids d.state) (on_next f d)
on_next-Accounts f d h = record {
  after = ap (λ x. id_of d.state.main_monitor ++ x) (sym (map_watch-id_of f d.state.next_monitor));
  numbered = record {
    main_below = h.main_below;
    next_below = map_watch-IsBelow f d.state.next_monitor d.next_id h.next_below;
    apart = map_next-AreApart f d.state.main_monitor d.state.next_monitor h.apart;
  };
}

map_watches-id_of :
    (f : Monitor → Monitor) (main next : Option Watch)
    → (id_of main ++ id_of next) ≡ (id_of (map_watch f main) ++ id_of (map_watch f next))
map_watches-id_of f main next = rw (map_watch-id_of f main, map_watch-id_of f next) refl

restore-Accounts : (d : Direction) → IsNumbered d → Accounts [] (restore d.state d.next_id)
unfolding restore
restore-Accounts d h =
    let main = d.state.main_monitor in
    let next = d.state.next_monitor in
    let main_restarted : Direction = record d {
      state = record d.state { main_monitor = map_watch restart main };
    } in
    let numbered =
      (on_next-Accounts restart main_restarted (on_main-Accounts restart d h).numbered).numbered in
    record {
      after =
          registered_after-append (register_held main) (register_held next) []
          ∙ ap (registered_after (register_held next)) (registered_held main [])
          ∙ registered_held next (id_of main)
          ∙ map_watches-id_of restart main next;
      numbered = record {
        main_below = numbered.main_below;
        next_below = numbered.next_below;
        apart = numbered.apart;
      };
    }

advance_to-Accounts :
    (e : Option Expected) (plan d : Direction)
    → IsNumbered d
    → Accounts [] (restore_unless (advance_to e plan) d)
advance_to-Accounts none plan d h = restore-Accounts d h
advance_to-Accounts (some e) plan d h = set_direction-Accounts e.status e.index e.candidate plan

replace_plan-Accounts :
    (fetch : Fetch) (plan : List Candidate) (d : Direction)
    → IsNumbered d
    → Accounts (held_ids d.state) (replace_plan fetch plan d)
unfolding replace_plan advance
replace_plan-Accounts fetch plan d h =
    after_calls-Accounts _ (held_ids d.state) [] _
      (unregistered_all d.state.main_monitor d.state.next_monitor h.apart)
      (advance_to-Accounts (expected_direction fetch plan 0)
        (record { state = idle plan Status.discovering none; next_id = d.next_id }) d h)

direct-Accounts :
    (i : Input) (d : Direction) → IsNumbered d → Accounts (held_ids d.state) (direct i d)
unfolding direct handle_event
direct-Accounts (Input.event event_type market_slug) d h =
    either_way (Accounts (held_ids d.state)) (is_main_market market_slug d.state.main_monitor) _ _
      (on_main_event-Accounts event_type d h) (record { after = refl; numbered = h })
direct-Accounts (Input.new_plan fetch plan) d h = replace_plan-Accounts fetch plan d h
direct-Accounts (Input.main_message now no_first x) d h =
    on_main-Accounts (messaged now no_first x) d h
direct-Accounts (Input.next_message now no_first x) d h =
    on_next-Accounts (messaged now no_first x) d h
direct-Accounts (Input.main_turn id) d h = on_main-Accounts (turned id) d h
direct-Accounts (Input.next_turn id) d h = on_next-Accounts (turned id) d h

direct_all-Accounts :
    (is : List Input) (d : Direction) → IsNumbered d → Accounts (held_ids d.state) (direct_all is d)
unfolding direct_all
direct_all-Accounts [] d h = record { after = refl; numbered = h }
direct_all-Accounts (i ∷ is) d h =
    let step = direct-Accounts i d h in
    after_calls-Accounts (direct i d).1 (held_ids d.state) (held_ids (direct i d).0.state)
      (direct_all is (direct i d).0) step.after
      (direct_all-Accounts is (direct i d).0 step.numbered)

-- While the handlers of a direction run one after another, each to its end, and the socket accepts every
-- monitor: whatever events, plans, messages and turns come to a direction whose monitors have different
-- numbers below the next one, the calls to the socket, taken in order from its monitors before, leave
-- registered just the monitors that the direction holds in the end, the main one first. Handlers that
-- overlap at their awaits, or a register that raises, are not covered.
pub registered_are_held :
    (is : List Input) (d : Direction)
    → IsNumbered d
    → registered_after (direct_all is d).1 (held_ids d.state) ≡ held_ids (direct_all is d).0.state
registered_are_held is d h = (direct_all-Accounts is d h).after
