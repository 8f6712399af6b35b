-- ===== src/SignalWeather/Registration.antt =====
-- The monitors of a direction and those that the socket has been asked for (weather_engine.py).
use poly_strategy.Prelude.{
  ℕ, suc, ◌≡◌, ◌<◌, refl, sym, ◌∙◌, ap, true, false, ◌==◌, if◌then◌else◌, Option, none, some, List,
  [], ◌∷◌, ◌++◌, get_elem?, arith,
}
use poly_strategy.SignalWeather.Timers.{Mode}
use poly_strategy.SignalWeather.Discovery.{Candidate, Status}
use poly_strategy.SignalWeather.Directions.{
  Watch, DirectionState, Direction, Moved, new_watch, next_watch, unregister_held, register_held,
  SocketCall, index_after, watch_from, fresh_direction, set_direction, after_calls,
  without_monitors,
}

-- The socket's monitors after some calls: `subscribe` adds one and `unsubscribe` removes it.
abbrev pub without_id : ℕ → List ℕ → List ℕ
without_id id [] = []
without_id id (i ∷ is) = let rest = without_id id is in if i == id then rest else i ∷ rest

abbrev pub registered_after : List SocketCall → List ℕ → List ℕ
registered_after [] ids = ids
registered_after (SocketCall.register id ∷ calls) ids = registered_after calls (ids ++ id ∷ [])
registered_after (SocketCall.unregister id ∷ calls) ids = registered_after calls (without_id id ids)
registered_after (SocketCall.next_candidate c ∷ calls) ids = registered_after calls ids

abbrev pub id_of : Option Watch → List ℕ
id_of none = []
id_of (some w) = w.id ∷ []

-- The monitors that a direction holds.
abbrev pub held_ids : DirectionState → List ℕ
held_ids s = id_of s.main_monitor ++ id_of s.next_monitor

abbrev pub IsBelow : Option Watch → ℕ → Type 0
IsBelow none next_id = Unit
IsBelow (some w) next_id = w.id < next_id

abbrev pub AreApart : Option Watch → Option Watch → Type 0
AreApart (some v) (some w) = (v.id == w.id) ≡ false
AreApart _ _ = Unit

-- Numbers are given once.
pub record IsNumbered (d : Direction) : Type 0 where
  pub main_below : IsBelow d.state.main_monitor d.next_id
  pub next_below : IsBelow d.state.next_monitor d.next_id
  pub apart : AreApart d.state.main_monitor d.state.next_monitor

pub registered_after-append :
    (xs ys : List SocketCall) (ids : List ℕ)
    → registered_after (xs ++ ys) ids ≡ registered_after ys (registered_after xs ids)
registered_after-append [] ys ids = refl
registered_after-append (SocketCall.register id ∷ xs) ys ids =
    registered_after-append xs ys (ids ++ id ∷ [])
registered_after-append (SocketCall.unregister id ∷ xs) ys ids =
    registered_after-append xs ys (without_id id ids)
registered_after-append (SocketCall.next_candidate c ∷ xs) ys ids =
    registered_after-append xs ys ids

-- Both monitors go.
pub unregistered_all :
    (main next : Option Watch)
    → AreApart main next
    → registered_after (unregister_held main ++ unregister_held next) (id_of main ++ id_of next)
      ≡ []
unregistered_all none none h = refl
unregistered_all none (some w) h = ground arith
unregistered_all (some v) none h = ground arith
unregistered_all (some v) (some w) h = ground arith

-- The main monitor goes.
pub unregistered_main :
    (main next : Option Watch)
    → AreApart main next
    → registered_after (unregister_held main) (id_of main ++ id_of next) ≡ id_of next
unregistered_main none next h = refl
unregistered_main (some v) none h = ground arith
unregistered_main (some v) (some w) h = ground arith

append_nil : (ids : List ℕ) → ids ++ [] ≡ ids
append_nil [] = refl
append_nil (i ∷ ids) = ap (λ x. i ∷ x) (append_nil ids)

pub registered_held :
    (w : Option Watch) (ids : List ℕ) → registered_after (register_held w) ids ≡ ids ++ id_of w
registered_held none ids = sym (append_nil ids)
registered_held (some w) ids = refl

-- The calls of a step turn the monitors held before into those held after, and numbers stay apart.
pub record Accounts (ids : List ℕ) (r : Moved) : Type 0 where
  pub after : registered_after r.1 ids ≡ held_ids r.0.state
  pub numbered : IsNumbered r.0

pub after_calls-Accounts :
    (calls : List SocketCall) (ids ids' : List ℕ) (r : Moved)
    → registered_after calls ids ≡ ids'
    → Accounts ids' r
    → Accounts ids (after_calls calls r)
after_calls-Accounts calls ids ids' r e h = record {
  after = registered_after-append calls r.1 ids ∙ ap (registered_after r.1) e ∙ h.after;
  numbered = record {
    main_below = h.numbered.main_below;
    next_below = h.numbered.next_below;
    apart = h.numbered.apart;
  };
}

pub next_watch-IsBelow : (id : ℕ) (c : Option Candidate) → IsBelow (next_watch id c) (suc id)
unfolding next_watch new_watch
next_watch-IsBelow id none = tt
next_watch-IsBelow id (some c) = omega arith

pub next_watch-AreApart :
    (w : Watch) (id : ℕ) (c : Option Candidate) → w.id < id → AreApart (some w) (next_watch id c)
unfolding next_watch new_watch
next_watch-AreApart w id none lt = tt
next_watch-AreApart w id (some c) lt = ground (arith)

watch_from-Accounts :
    (cs : List Candidate) (index : Option ℕ) (c : Candidate) (next_id : ℕ)
    → Accounts [] (watch_from cs index c next_id)
unfolding watch_from new_watch
watch_from-Accounts cs index c next_id =
    let next = get_elem? cs (index_after index) in
    record {
      after = registered_held (next_watch (suc next_id) next) (next_id ∷ []);
      numbered = record {
        main_below = omega arith;
        next_below = next_watch-IsBelow (suc next_id) next;
        apart =
            next_watch-AreApart (new_watch next_id true Mode.full c) (suc next_id) next
              (omega arith);
      };
    }

without_monitors-Accounts :
    (cs : List Candidate) (status : Status) (index : Option ℕ) (next_id : ℕ)
    → Accounts [] (without_monitors cs status index next_id)
without_monitors-Accounts cs status index next_id = record {
  after = refl;
  numbered = record { main_below = tt; next_below = tt; apart = tt };
}

fresh_direction-Accounts :
    (cs : List Candidate) (status : Status) (index : Option ℕ) (c : Option Candidate) (next_id : ℕ)
    → Accounts [] (fresh_direction cs status index c next_id)
unfolding fresh_direction
fresh_direction-Accounts cs Status.monitoring index (some c) next_id =
    watch_from-Accounts cs index c next_id
fresh_direction-Accounts cs Status.monitoring index none next_id =
    without_monitors-Accounts cs Status.monitoring index next_id
fresh_direction-Accounts cs Status.discovering index none next_id =
    without_monitors-Accounts cs Status.discovering index next_id
fresh_direction-Accounts cs Status.discovering index (some c) next_id =
    without_monitors-Accounts cs Status.discovering index next_id
fresh_direction-Accounts cs Status.exhausted index none next_id =
    without_monitors-Accounts cs Status.exhausted index next_id
fresh_direction-Accounts cs Status.exhausted index (some c) next_id =
    without_monitors-Accounts cs Status.exhausted index next_id
fresh_direction-Accounts cs Status.resolved index none next_id =
    without_monitors-Accounts cs Status.resolved index next_id
fresh_direction-Accounts cs Status.resolved index (some c) next_id =
    without_monitors-Accounts cs Status.resolved index next_id

-- `_set_direction` where none of its monitors is registered any more.
unregistered_none :
    (main next : Option Watch)
    → registered_after (unregister_held main ++ unregister_held next) [] ≡ []
unregistered_none none none = refl
unregistered_none none (some w) = refl
unregistered_none (some v) none = refl
unregistered_none (some v) (some w) = refl

pub set_direction-Accounts :
    (status : Status) (index : Option ℕ) (c : Option Candidate) (d : Direction)
    → Accounts [] (set_direction status index c d)
unfolding set_direction
set_direction-Accounts status index c d =
    after_calls-Accounts _ [] [] (fresh_direction d.state.candidates status index c d.next_id)
      (unregistered_none d.state.main_monitor d.state.next_monitor)
      (fresh_direction-Accounts d.state.candidates status index c d.next_id)
