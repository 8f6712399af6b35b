-- ===== src/SignalWeather/Planning.antt =====
-- The candidates of a direction and the monitors it starts with (weather_engine.py).
use poly_strategy.Prelude.{
  ℕ, suc, zero, ◌+◌, ◌≡◌, refl, sym, ◌∙◌, ap, Bool, true, false, if◌then◌else◌, Option, none, some,
  List, [], ◌∷◌, get_elem?, either_way, arith,
}
use poly_strategy.SignalWeather.Timers.{Mode, new_monitor}
use poly_strategy.SignalWeather.Tasks.{start_monitor}
use poly_strategy.SignalWeather.Discovery.{
  Candidate, HttpBook, Fetch, Status, Expected, Selection, expected_direction, expected_of,
  select_candidate, select_from, select_by, status_by, drop_candidates, is_high_certainty,
}
use poly_strategy.SignalWeather.Directions.{new_watch, next_watch, watch_from, fresh_direction}
use poly_strategy.SignalWeather.Coordination.{IsWatching, IsNext, IsCoordinated}

new_watch-IsWatching :
    (id : ℕ) (publishes_books : Bool) (mode : Mode) (c : Candidate)
    → IsWatching mode c (new_watch id publishes_books mode c)
unfolding new_watch new_monitor start_monitor
new_watch-IsWatching id publishes_books mode c = record {
  candidate = refl;
  moded = refl;
  running = refl;
}

pub next_watch-IsNext : (id : ℕ) (c : Option Candidate) → IsNext (next_watch id c) c
unfolding next_watch
next_watch-IsNext id none = tt
next_watch-IsNext id (some c) = new_watch-IsWatching id false Mode.sweep_only c

-- A direction that is to be watched has its candidate at its index.
abbrev pub IsPlanned : List Candidate → Status → (index : Option ℕ) → Option Candidate → Type 0
IsPlanned cs Status.monitoring (some i) (some c) = get_elem? cs i ≡ some c
IsPlanned cs Status.monitoring _ _ = ⊥
IsPlanned cs _ _ _ = Unit

pub fresh_direction-IsCoordinated :
    (cs : List Candidate) (status : Status) (index : Option ℕ) (c : Option Candidate) (next_id : ℕ)
    → IsPlanned cs status index c
    → IsCoordinated (fresh_direction cs status index c next_id).0.state
unfolding fresh_direction watch_from
fresh_direction-IsCoordinated cs Status.monitoring (some i) (some c) next_id h = record {
  index = i;
  candidate = c;
  at = refl;
  listed = h;
  main = new_watch-IsWatching next_id true Mode.full c;
  next = next_watch-IsNext (suc next_id) (get_elem? cs (suc i));
}
fresh_direction-IsCoordinated cs Status.monitoring (some i) none next_id h = absurd h
fresh_direction-IsCoordinated cs Status.monitoring none none next_id h = absurd h
fresh_direction-IsCoordinated cs Status.monitoring none (some c) next_id h = absurd h
fresh_direction-IsCoordinated cs Status.discovering index none next_id h = record {
  no_main = refl;
  no_next = refl;
}
fresh_direction-IsCoordinated cs Status.discovering index (some c) next_id h = record {
  no_main = refl;
  no_next = refl;
}
fresh_direction-IsCoordinated cs Status.exhausted index none next_id h = record {
  no_main = refl;
  no_next = refl;
}
fresh_direction-IsCoordinated cs Status.exhausted index (some c) next_id h = record {
  no_main = refl;
  no_next = refl;
}
fresh_direction-IsCoordinated cs Status.resolved index none next_id h = record {
  no_main = refl;
  no_next = refl;
}
fresh_direction-IsCoordinated cs Status.resolved index (some c) next_id h = record {
  no_main = refl;
  no_next = refl;
}

-- The candidate that is selected is the one of its index.
abbrev pub IsSelected : List Candidate → Selection → Type 0
IsSelected cs (Selection.selected i c) = get_elem? cs i ≡ some c
IsSelected cs _ = Unit

add_zero : (k : ℕ) → k + 0 ≡ k
add_zero k = omega arith

zero_add : (j : ℕ) → j ≡ 0 + j
zero_add j = omega arith

suc_add : (n j : ℕ) → suc (n + j) ≡ suc n + j
suc_add n j = omega arith

add_suc : (k j : ℕ) → k + suc j ≡ suc k + j
add_suc k j = omega arith

select_by-IsSelected :
    (all : List Candidate) (book : Option HttpBook) (k : ℕ) (c : Candidate) (rest : Selection)
    → get_elem? all k ≡ some c
    → IsSelected all rest
    → IsSelected all (select_by book k c rest)
unfolding select_by
select_by-IsSelected all none k c rest at h = tt
select_by-IsSelected all (some b) k c rest at h =
    either_way (IsSelected all) (is_high_certainty b) rest (Selection.selected k c) h at

select_from-IsSelected :
    (fetch : Fetch) (all : List Candidate) (k : ℕ) (cs : List Candidate)
    → ((j : ℕ) → get_elem? cs j ≡ get_elem? all (k + j))
    → IsSelected all (select_from fetch k cs)
unfolding select_from
select_from-IsSelected fetch all k [] h = tt
select_from-IsSelected fetch all k (c ∷ cs) h =
    select_by-IsSelected all (fetch c.no_id) k c _ (sym (h 0 ∙ ap (get_elem? all) (add_zero k))) (
      select_from-IsSelected fetch all (suc k) cs λ j. h (suc j) ∙ ap (get_elem? all) (add_suc k j))

get_elem?-drop_candidates :
    (n j : ℕ) (cs : List Candidate) → get_elem? (drop_candidates n cs) j ≡ get_elem? cs (n + j)
unfolding drop_candidates
get_elem?-drop_candidates zero j cs = ap (get_elem? cs) (zero_add j)
get_elem?-drop_candidates (suc n) j [] = refl
get_elem?-drop_candidates (suc n) j (c ∷ cs) =
    get_elem?-drop_candidates n j cs ∙ ap (get_elem? (c ∷ cs)) (suc_add n j)

abbrev pub IsExpected : List Candidate → Option Expected → Type 0
IsExpected cs none = Unit
IsExpected cs (some e) = IsPlanned cs e.status e.index e.candidate

either_status_fits :
    (cs : List Candidate) (b : Bool) (i : ℕ) (c : Candidate)
    → get_elem? cs i ≡ some c
    → IsPlanned cs (if b then Status.resolved else Status.monitoring) (some i) (some c)
either_status_fits cs true i c h = tt
either_status_fits cs false i c h = h

status_by-IsExpected :
    (cs : List Candidate) (book : Option HttpBook) (i : ℕ) (c : Candidate)
    → get_elem? cs i ≡ some c
    → IsExpected cs (status_by book i c)
unfolding status_by
status_by-IsExpected cs none i c h = tt
status_by-IsExpected cs (some b) i c h = either_status_fits cs (is_high_certainty b) i c h

expected_of-IsExpected :
    (fetch : Fetch) (cs : List Candidate) (s : Selection)
    → IsSelected cs s
    → IsExpected cs (expected_of fetch s)
unfolding expected_of
expected_of-IsExpected fetch cs Selection.request_failed h = tt
expected_of-IsExpected fetch cs Selection.all_certain h = tt
expected_of-IsExpected fetch cs (Selection.selected i c) h =
    status_by-IsExpected cs (fetch c.yes_id) i c h

pub expected_direction-IsExpected :
    (fetch : Fetch) (cs : List Candidate) (start : ℕ)
    → IsExpected cs (expected_direction fetch cs start)
unfolding expected_direction select_candidate
expected_direction-IsExpected fetch cs start =
    expected_of-IsExpected fetch cs (select_from fetch start (drop_candidates start cs)) (
      select_from-IsSelected fetch cs start (drop_candidates start cs)
        λ j. get_elem?-drop_candidates start j cs)
