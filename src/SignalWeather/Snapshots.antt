-- ===== src/SignalWeather/Snapshots.antt =====
-- Lists of snapshots and the timers of a monitor (weather_engine.py).
use poly_strategy.Prelude.{
  ℕ, ◌≡◌, refl, sym, ◌∙◌, subst, ap, Bool, true, false, ◌||◌, Option, none, some, List, [], ◌∷◌,
  arith, Option-cases, inl, inr,
}
use poly_strategy.OrderBook.Book.{apply_snapshot}
use poly_strategy.SignalWeather.Market.{Outcome, same_outcome_refl, outcome_either, other_outcome}
use poly_strategy.SignalWeather.Timers.{
  Monitor, AssetState, state_of, with_state, outcome_of, set_tick,
}
use poly_strategy.SignalWeather.Monitor.{
  Earlier, evaluate_asset, SnapshotMessage, load_snapshot, deliver_snapshots, is_favored,
}
use poly_strategy.SignalWeather.Confirmation.{has_cancelling}
use poly_strategy.SignalWeather.Timely.{IsTimely}
use poly_strategy.SignalWeather.Evaluation.{
  with_state-Keeps, Evaluates, evaluate_asset-Evaluates, after_change,
}

-- A list of snapshots that names no asset twice, where `find` gives the asset of an identifier.
unfoldable pub is_mentioned : Outcome → List SnapshotMessage → (find : ℕ → Option Outcome) → Bool
is_mentioned o [] find = false
is_mentioned o (d ∷ ds) find = is_favored (find d.asset_id) o || is_mentioned o ds find

abbrev pub NoRepeats : List SnapshotMessage → (find : ℕ → Option Outcome) → Type 0
NoRepeats [] find = Unit
NoRepeats (d ∷ ds) find =
    ((o : Outcome) → find d.asset_id ≡ some o → is_mentioned o ds find ≡ false) × NoRepeats ds find

or_right : (a b : Bool) → b ≡ true → (a || b) ≡ true
or_right a b h = ground arith

first_mentioned :
    (o : Outcome) (d : SnapshotMessage) (ds : List SnapshotMessage) (find : ℕ → Option Outcome)
    → find d.asset_id ≡ some o
    → is_mentioned o (d ∷ ds) find ≡ true
unfolding is_mentioned
first_mentioned o d ds find e = rw (e, same_outcome_refl o) refl

-- What holds before the snapshots of a list are gone through.
pub record Ready (ds : List SnapshotMessage) (find : ℕ → Option Outcome) (m : Monitor)
    : Type 0 where
  pub ids : (asset_id : ℕ) → outcome_of asset_id m ≡ find asset_id
  pub distinct : NoRepeats ds find
  pub settled : (o : Outcome) → is_mentioned o ds find ≡ true → has_cancelling o m.tasks ≡ false
  pub timely : IsTimely m

skip-Ready :
    (d : SnapshotMessage) (ds : List SnapshotMessage) (find : ℕ → Option Outcome) (m : Monitor)
    → Ready (d ∷ ds) find m
    → Ready ds find m
unfolding is_mentioned
skip-Ready d ds find m ready = record {
  ids = ready.ids;
  distinct = ready.distinct.1;
  settled =
      λ o h. ready.settled o (or_right (is_favored (find d.asset_id) o) (is_mentioned o ds find) h);
  timely = ready.timely;
}

repeated {ℓ} : {A : Type ℓ} (b : Bool) → b ≡ true → b ≡ false → A
repeated b again once = ground (arith)

evaluated-Ready :
    (o : Outcome) (d : SnapshotMessage) (ds : List SnapshotMessage) (find : ℕ → Option Outcome)
    (m m' : Monitor)
    → find d.asset_id ≡ some o
    → Ready (d ∷ ds) find m
    → Evaluates o m m'
    → Ready ds find m'
evaluated-Ready o d ds find m m' e ready evaluates = record {
  ids = λ i. evaluates.ids i ∙ ready.ids i;
  distinct = ready.distinct.1;
  settled = λ p h. elim (outcome_either o p) [
    | inl same ↦
        repeated (is_mentioned o ds find) (subst (λ q. is_mentioned q ds find ≡ true) same h)
          (ready.distinct.0 o e)
    | inr differ ↦
        subst (λ q. has_cancelling q m'.tasks ≡ false) (sym differ)
          (evaluates.settled (
            (skip-Ready d ds find m ready).settled (other_outcome o)
              (subst (λ q. is_mentioned q ds find ≡ true) differ h)))
  ];
  timely = evaluates.timely;
}

pub set_tick-confirmation :
    (tick : Option ℕ) (s : AssetState) → (set_tick tick s).confirmation ≡ s.confirmation
unfolding set_tick
set_tick-confirmation tick s = refl

load_snapshot-confirmation :
    (d : SnapshotMessage) (s : AssetState) → (load_snapshot d s).confirmation ≡ s.confirmation
unfolding load_snapshot
load_snapshot-confirmation d s =
    set_tick-confirmation d.tick_size (record s { book = apply_snapshot d.bids d.asks s.book })

pub snapshot-Evaluates :
    (now : ℕ) (o : Outcome) (d : SnapshotMessage) (earlier : Option Earlier) (m : Monitor)
    → has_cancelling o m.tasks ≡ false
    → IsTimely m
    → Evaluates o m
        (evaluate_asset now o earlier (with_state o (load_snapshot d (state_of o m)) m)).0
unfolding load_snapshot
snapshot-Evaluates now o d earlier m h timers =
    let kept =
      with_state-Keeps o (load_snapshot d (state_of o m)) m
        (load_snapshot-confirmation d (state_of o m)) in
    let loaded = with_state o (load_snapshot d (state_of o m)) m in
    after_change o m loaded (evaluate_asset now o earlier loaded).0 kept (
      evaluate_asset-Evaluates now o earlier loaded (ap (has_cancelling o) kept.tasks ∙ h)
        (kept.timely timers))

pub deliver_snapshots-IsTimely :
    (now : ℕ) (ds : List SnapshotMessage) (find : ℕ → Option Outcome) (m : Monitor)
    → Ready ds find m
    → IsTimely (deliver_snapshots now ds m).0
unfolding deliver_snapshots
deliver_snapshots-IsTimely now [] find m ready = ready.timely
deliver_snapshots-IsTimely now (d ∷ ds) find m ready = elim (Option-cases (find d.asset_id)) [
  | inl e ↦
      rw (ready.ids d.asset_id, e)
        (deliver_snapshots-IsTimely now ds find m (skip-Ready d ds find m ready))
  | inr e ↦
      let m' =
        (evaluate_asset now e.0 none (with_state e.0 (load_snapshot d (state_of e.0 m)) m)).0 in
      rw (ready.ids d.asset_id, e.1)
        (deliver_snapshots-IsTimely now ds find m' (
          evaluated-Ready e.0 d ds find m m' e.1 ready (
            snapshot-Evaluates now e.0 d none m
              (ready.settled e.0 (first_mentioned e.0 d ds find e.1)) ready.timely)))
]
