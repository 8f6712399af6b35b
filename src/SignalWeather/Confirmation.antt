-- ===== src/SignalWeather/Confirmation.antt =====
-- The timers of a monitor against the entries of `_confirmations` (weather_engine.py).
use poly_strategy.Prelude.{
  ℕ, ◌≡◌, ◌≢◌, ◌⊎◌, refl, sym, ◌∙◌, subst, ap, Bool, true, false, ◌&&◌, ◌||◌, ◌==◌, if◌then◌else◌,
  Option, none, some, List, [], ◌∷◌, ◌++◌, arith, Bool-cases, inl, inr, ==_iff, either_way,
}
use poly_strategy.SignalWeather.Market.{Outcome, same_outcome, other_outcome}
use poly_strategy.SignalWeather.Timers.{TaskStatus, Task, cancelled, cancel_task}
use poly_strategy.SignalWeather.Tasks.{begun, begin_task, drop_task, find_task}

-- A task that may still confirm is its asset's entry, and an asset whose cancelled task has not ended
-- has no entry.
abbrev pub IsTimed : (entry : Option ℕ) → TaskStatus → ℕ → Type 0
IsTimed entry TaskStatus.created id = entry ≡ some id
IsTimed entry TaskStatus.sleeping id = entry ≡ some id
IsTimed entry TaskStatus.cancelling id = entry ≡ none
IsTimed entry TaskStatus.aborted id = Unit

abbrev pub entry_for : Outcome → (yes_entry no_entry : Option ℕ) → Option ℕ
entry_for Outcome.yes_asset yes_entry no_entry = yes_entry
entry_for Outcome.no_asset yes_entry no_entry = no_entry

abbrev pub AreTimed : (yes_entry no_entry : Option ℕ) → List Task → Type 0
AreTimed y n [] = Unit
AreTimed y n (t ∷ ts) = IsTimed (entry_for t.outcome y n) t.status t.id × AreTimed y n ts

abbrev pub is_cancelling : TaskStatus → Bool
is_cancelling TaskStatus.cancelling = true
is_cancelling _ = false

-- Whether a cancelled task of the asset has not ended.
unfoldable pub has_cancelling : Outcome → List Task → Bool
has_cancelling o [] = false
has_cancelling o (t ∷ ts) =
    (same_outcome t.outcome o && is_cancelling t.status) || has_cancelling o ts

abbrev pub with_yes : Outcome → Option ℕ → Option ℕ → Option ℕ
with_yes Outcome.yes_asset e y = e
with_yes Outcome.no_asset e y = y

abbrev pub with_no : Outcome → Option ℕ → Option ℕ → Option ℕ
with_no Outcome.yes_asset e n = n
with_no Outcome.no_asset e n = e

-- An entry that was none becomes one of a new task.
new_entry-IsTimed :
    (s : TaskStatus) (id k : ℕ) (entry : Option ℕ)
    → entry ≡ none
    → is_cancelling s ≡ false
    → IsTimed entry s id
    → IsTimed (some k) s id
new_entry-IsTimed TaskStatus.created id k entry e h timed = ground (arith, sym e ∙ timed)
new_entry-IsTimed TaskStatus.sleeping id k entry e h timed = ground (arith, sym e ∙ timed)
new_entry-IsTimed TaskStatus.cancelling id k entry e h timed = ground arith
new_entry-IsTimed TaskStatus.aborted id k entry e h timed = tt

start_entry :
    (o p : Outcome) (s : TaskStatus) (id k : ℕ) (y n : Option ℕ)
    → entry_for o y n ≡ none
    → (same_outcome p o && is_cancelling s) ≡ false
    → IsTimed (entry_for p y n) s id
    → IsTimed (entry_for p (with_yes o (some k) y) (with_no o (some k) n)) s id
start_entry Outcome.yes_asset Outcome.yes_asset s id k y n e h timed =
    new_entry-IsTimed s id k y e h timed
start_entry Outcome.no_asset Outcome.no_asset s id k y n e h timed =
    new_entry-IsTimed s id k n e h timed
start_entry Outcome.yes_asset Outcome.no_asset s id k y n e h timed = timed
start_entry Outcome.no_asset Outcome.yes_asset s id k y n e h timed = timed

pub or_false : (a b : Bool) → (a || b) ≡ false → (a ≡ false) × (b ≡ false)
or_false a b h = ground arith

pub start-AreTimed :
    (o : Outcome) (k : ℕ) (y n : Option ℕ) (ts : List Task)
    → entry_for o y n ≡ none
    → has_cancelling o ts ≡ false
    → AreTimed y n ts
    → AreTimed (with_yes o (some k) y) (with_no o (some k) n) ts
unfolding has_cancelling
start-AreTimed o k y n [] e h timed = tt
start-AreTimed o k y n (t ∷ ts) e h timed =
    let hs =
      or_false (same_outcome t.outcome o && is_cancelling t.status) (has_cancelling o ts) h in
    (
      start_entry o t.outcome t.status t.id k y n e hs.0 timed.0,
      start-AreTimed o k y n ts e hs.1 timed.1,
    )

-- The entry of a cancelled task becomes none.
cancel_own-IsTimed :
    (s : TaskStatus) (k id : ℕ) (entry : Option ℕ)
    → entry ≡ some id
    → IsTimed entry s k
    → IsTimed none (if k == id then cancelled s else s) k
cancel_own-IsTimed TaskStatus.created k id entry e timed = ground (arith, sym e ∙ timed)
cancel_own-IsTimed TaskStatus.sleeping k id entry e timed = ground (arith, sym e ∙ timed)
cancel_own-IsTimed TaskStatus.cancelling k id entry e timed = ground (arith, sym e ∙ timed)
cancel_own-IsTimed TaskStatus.aborted k id entry e timed = ground arith

cancel_other-IsTimed :
    (s : TaskStatus) (k id : ℕ) (entry : Option ℕ)
    → entry ≢ some id
    → IsTimed entry s k
    → IsTimed entry (if k == id then cancelled s else s) k
cancel_other-IsTimed TaskStatus.created k id entry e timed = elim (Bool-cases (k == id)) [
  | inl same ↦ absurd (e (timed ∙ ap some ((==_iff k id).0 same)))
  | inr apart ↦ rw apart timed
]
cancel_other-IsTimed TaskStatus.sleeping k id entry e timed = elim (Bool-cases (k == id)) [
  | inl same ↦ absurd (e (timed ∙ ap some ((==_iff k id).0 same)))
  | inr apart ↦ rw apart timed
]
cancel_other-IsTimed TaskStatus.cancelling k id entry e timed = ground arith
cancel_other-IsTimed TaskStatus.aborted k id entry e timed = ground arith

cancel_entry :
    (o p : Outcome) (s : TaskStatus) (k id : ℕ) (y n : Option ℕ)
    → entry_for o y n ≡ some id
    → entry_for (other_outcome o) y n ≢ some id
    → IsTimed (entry_for p y n) s k
    → IsTimed
        (entry_for p (with_yes o none y) (with_no o none n))
        (if k == id then cancelled s else s)
        k
cancel_entry Outcome.yes_asset Outcome.yes_asset s k id y n e apart timed =
    cancel_own-IsTimed s k id y e timed
cancel_entry Outcome.no_asset Outcome.no_asset s k id y n e apart timed =
    cancel_own-IsTimed s k id n e timed
cancel_entry Outcome.yes_asset Outcome.no_asset s k id y n e apart timed =
    cancel_other-IsTimed s k id n apart timed
cancel_entry Outcome.no_asset Outcome.yes_asset s k id y n e apart timed =
    cancel_other-IsTimed s k id y apart timed

pub cancel-AreTimed :
    (o : Outcome) (id : ℕ) (y n : Option ℕ) (ts : List Task)
    → entry_for o y n ≡ some id
    → entry_for (other_outcome o) y n ≢ some id
    → AreTimed y n ts
    → AreTimed (with_yes o none y) (with_no o none n) (cancel_task id ts)
unfolding cancel_task
cancel-AreTimed o id y n [] e apart timed = tt
cancel-AreTimed o id y n (t ∷ ts) e apart timed = (
  cancel_entry o t.outcome t.status t.id id y n e apart timed.0,
  cancel-AreTimed o id y n ts e apart timed.1,
)

-- A task that has ended is gone. Where it had an entry, that becomes none.
pub drop-AreTimed :
    (id : ℕ) (y n : Option ℕ) (ts : List Task) → AreTimed y n ts → AreTimed y n (drop_task id ts)
unfolding drop_task
drop-AreTimed id y n [] timed = tt
drop-AreTimed id y n (t ∷ ts) timed = ground (arith, drop-AreTimed id y n ts timed.1)

begun-IsTimed :
    (s : TaskStatus) (id : ℕ) (entry : Option ℕ) → IsTimed entry s id → IsTimed entry (begun s) id
begun-IsTimed TaskStatus.created id entry timed = timed
begun-IsTimed TaskStatus.sleeping id entry timed = timed
begun-IsTimed TaskStatus.cancelling id entry timed = timed
begun-IsTimed TaskStatus.aborted id entry timed = timed

pub begin-AreTimed :
    (id : ℕ) (y n : Option ℕ) (ts : List Task) → AreTimed y n ts → AreTimed y n (begin_task id ts)
unfolding begin_task
begin-AreTimed id y n [] timed = tt
begin-AreTimed id y n (t ∷ ts) timed = (
  either_way (λ s. IsTimed (entry_for t.outcome y n) s t.id) (t.id == id) (begun t.status) t.status
      (begun-IsTimed t.status t.id (entry_for t.outcome y n) timed.0) timed.0,
  begin-AreTimed id y n ts timed.1,
)

end_own-IsTimed :
    (s : TaskStatus) (k id : ℕ) (entry : Option ℕ)
    → (entry ≡ some id) ⊎ (entry ≡ none)
    → (k == id) ≡ false
    → IsTimed entry s k
    → IsTimed none s k
end_own-IsTimed TaskStatus.created k id entry (inl e) apart timed = ground (arith, sym e ∙ timed)
end_own-IsTimed TaskStatus.sleeping k id entry (inl e) apart timed = ground (arith, sym e ∙ timed)
end_own-IsTimed TaskStatus.cancelling k id entry (inl e) apart timed = refl
end_own-IsTimed TaskStatus.aborted k id entry (inl e) apart timed = tt
end_own-IsTimed s k id entry (inr e) apart timed = subst (λ x. IsTimed x s k) e timed

end_entry :
    (o p : Outcome) (s : TaskStatus) (k id : ℕ) (y n : Option ℕ)
    → (entry_for o y n ≡ some id) ⊎ (entry_for o y n ≡ none)
    → (k == id) ≡ false
    → IsTimed (entry_for p y n) s k
    → IsTimed (entry_for p (with_yes o none y) (with_no o none n)) s k
end_entry Outcome.yes_asset Outcome.yes_asset s k id y n e apart timed =
    end_own-IsTimed s k id y e apart timed
end_entry Outcome.no_asset Outcome.no_asset s k id y n e apart timed =
    end_own-IsTimed s k id n e apart timed
end_entry Outcome.yes_asset Outcome.no_asset s k id y n e apart timed = timed
end_entry Outcome.no_asset Outcome.yes_asset s k id y n e apart timed = timed

-- The end of a task whose entry it is, or whose asset has none.
pub end-AreTimed :
    (o : Outcome) (id : ℕ) (y n : Option ℕ) (ts : List Task)
    → (entry_for o y n ≡ some id) ⊎ (entry_for o y n ≡ none)
    → AreTimed y n ts
    → AreTimed (with_yes o none y) (with_no o none n) (drop_task id ts)
unfolding drop_task
end-AreTimed o id y n [] e timed = tt
end-AreTimed o id y n (t ∷ ts) e timed =
    let rest = end-AreTimed o id y n ts e timed.1 in
    elim (Bool-cases (t.id == id)) [
      | inl same ↦ rw same rest
      | inr apart ↦ rw apart (end_entry o t.outcome t.status t.id id y n e apart timed.0, rest)
    ]

abbrev pub FoundTimed : (yes_entry no_entry : Option ℕ) → Option Task → Type 0
FoundTimed y n none = Unit
FoundTimed y n (some t) = IsTimed (entry_for t.outcome y n) t.status t.id

pub find_task-FoundTimed :
    (id : ℕ) (y n : Option ℕ) (ts : List Task) → AreTimed y n ts → FoundTimed y n (find_task id ts)
unfolding find_task
find_task-FoundTimed id y n [] timed = tt
find_task-FoundTimed id y n (u ∷ us) timed =
    either_way (FoundTimed y n) (u.id == id) (some u) (find_task id us) timed.0
      (find_task-FoundTimed id y n us timed.1)

pub append-AreTimed :
    (y n : Option ℕ) (ts us : List Task)
    → AreTimed y n ts
    → AreTimed y n us
    → AreTimed y n (ts ++ us)
append-AreTimed y n [] us h k = k
append-AreTimed y n (t ∷ ts) us h k = (h.0, append-AreTimed y n ts us h.1 k)
