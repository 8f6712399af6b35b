-- ===== src/SweepStrategy/Trades.antt =====
-- Which trades a strategy runs (service.py).
use poly_strategy.Prelude.{
  ℕ, ◌≡◌, refl, sym, ap, ◌∙◌, Bool, true, not, ◌&&◌, Option, none, some, List, [], ◌∷◌, Dict,
  lookup, contains, ◌||◌, Text, occurs_in, false, lookup-insert, lookup-erase, ==_iff, ◌==◌,
  if◌then◌else◌, arith, Bool-cases, inl, inr,
}
use poly_strategy.SellFailure.Classify.{Signature}
use poly_strategy.SweepTrade.State.{Trade, new_trade}
use poly_strategy.SweepTrade.Run.{Units}
use poly_strategy.SweepTrade.Run
use poly_strategy.SweepStrategy.{
  Source, Filters, Signal, Strategy, Step, passes_source, passes_threshold, should_accept_signal,
  on_signal, on_exit_failed, drain, clear_trades, remove_trade, step_of, trade_step, step, run,
}

-- The signal comes from the source that the filter asks for; without a word of it, from the main one.
abbrev pub fits_source : Source → Option Bool → Bool
fits_source Source.any from_main = true
fits_source Source.main (some false) = false
fits_source Source.main _ = true
fits_source Source.next (some false) = true
fits_source Source.next _ = false

abbrev pub fits_threshold : Option Text → Text → Bool
fits_threshold none reason = true
fits_threshold (some through) reason = occurs_in through reason

-- A filter of 0 asks for nothing.
abbrev pub fits_number : (wanted n : ℕ) → Bool
fits_number wanted n = wanted == 0 || n == wanted

-- The signal opens a trade.
abbrev pub opens : Signal → Strategy → Bool
opens g s =
    g.is_sweep
    && not s.draining
    && not (contains g.token_id s.trades)
    && fits_number s.filters.outcome g.outcome
    && fits_source s.filters.source g.is_from_main
    && fits_threshold s.filters.through g.reason
    && fits_number s.filters.direction g.direction

passes_source-fits_source :
    (source : Source) (from_main : Option Bool)
    → passes_source source (elim from_main [ none ↦ true | some b ↦ b ])
      ≡ fits_source source from_main
unfolding passes_source
passes_source-fits_source Source.any from_main = refl
passes_source-fits_source Source.main none = refl
passes_source-fits_source Source.main (some true) = refl
passes_source-fits_source Source.main (some false) = refl
passes_source-fits_source Source.next none = refl
passes_source-fits_source Source.next (some true) = refl
passes_source-fits_source Source.next (some false) = refl

passes_threshold-fits_threshold :
    (through : Option Text) (reason : Text)
    → passes_threshold through reason ≡ fits_threshold through reason
unfolding passes_threshold
passes_threshold-fits_threshold none reason = refl
passes_threshold-fits_threshold (some through) reason = refl

should_accept_signal-fits :
    (f : Filters) (g : Signal)
    → should_accept_signal f g ≡ (
        fits_number f.outcome g.outcome
        && fits_source f.source g.is_from_main
        && fits_threshold f.through g.reason
        && fits_number f.direction g.direction)
unfolding should_accept_signal
should_accept_signal-fits f g =
    rw
      (
        passes_source-fits_source f.source g.is_from_main,
        passes_threshold-fits_threshold f.through g.reason,
      )
      (ground arith)

-- A signal opens a trade for its token exactly if it is a sweep, the strategy is not draining, no
-- trade of the token runs, and it fits all four filters: the outcome and the direction are the wanted
-- ones or none is wanted, the reason contains the wanted threshold if there is one, and the signal is
-- from the main market or from the next one as wanted, the main one if it does not say. No running trade
-- is replaced or touched.
pub on_signal-opens :
    (cent k : ℕ) (g : Signal) (s : Strategy)
    → lookup k (on_signal cent g s).trades
      ≡ (if opens g s && (g.token_id == k) then some (new_trade cent) else lookup k s.trades)
unfolding on_signal
on_signal-opens cent k g s =
    rw (should_accept_signal-fits s.filters g)
      (ground (arith, lookup-insert g.token_id k (new_trade cent) s.trades))

-- A draining strategy without a trade for the token.
abbrev IsFree : ℕ → Strategy → Type 0
IsFree k s = (s.draining ≡ true) × (lookup k s.trades ≡ none)

lookup-step_of :
    (u : Units) (i : ℕ) (e : Run.Step) (old : Option Trade) (k : ℕ) (d : Dict Trade)
    → lookup i d ≡ old
    → lookup k d ≡ none
    → lookup k (step_of u i e old d) ≡ none
unfolding step_of
lookup-step_of u i e none k d is_old free = free
lookup-step_of u i e (some t) k d is_old free = elim (Bool-cases (i == k)) [
  | inl same ↦ absurd (
      let i_is_k : i ≡ k = (==_iff i k).0 same in
      let clash : some t ≡ none = sym is_old ∙ ap (λ j. lookup j d) i_is_k ∙ free in ground arith)
  | inr other ↦ lookup-insert i k (Run.step u e t) d ∙ (rw other free)
]

trade_step-IsFree :
    (u : Units) (i : ℕ) (e : Run.Step) (k : ℕ) (s : Strategy)
    → IsFree k s
    → IsFree k (trade_step u i e s)
unfolding trade_step
trade_step-IsFree u i e k s h = (h.0, lookup-step_of u i e (lookup i s.trades) k s.trades refl h.1)

on_signal-IsFree :
    (cent k : ℕ) (g : Signal) (s : Strategy) → IsFree k s → IsFree k (on_signal cent g s)
unfolding on_signal
on_signal-IsFree cent k g s h = elim (Bool-cases g.is_sweep) [
  | inl e ↦ rw (e, h.0) (refl, h.1)
  | inr e ↦ rw e h
]

step-IsFree : (u : Units) (e : Step) (k : ℕ) (s : Strategy) → IsFree k s → IsFree k (step u e s)
unfolding step on_signal on_exit_failed drain clear_trades remove_trade lookup
step-IsFree u (Step.signal g) k s h = on_signal-IsFree u.cent k g s h
step-IsFree u (Step.exit_failed now i g up) k s h = ground arith
step-IsFree u Step.drain_requested k s h = (refl, h.1)
step-IsFree u Step.exits_forced k s h = (h.0, refl)
step-IsFree u (Step.trade_closed i) k s h = ground (arith, lookup-erase i k s.trades)
step-IsFree u (Step.trade_steps i e) k s h = trade_step-IsFree u i e k s h

-- Once a strategy drains, for whatever reason, it drains for good, and no event opens a trade: a token
-- without a trade stays without one.
pub run_drained :
    (u : Units) (es : List Step) (k : ℕ) (s : Strategy)
    → s.draining ≡ true
    → lookup k s.trades ≡ none
    → ((run u es s).draining ≡ true) × (lookup k (run u es s).trades ≡ none)
unfolding run
run_drained u [] k s h free = (h, free)
run_drained u (e ∷ es) k s h free =
    let next = step-IsFree u e k s (h, free) in run_drained u es k (step u e s) next.0 next.1

-- The steps of the trade of a token.
abbrev pub own_steps : ℕ → List Step → List Run.Step
own_steps k [] = []
own_steps k (Step.trade_steps i e ∷ es) =
    let rest = own_steps k es in if i == k then e ∷ rest else rest
own_steps k (_ ∷ es) = own_steps k es

-- The strategy lets go of the trade of a token.
abbrev pub lets_go : ℕ → List Step → Bool
lets_go k [] = false
lets_go k (Step.trade_closed i ∷ es) = i == k || lets_go k es
lets_go k (Step.exits_forced ∷ es) = true
lets_go k (_ ∷ es) = lets_go k es

-- The trade of a token after a step of the trade of another one, or its own.
step_of-lookup :
    (u : Units) (i : ℕ) (e : Run.Step) (old : Option Trade) (k : ℕ) (d : Dict Trade) (t : Trade)
    → lookup i d ≡ old
    → lookup k d ≡ some t
    → lookup k (step_of u i e old d) ≡ some (if i == k then Run.step u e t else t)
unfolding step_of
step_of-lookup u i e none k d t is_old here = elim (Bool-cases (i == k)) [
  | inl same ↦ absurd (
      let i_is_k : i ≡ k = (==_iff i k).0 same in
      let clash : none ≡ some t = sym is_old ∙ ap (λ j. lookup j d) i_is_k ∙ here in ground arith)
  | inr other ↦ rw other here
]
step_of-lookup u i e (some t₀) k d t is_old here = elim (Bool-cases (i == k)) [
  | inl same ↦
      let i_is_k : i ≡ k = (==_iff i k).0 same in
      let agree : some t₀ ≡ some t = sym is_old ∙ ap (λ j. lookup j d) i_is_k ∙ here in
      lookup-insert i k (Run.step u e t₀) d ∙ (rw same (ap (λ x. some (Run.step u e x)) (cc)))
  | inr other ↦ lookup-insert i k (Run.step u e t₀) d ∙ (rw other here)
]

running-opens :
    (g : Signal) (s : Strategy) (t : Trade)
    → lookup g.token_id s.trades ≡ some t
    → opens g s ≡ false
running-opens g s t here = rw here (ground arith)

-- No signal touches a running trade.
on_signal-lookup :
    (cent k : ℕ) (g : Signal) (s : Strategy) (t : Trade)
    → lookup k s.trades ≡ some t
    → lookup k (on_signal cent g s).trades ≡ some t
on_signal-lookup cent k g s t here = elim (Bool-cases (g.token_id == k)) [
  | inl same ↦
      let is_k : g.token_id ≡ k = (==_iff g.token_id k).0 same in
      on_signal-opens cent k g s
      ∙ (rw (running-opens g s t (ap (λ j. lookup j s.trades) is_k ∙ here)) here)
  | inr other ↦ on_signal-opens cent k g s ∙ (ground arith)
]

on_exit_failed-trades :
    (now i : ℕ) (g : Signature) (up : Bool) (s : Strategy)
    → (on_exit_failed now i g up s).0.trades ≡ s.trades
unfolding on_exit_failed
on_exit_failed-trades now i g up s = ground arith

-- A running trade is left to itself: until the strategy removes it or clears its table, whatever signals,
-- failures, drains, closes and steps of other trades come between, the trade is what its own steps make
-- of it.
pub trade_runs_alone :
    (u : Units) (es : List Step) (k : ℕ) (s : Strategy) (t : Trade)
    → lookup k s.trades ≡ some t
    → lets_go k es ≡ false
    → lookup k (run u es s).trades ≡ some (Run.run u (own_steps k es) t)
unfolding run step Run.run drain remove_trade trade_step
trade_runs_alone u [] k s t here stays = here
trade_runs_alone u (Step.signal g ∷ es) k s t here stays =
    trade_runs_alone u es k (on_signal u.cent g s) t (on_signal-lookup u.cent k g s t here) stays
trade_runs_alone u (Step.exit_failed now i g up ∷ es) k s t here stays =
    trade_runs_alone u es k (on_exit_failed now i g up s).0 t
      (rw (on_exit_failed-trades now i g up s) here) stays
trade_runs_alone u (Step.drain_requested ∷ es) k s t here stays =
    trade_runs_alone u es k (drain s) t here stays
trade_runs_alone u (Step.exits_forced ∷ es) k s t here stays = absurd (ground arith)
trade_runs_alone u (Step.trade_closed i ∷ es) k s t here stays =
    let both : ((i == k) ≡ false) × (lets_go k es ≡ false) = ground arith in
    trade_runs_alone u es k (remove_trade i s) t (lookup-erase i k s.trades ∙ (rw both.0 here))
      both.1
trade_runs_alone u (Step.trade_steps i e ∷ es) k s t here stays = elim (Bool-cases (i == k)) [
  | inl same ↦ rw same (
      trade_runs_alone u es k (trade_step u i e s) (Run.step u e t)
        (step_of-lookup u i e (lookup i s.trades) k s.trades t refl here ∙ (rw same refl)) stays)
  | inr other ↦ rw other (
      trade_runs_alone u es k (trade_step u i e s) t
        (step_of-lookup u i e (lookup i s.trades) k s.trades t refl here ∙ (rw other refl)) stays)
]
