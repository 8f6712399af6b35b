-- ===== src/SlugScript/Meaning/Plain.antt =====
-- A statement without a jump that reaches out of it answers no jump (slug_script.py).
use poly_strategy.Prelude.{◌≡◌, sym, Bool, false, ◌||◌, List, arith, subst}
use poly_strategy.SlugScript.Syntax.{Stmt, Block}
use poly_strategy.SlugScript.Values.{Python}
use poly_strategy.SlugScript.Machine.{Signal, LoopEnd, Vars}
use poly_strategy.SlugScript.Meaning.{
  Exec, returns, takes_body, takes_else, assigns, augments, augments_unset, iterates, repeats,
  breaks, continues, passes, evaluates, Run, falls_through, then_runs, breaks_off, Rounds,
  items_over, next_item, last_item, Repeats, test_fails, next_round, last_round, Ends, runs_else,
  skips_else, passes_on, Leaves, jumps, jumps_block,
}

abbrev pub IsPlain : {V : Type 0} → Signal V → Type 0
IsPlain Signal.sentinel = Unit
IsPlain (Signal.returned v) = Unit
IsPlain _ = ⊥

-- A loop ends by itself, by `break`, or with a value.
abbrev EndsPlainly : {V : Type 0} → LoopEnd V → Type 0
EndsPlainly (LoopEnd.answered s) = IsPlain s
EndsPlainly _ = Unit

Leaves-EndsPlainly : {V : Type 0} (s : Signal V) (end : LoopEnd V) → Leaves s end → EndsPlainly end
Leaves-EndsPlainly Signal.sentinel end h = absurd h
Leaves-EndsPlainly Signal.continued end h = absurd h
Leaves-EndsPlainly Signal.broke end h = subst EndsPlainly (sym h) tt
Leaves-EndsPlainly (Signal.returned v) end h = subst EndsPlainly (sym h) tt

or_false : (a b : Bool) → (a || b) ≡ false → (a ≡ false) × (b ≡ false)
or_false a b h = ground arith

module _ (py : Python) where
  open py use {Value}

  Rounds-EndsPlainly :
      {x : _} {body : Block} {vs : List Value} {vars vars' : Vars Value} {end : LoopEnd Value}
      → Rounds py x body vs vars end vars'
      → EndsPlainly end
  Rounds-EndsPlainly items_over = tt
  Rounds-EndsPlainly (next_item d g r) = Rounds-EndsPlainly r
  Rounds-EndsPlainly (last_item {sg} {end} d l) = Leaves-EndsPlainly sg end l

  Repeats-EndsPlainly :
      {test : _} {body : Block} {vars vars' : Vars Value} {end : LoopEnd Value}
      → Repeats py test body vars end vars'
      → EndsPlainly end
  Repeats-EndsPlainly (test_fails h) = tt
  Repeats-EndsPlainly (next_round h d g r) = Repeats-EndsPlainly r
  Repeats-EndsPlainly (last_round {sg} {end} h d l) = Leaves-EndsPlainly sg end l

  mutual
    unfolding jumps

    Exec-IsPlain :
        {s : Stmt} {vars vars' : Vars Value} {sg : Signal Value}
        → Exec py s vars sg vars'
        → jumps s ≡ false
        → IsPlain sg
    Exec-IsPlain (returns e) h = tt
    Exec-IsPlain (takes_body {body} {orelse} e d) h =
        Run-IsPlain d (or_false (jumps_block body) (jumps_block orelse) h).0
    Exec-IsPlain (takes_else {body} {orelse} e d) h =
        Run-IsPlain d (or_false (jumps_block body) (jumps_block orelse) h).1
    Exec-IsPlain (assigns e) h = tt
    Exec-IsPlain (augments e g f) h = tt
    Exec-IsPlain (augments_unset e g f) h = tt
    Exec-IsPlain (iterates e i r d) h = Ends-IsPlain d (Rounds-EndsPlainly r) h
    Exec-IsPlain (repeats r d) h = Ends-IsPlain d (Repeats-EndsPlainly r) h
    Exec-IsPlain breaks h = absurd (cc)
    Exec-IsPlain continues h = absurd (cc)
    Exec-IsPlain passes h = tt
    Exec-IsPlain (evaluates e) h = tt

    pub Run-IsPlain :
        {b : Block} {vars vars' : Vars Value} {sg : Signal Value}
        → Run py b vars sg vars'
        → jumps_block b ≡ false
        → IsPlain sg
    Run-IsPlain falls_through h = tt
    Run-IsPlain (then_runs {s} {rest} d r) h =
        Run-IsPlain r (or_false (jumps s) (jumps_block rest) h).1
    Run-IsPlain (breaks_off {s} {rest} d j) h =
        Exec-IsPlain d (or_false (jumps s) (jumps_block rest) h).0

    Ends-IsPlain :
        {orelse : Block} {end : LoopEnd Value} {vars vars' : Vars Value} {sg : Signal Value}
        → Ends py orelse end vars sg vars'
        → EndsPlainly end
        → jumps_block orelse ≡ false
        → IsPlain sg
    Ends-IsPlain (runs_else d) p h = Run-IsPlain d h
    Ends-IsPlain skips_else p h = tt
    Ends-IsPlain passes_on p h = p
