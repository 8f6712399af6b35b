-- ===== src/SlugScript/Meaning/Loops.antt =====
-- The loops of the evaluator run the rounds of their meaning (slug_script.py).
use poly_strategy.Prelude.{
  ℕ, ◌≡◌, refl, Bool, true, false, not, ◌&&◌, Option, none, some, List, ◌∷◌, arith, Text,
}
use poly_strategy.SlugScript.Syntax.{Expr, Stmt, Block}
use poly_strategy.SlugScript.Values.{Python}
use poly_strategy.SlugScript.Machine.{
  Error, Result, ok, raised, ◌>>=◌, or_raise, Signal, Evaluator, Outcome, LoopEnd, LoopOutcome,
  Limits, Vars, with_value, set_var, for_loop, while_loop, after_loop,
}
use poly_strategy.SlugScript.Evaluation.{eval_test, run_block}
use poly_strategy.SlugScript.Ensures.{
  Ensures, Ensures-mono, AfterRound, AfterLoop, WithoutJump, with_value-Ensures, after_loop-Ensures,
  for_loop-Ensures, while_loop-Ensures,
}
use poly_strategy.SlugScript.Meaning.{
  Exec, Run, Rounds, items_over, next_item, last_item, Repeats, test_fails, next_round, last_round,
  Ends, runs_else, skips_else, passes_on, jumps_block,
}
use poly_strategy.SlugScript.Meaning.Plain.{Run-IsPlain}

pub and_true : (a b : Bool) → (a && b) ≡ true → (a ≡ true) × (b ≡ true)
and_true a b h = ground arith

pub not_eq : (a : Bool) → not a ≡ true → a ≡ false
not_eq a h = ground arith

pub items_of :
    {A : Type 0} {B : Type 0} (r : Result A) (f : A → Option B) (b : B)
    → (r >>= λ a. or_raise Error.python (f a)) ≡ ok b
    → (a : A) × (r ≡ ok a) × (f a ≡ some b)
items_of (raised e) f b h = absurd (cc)
items_of (ok a) f b h = (a, refl, of_or_raise (f a) h)
  where
    of_or_raise : (o : Option _) → or_raise Error.python o ≡ ok b → o ≡ some b
    of_or_raise none h = absurd (cc)
    of_or_raise (some c) h = cc

module _ (py : Python) (limit : Limits) where
  open py use {Value}

  abbrev pub Always : Error → Evaluator Value → Type 0
  Always e st = Unit

  -- The answers of a statement from the variables `vars` are those of its meaning.
  unfoldable pub IsExec : Stmt → Vars Value → Outcome Value → Type 0
  IsExec s vars = Ensures (λ sg st. Exec py s vars sg st.vars) Always

  unfoldable pub IsRun : Block → Vars Value → Outcome Value → Type 0
  IsRun b vars = Ensures (λ sg st. Run py b vars sg st.vars) Always

  pub with_answer {ℓ} :
      {A : Type ℓ} (s : Stmt) (vars : Vars Value) (r : Result A) (st : Evaluator Value)
      (next : A → Outcome Value)
      → ((a : A) → r ≡ ok a → IsExec s vars (next a))
      → IsExec s vars (with_value r st next)
  unfolding IsExec
  with_answer s vars r st next k =
      with_value-Ensures Always (λ sg st'. Exec py s vars sg st'.vars) r st next (λ e _. tt) k

  -- The `else` of a loop, which has no jump.
  else-IsRun :
      (orelse : Block) (Q : Signal Value → Evaluator Value → Type 0) (vars : Vars Value)
      (o : Outcome Value)
      → jumps_block orelse ≡ false
      → ((sg : Signal Value) (st : Evaluator Value) → Run py orelse vars sg st.vars → Q sg st)
      → IsRun orelse vars o
      → Ensures (WithoutJump Q) Always o
  unfolding IsRun
  else-IsRun orelse Q vars o plain k =
      Ensures-mono (λ sg st. Run py orelse vars sg st.vars) (WithoutJump Q) Always o (pass)
    where
      pass :
          (sg : Signal Value) (st : Evaluator Value)
          → Run py orelse vars sg st.vars
          → WithoutJump Q sg st
      pass Signal.sentinel st d = k Signal.sentinel st d
      pass Signal.broke st d = absurd (Run-IsPlain py d plain)
      pass Signal.continued st d = absurd (Run-IsPlain py d plain)
      pass (Signal.returned v) st d = k (Signal.returned v) st d

  module _ (s : Stmt) (vars : Vars Value) (orelse : Block)
      (Loop : LoopEnd Value → Vars Value → Type 0)
      (whole : (end : LoopEnd Value) (vars₁ vars₂ : Vars Value) (sg : Signal Value)
        → Loop end vars₁
        → Ends py orelse end vars₁ sg vars₂
        → Exec py s vars sg vars₂)
      (plain : jumps_block orelse ≡ false)
      (runs : (st : Evaluator Value) → IsRun orelse st.vars (run_block py limit orelse st)) where
    end-IsExec :
        (end : LoopEnd Value) (st : Evaluator Value)
        → Loop end st.vars
        → AfterLoop
            (λ st'.
              Ensures
                (WithoutJump (λ sg st''. Exec py s vars sg st''.vars))
                Always
                (run_block py limit orelse st'))
            (λ sg st'. Exec py s vars sg st'.vars)
            end
            st
    end-IsExec LoopEnd.exhausted st h =
        else-IsRun orelse (λ sg st'. Exec py s vars sg st'.vars) st.vars
          (run_block py limit orelse st) plain
          (λ sg st' d. whole LoopEnd.exhausted st.vars st'.vars sg h (runs_else d)) (runs st)
    end-IsExec LoopEnd.broken st h =
        whole LoopEnd.broken st.vars st.vars Signal.sentinel h skips_else
    end-IsExec (LoopEnd.answered sg) st h =
        whole (LoopEnd.answered sg) st.vars st.vars sg h passes_on

    -- What follows a loop: `whole` makes a meaning of the statement of how the loop ended.
    pub ends-IsExec :
        (o : LoopOutcome Value)
        → Ensures (λ end st. Loop end st.vars) Always o
        → IsExec s vars (after_loop o (run_block py limit orelse))
    unfolding IsExec
    ends-IsExec o h =
        after_loop-Ensures Always (λ sg st. Exec py s vars sg st.vars) o (run_block py limit orelse)
          (Ensures-mono (λ end st. Loop end st.vars) _ Always o end-IsExec h)

  module _ (body : Block)
      (runs : (st : Evaluator Value) → IsRun body st.vars (run_block py limit body st)) where
    -- The rounds from here on complete those of the whole loop.
    abbrev ForRest :
        (x : Text) (vs : List Value) (vars : Vars Value) → List Value → Evaluator Value → Type 0
    ForRest x vs vars rest now =
        (end : LoopEnd Value) (vars' : Vars Value)
        → Rounds py x body rest now.vars end vars'
        → Rounds py x body vs vars end vars'

    for_round :
        (x : Text) (vs : List Value) (vars : Vars Value) (v : Value) (rest : List Value)
        (now : Evaluator Value)
        → ForRest x vs vars (v ∷ rest) now
        → (sg : Signal Value) (st : Evaluator Value) → Run py body ((x, v) ∷ now.vars) sg st.vars
        → AfterRound
            (ForRest x vs vars rest)
            (λ end st'. Rounds py x body vs vars end st'.vars)
            sg
            st
    for_round x vs vars v rest now h Signal.sentinel st d =
        λ end vars' r. h end vars' (next_item d tt r)
    for_round x vs vars v rest now h Signal.continued st d =
        λ end vars' r. h end vars' (next_item d tt r)
    for_round x vs vars v rest now h Signal.broke st d = h LoopEnd.broken st.vars (last_item d refl)
    for_round x vs vars v rest now h (Signal.returned w) st d =
        h (LoopEnd.answered (Signal.returned w)) st.vars (last_item d refl)

    pub for-IsRounds :
        (x : Text) (left : ℕ) (vs : List Value) (st : Evaluator Value)
        → Ensures
            (λ end st'. Rounds py x body vs st.vars end st'.vars)
            Always
            (for_loop (run_block py limit body) x left vs st)
    unfolding IsRun
    for-IsRounds x left vs st =
        for_loop-Ensures Always (λ end st'. Rounds py x body vs st.vars end st'.vars)
          (run_block py limit body) x (ForRest x vs st.vars)
          (λ now h. h LoopEnd.exhausted now.vars items_over) (λ v rest now h. tt)
          (λ v rest now h.
            Ensures-mono (λ sg st'. Run py body ((x, v) ∷ now.vars) sg st'.vars) _ Always
              (run_block py limit body (set_var x v now)) (for_round x vs st.vars v rest now h)
              (runs (set_var x v now)))
          left vs st (λ end vars' r. r)

    abbrev WhileRest : (test : Expr) (vars : Vars Value) → Evaluator Value → Type 0
    WhileRest test vars now =
        (end : LoopEnd Value) (vars' : Vars Value)
        → Repeats py test body now.vars end vars'
        → Repeats py test body vars end vars'

    while_round :
        (test : Expr) (vars : Vars Value) (now : Evaluator Value)
        → WhileRest test vars now
        → eval_test py test now.vars ≡ ok true
        → (sg : Signal Value) (st : Evaluator Value) → Run py body now.vars sg st.vars
        → AfterRound (WhileRest test vars) (λ end st'. Repeats py test body vars end st'.vars) sg st
    while_round test vars now h go Signal.sentinel st d =
        λ end vars' r. h end vars' (next_round go d tt r)
    while_round test vars now h go Signal.continued st d =
        λ end vars' r. h end vars' (next_round go d tt r)
    while_round test vars now h go Signal.broke st d =
        h LoopEnd.broken st.vars (last_round go d refl)
    while_round test vars now h go (Signal.returned w) st d =
        h (LoopEnd.answered (Signal.returned w)) st.vars (last_round go d refl)

    pub while-IsRepeats :
        (test : Expr) (left : ℕ) (st : Evaluator Value)
        → Ensures
            (λ end st'. Repeats py test body st.vars end st'.vars)
            Always
            (while_loop (eval_test py test) (run_block py limit body) left st)
    unfolding IsRun
    while-IsRepeats test left st =
        while_loop-Ensures Always (λ end st'. Repeats py test body st.vars end st'.vars)
          (run_block py limit body) (eval_test py test) (WhileRest test st.vars) (λ e now h k. tt)
          (λ now h over. h LoopEnd.exhausted now.vars (test_fails over)) (λ now h. tt)
          (λ now h go.
            Ensures-mono (λ sg st'. Run py body now.vars sg st'.vars) _ Always
              (run_block py limit body now) (while_round test st.vars now h go) (runs now))
          left st (λ end vars' r. r)
