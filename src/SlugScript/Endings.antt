-- ===== src/SlugScript/Endings.antt =====
-- Loops without an end, and jumps outside of every loop (slug_script.py).
use poly_strategy.Prelude.{◌≡◌, refl, true, false, Option, Text}
use poly_strategy.SlugScript.Syntax.{Expr, Stmt, Block}
use poly_strategy.SlugScript.Validation.{validate_stmt, validate_block}
use poly_strategy.SlugScript.Values.{Python}
use poly_strategy.SlugScript.Machine.{
  Result, ok, raised, Signal, Evaluator, LoopOutcome, Limits, Vars, then_next, while_loop,
  after_loop,
}
use poly_strategy.SlugScript.Evaluation.{eval_test, exec_stmt, run_block}
use poly_strategy.SlugScript.Program.{evaluate}
use poly_strategy.SlugScript.Ensures.{Ensures, Ensures-mono, AfterRound, while_loop-Ensures}
use poly_strategy.SlugScript.Meaning.{GoesOn}

-- An outcome that raises.
abbrev pub Raises {ℓ} : {A : Type ℓ} → Result A → Type 0
Raises (ok a) = ⊥
Raises (raised e) = Unit

module _ (py : Python) (limit : Limits) (test : Expr) (body orelse : Block)
    (always : (vars : Vars py.Value) → eval_test py test vars ≡ ok true)
    (goes_on : (st : Evaluator py.Value)
      → Ensures (λ sg st'. GoesOn sg) (λ e st'. Unit) (run_block py limit body st)) where
  next_round_follows :
      (sg : Signal py.Value) (st : Evaluator py.Value)
      → GoesOn sg
      → AfterRound (λ st'. Unit) (λ end st'. ⊥) sg st
  next_round_follows Signal.sentinel st h = tt
  next_round_follows Signal.continued st h = tt
  next_round_follows Signal.broke st h = h
  next_round_follows (Signal.returned v) st h = h

  loop-Raises :
      (o : LoopOutcome py.Value)
      → Ensures (λ end st. ⊥) (λ e st. Unit) o
      → Raises (after_loop o (run_block py limit orelse)).0
  unfolding Ensures after_loop
  loop-Raises (ok end, st) h = absurd h
  loop-Raises (raised e, st) h = tt

  -- A `while` whose test is always true and whose body never leaves the loop ends with an error, from
  -- every state of the evaluator.
  pub endless_loop-Raises :
      (st : Evaluator py.Value) → Raises (exec_stmt py limit (Stmt.while test body orelse) st).0
  unfolding exec_stmt
  endless_loop-Raises st =
      loop-Raises (while_loop (eval_test py test) (run_block py limit body) limit.iterations st) (
        while_loop-Ensures (λ e st'. Unit) (λ end st'. ⊥) (run_block py limit body)
          (eval_test py test) (λ st'. Unit) (λ e st' _ _. tt) (λ st' _ k. no_end st' k)
          (λ st' _. tt)
          (λ st' _ _.
            Ensures-mono (λ sg st''. GoesOn sg) _ (λ e st''. Unit) (run_block py limit body st')
              next_round_follows (goes_on st'))
          limit.iterations st tt)
    where
      no_end : (st' : Evaluator py.Value) → eval_test py test st'.vars ≡ ok false → ⊥
      no_end st' k = cc (always st'.vars)

-- A script that begins with a `break` or `continue` passes validation if the rest does, and answers true
-- for every slug.
pub stray_jump_includes :
    (py : Python) (rest : Block) (raw_slug : Option Text)
    → (validate_block (Block.step Stmt.break rest) ≡ validate_block rest)
      × (validate_block (Block.step Stmt.continue rest) ≡ validate_block rest)
      × (evaluate py (Block.step Stmt.break rest) raw_slug ≡ ok true)
      × (evaluate py (Block.step Stmt.continue rest) raw_slug ≡ ok true)
unfolding validate_stmt evaluate exec_stmt then_next
stray_jump_includes py rest raw_slug = (refl, refl, refl, refl)
