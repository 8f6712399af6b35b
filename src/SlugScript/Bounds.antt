-- ===== src/SlugScript/Bounds.antt =====
-- A script runs a bounded number of statements (slug_script.py).
use poly_strategy.Prelude.{◌+◌, ◌≤◌, arith, Text, either_way}
use poly_strategy.SlugScript.Syntax.{BinOp, Stmt, Block}
use poly_strategy.SlugScript.Values.{Python}
use poly_strategy.SlugScript.Machine.{
  Error, Result, ok, raised, Evaluator, Outcome, Limits, with_value, for_loop, while_loop,
}
use poly_strategy.SlugScript.Evaluation.{augment, eval_test, exec_stmt, run_block}
use poly_strategy.SlugScript.Ensures.{
  Ensures, with_value-Ensures, then_next-Ensures, ticked-Ensures, keeps_loop, keeps_for,
  keeps_while,
}

module _ (py : Python) (limit : Limits) where
  open py use {Value}

  -- Where statements go on, the limit is not passed; where one raised, by one step at most.
  abbrev IsWithin : Evaluator Value → Type 0
  IsWithin st = st.total_steps ≤ limit.total_steps

  abbrev IsWithinOne : Error → Evaluator Value → Type 0
  IsWithinOne e st = st.total_steps ≤ limit.total_steps + 1

  abbrev StaysWithin : Outcome Value → Type 0
  StaysWithin = Ensures (λ _. IsWithin) IsWithinOne

  then_within {ℓ} :
      {A : Type ℓ} (r : Result A) (st : Evaluator Value) (next : A → Outcome Value)
      → IsWithin st
      → ((a : A) → StaysWithin (next a))
      → StaysWithin (with_value r st next)
  then_within r st next h k =
      with_value-Ensures IsWithinOne (λ _. IsWithin) r st next (λ e _. omega arith) (λ a _. k a)

  augment-StaysWithin :
      (x : Text) (op : BinOp) (v : Value) (st : Evaluator Value)
      → IsWithin st
      → StaysWithin (augment py x op v st)
  unfolding augment Ensures
  augment-StaysWithin x BinOp.add v st h = then_within _ st _ h (λ _. h)
  augment-StaysWithin x BinOp.sub v st h = then_within _ st _ h (λ _. h)
  augment-StaysWithin x BinOp.mult v st h = then_within _ st _ h (λ _. h)
  augment-StaysWithin x BinOp.modulo v st h = h
  augment-StaysWithin x BinOp.other v st h = h

  mutual
    unfolding exec_stmt Ensures

    exec_stmt-StaysWithin :
        (s : Stmt) (st : Evaluator Value) → IsWithin st → StaysWithin (exec_stmt py limit s st)
    exec_stmt-StaysWithin (Stmt.return_of e) st h = then_within _ st _ h (λ _. h)
    exec_stmt-StaysWithin (Stmt.if_else test body orelse) st h = then_within _ st _ h λ b.
        either_way StaysWithin b _ _ (run_block-StaysWithin body st h)
          (run_block-StaysWithin orelse st h)
    exec_stmt-StaysWithin (Stmt.assign x e) st h = then_within _ st _ h (λ _. h)
    exec_stmt-StaysWithin (Stmt.aug_assign x op e) st h =
        then_within _ st _ h (λ v. augment-StaysWithin x op v st h)
    exec_stmt-StaysWithin (Stmt.for_in x e body orelse) st h = then_within _ st _ h λ vs.
        keeps_loop IsWithin IsWithinOne
          (for_loop (run_block py limit body) x limit.iterations vs st) (run_block py limit orelse)
          (keeps_for IsWithin IsWithinOne (run_block py limit body)
            (λ st' h'. run_block-StaysWithin body st' h') x (λ v st' h'. h') (λ st' h'. omega arith)
            limit.iterations vs st h)
          (λ st' h'. run_block-StaysWithin orelse st' h')
    exec_stmt-StaysWithin (Stmt.while test body orelse) st h =
        keeps_loop IsWithin IsWithinOne
          (while_loop (eval_test py test) (run_block py limit body) limit.iterations st)
          (run_block py limit orelse)
          (keeps_while IsWithin IsWithinOne (run_block py limit body)
            (λ st' h'. run_block-StaysWithin body st' h') (eval_test py test)
            (λ e st' h' _. omega arith) (λ st' h'. omega arith) limit.iterations st h)
          (λ st' h'. run_block-StaysWithin orelse st' h')
    exec_stmt-StaysWithin Stmt.break st h = h
    exec_stmt-StaysWithin Stmt.continue st h = h
    exec_stmt-StaysWithin Stmt.pass st h = h
    exec_stmt-StaysWithin (Stmt.expression e) st h = then_within _ st _ h (λ _. h)
    exec_stmt-StaysWithin Stmt.assign_other st h = omega arith
    exec_stmt-StaysWithin Stmt.aug_assign_other st h = omega arith
    exec_stmt-StaysWithin Stmt.for_other st h = omega arith
    exec_stmt-StaysWithin Stmt.other st h = h

    run_block-StaysWithin :
        (b : Block) (st : Evaluator Value) → IsWithin st → StaysWithin (run_block py limit b st)
    run_block-StaysWithin Block.end st h = h
    run_block-StaysWithin (Block.step s rest) st h =
        then_next-Ensures IsWithinOne (λ _. IsWithin) (λ _. IsWithin) _ (run_block py limit rest)
          (ticked-Ensures IsWithinOne (λ _. IsWithin) limit (exec_stmt py limit s) st
            (λ _. omega arith) (λ low. exec_stmt-StaysWithin s _ (ground arith)))
          (λ st' h'. run_block-StaysWithin rest st' h') (λ s st' _ h'. h')

  last_step : (o : Outcome Value) → StaysWithin o → o.1.total_steps ≤ limit.total_steps + 1
  unfolding Ensures
  last_step (ok s, st) h = omega arith
  last_step (raised e, st) h = h

-- Whatever a script does with whatever values: from an evaluator within the limit, a run counts at most
-- one step more than the limit.
pub steps_are_bounded :
    (py : Python) (limit : Limits) (b : Block) (st : Evaluator py.Value)
    → st.total_steps ≤ limit.total_steps
    → (run_block py limit b st).1.total_steps ≤ limit.total_steps + 1
steps_are_bounded py limit b st h =
    last_step py limit (run_block py limit b st) (run_block-StaysWithin py limit b st h)
