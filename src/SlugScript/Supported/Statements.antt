-- ===== src/SlugScript/Supported/Statements.antt =====
-- The statements that validation lets through raise only errors of a supported script, and so does a
-- compiled script (slug_script.py).
use poly_strategy.Prelude.{◌≡◌, subst, not, Option, none, List, arith, Text, either_way}
use poly_strategy.SlugScript.Syntax.{BinOp, Expr, Stmt, Block, TopLevel}
use poly_strategy.SlugScript.Validation.{
  Refusal, refuse_if, is_private, is_forbidden, is_augmented_supported, validate_expr,
  validate_stmt, validate_block,
}
use poly_strategy.SlugScript.Values.{Python}
use poly_strategy.SlugScript.Machine.{
  Error, Result, ok, raised, Signal, Evaluator, Outcome, Limits, limits, with_value, for_loop,
  while_loop,
}
use poly_strategy.SlugScript.Evaluation.{augment, eval_test, exec_stmt, run_block}
use poly_strategy.SlugScript.Program.{
  Compiled, validated, compile_function, compile_tree, compile_parsed, compile, as_answer,
  new_evaluator, slug_of, evaluate,
}
use poly_strategy.SlugScript.Ensures.{
  Ensures, with_value-Ensures, then_next-Ensures, ticked-Ensures, keeps_loop, keeps_for,
  keeps_while,
}
use poly_strategy.SlugScript.Supported.{
  IsSupported, Supports, bind-Supports, or_raise-Supports, andalso_none, eval-Supports,
  eval_maybe-Supports,
}

raised-IsSupported {ℓ} :
    {A : Type ℓ} (r : Result A) (e : Error) → Supports r → r ≡ raised e → IsSupported e
unfolding Supports
raised-IsSupported (ok a) e h k = absurd (cc)
raised-IsSupported (raised d) e h k = subst Supports k h

module _ (py : Python) (limit : Limits) where
  open py use {Value}

  abbrev Any : Evaluator Value → Type 0
  Any st = Unit

  abbrev IsFine : Error → Evaluator Value → Type 0
  IsFine e st = IsSupported e

  RunsSupported : Outcome Value → Type 0
  RunsSupported = Ensures (λ _. Any) IsFine

  then_supported {ℓ} :
      {A : Type ℓ} (r : Result A) (st : Evaluator Value) (next : A → Outcome Value)
      → Supports r
      → ((a : A) → RunsSupported (next a))
      → RunsSupported (with_value r st next)
  unfolding RunsSupported
  then_supported r st next h k =
      with_value-Ensures IsFine (λ _. Any) r st next (λ e. raised-IsSupported r e h) (λ a _. k a)

  augment-RunsSupported :
      (x : Text) (op : BinOp) (v : Value) (st : Evaluator Value)
      → RunsSupported (augment py x op v st)
  unfolding augment RunsSupported Ensures
  augment-RunsSupported x BinOp.add v st = then_supported _ st _ (or_raise-Supports _) (λ _. tt)
  augment-RunsSupported x BinOp.sub v st = then_supported _ st _ (or_raise-Supports _) (λ _. tt)
  augment-RunsSupported x BinOp.mult v st = then_supported _ st _ (or_raise-Supports _) (λ _. tt)
  augment-RunsSupported x BinOp.modulo v st = tt
  augment-RunsSupported x BinOp.other v st = tt

  test-Supports :
      (e : Expr) (st : Evaluator Value) → validate_expr e ≡ none → Supports (eval_test py e st.vars)
  unfolding eval_test Supports
  test-Supports e st h = bind-Supports _ _ (eval-Supports py st.vars e h) (λ v. tt)

  mutual
    unfolding exec_stmt validate_stmt RunsSupported Ensures

    exec_stmt-RunsSupported :
        (s : Stmt) (st : Evaluator Value)
        → validate_stmt s ≡ none
        → RunsSupported (exec_stmt py limit s st)
    exec_stmt-RunsSupported (Stmt.return_of e) st h =
        then_supported _ st _ (eval_maybe-Supports py st.vars e h) (λ _. tt)
    exec_stmt-RunsSupported (Stmt.if_else test body orelse) st h =
        let (first, rest) = andalso_none _ _ h in
        let (second, third) = andalso_none _ _ rest in
        then_supported _ st _ (test-Supports test st first) λ b.
          either_way RunsSupported b _ _ (run_block-RunsSupported body st second)
            (run_block-RunsSupported orelse st third)
    exec_stmt-RunsSupported (Stmt.assign x e) st h =
        let (_, rest) = andalso_none (refuse_if (is_private x) Refusal.underscore_name) _ h in
        let (_, valid) =
          andalso_none (refuse_if (is_forbidden x) Refusal.forbidden_variable) _ rest in
        then_supported _ st _ (eval-Supports py st.vars e valid) (λ _. tt)
    exec_stmt-RunsSupported (Stmt.aug_assign x op e) st h =
        let (_, valid) =
          andalso_none (refuse_if (not (is_augmented_supported op)) Refusal.augmented_operator) _
            h in
        then_supported _ st _ (eval-Supports py st.vars e valid)
          (λ v. augment-RunsSupported x op v st)
    exec_stmt-RunsSupported (Stmt.for_in x e body orelse) st h =
        let (_, rest) = andalso_none (refuse_if (is_private x) Refusal.underscore_name) _ h in
        let (iter, rest') = andalso_none _ _ rest in
        let (inner, outer) = andalso_none _ _ rest' in
        then_supported _ st _
          (bind-Supports _ _ (eval-Supports py st.vars e iter)
            (λ v. or_raise-Supports (py.items v)))
          λ vs.
            keeps_loop Any IsFine (for_loop (run_block py limit body) x limit.iterations vs st)
              (run_block py limit orelse)
              (keeps_for Any IsFine (run_block py limit body)
                (λ st' _. run_block-RunsSupported body st' inner) x (λ v st' _. tt) (λ st' _. tt)
                limit.iterations vs st tt)
              (λ st' _. run_block-RunsSupported orelse st' outer)
    exec_stmt-RunsSupported (Stmt.while test body orelse) st h =
        let (first, rest) = andalso_none _ _ h in
        let (inner, outer) = andalso_none _ _ rest in
        keeps_loop Any IsFine
          (while_loop (eval_test py test) (run_block py limit body) limit.iterations st)
          (run_block py limit orelse)
          (keeps_while Any IsFine (run_block py limit body)
            (λ st' _. run_block-RunsSupported body st' inner) (eval_test py test)
            (λ e st' _ k. raised-IsSupported _ e (test-Supports test st' first) k) (λ st' _. tt)
            limit.iterations st tt)
          (λ st' _. run_block-RunsSupported orelse st' outer)
    exec_stmt-RunsSupported Stmt.break st h = tt
    exec_stmt-RunsSupported Stmt.continue st h = tt
    exec_stmt-RunsSupported Stmt.pass st h = tt
    exec_stmt-RunsSupported (Stmt.expression e) st h =
        then_supported _ st _ (eval-Supports py st.vars e h) (λ _. tt)
    exec_stmt-RunsSupported Stmt.assign_other st h = tt
    exec_stmt-RunsSupported Stmt.aug_assign_other st h = tt
    exec_stmt-RunsSupported Stmt.for_other st h = tt
    exec_stmt-RunsSupported Stmt.other st h = tt

    run_block-RunsSupported :
        (b : Block) (st : Evaluator Value)
        → validate_block b ≡ none
        → RunsSupported (run_block py limit b st)
    run_block-RunsSupported Block.end st h = tt
    run_block-RunsSupported (Block.step s rest) st h =
        let (first, later) = andalso_none _ _ h in
        then_next-Ensures IsFine (λ _. Any) (λ _. Any) _ (run_block py limit rest)
          (ticked-Ensures IsFine (λ _. Any) limit (exec_stmt py limit s) st (λ _. tt)
            (λ low. exec_stmt-RunsSupported s _ first))
          (λ st' _. run_block-RunsSupported rest st' later) (λ s' st' _ _. tt)

  run_Supports : (o : Outcome Value) → RunsSupported o → Supports o.0
  unfolding RunsSupported Ensures Supports
  run_Supports (ok s, st) h = tt
  run_Supports (raised e, st) h = h

compile-validated :
    (parse : Text → Option (List TopLevel)) (source : Text) (b : Block)
    → compile parse source ≡ Compiled.program b
    → validate_block b ≡ none
unfolding compile compile_parsed compile_tree compile_function validated
compile-validated parse source b h = ground arith

as_answer-Supports : (py : Python) (s : Signal py.Value) → Supports (as_answer py s)
unfolding as_answer Supports
as_answer-Supports py Signal.sentinel = tt
as_answer-Supports py Signal.broke = tt
as_answer-Supports py Signal.continued = tt
as_answer-Supports py (Signal.returned v) = tt

-- A script that compiles never raises for a node, a comparison or a function that the evaluator does not
-- know, whatever the values do: its errors are the limits, a variable without a value, a missing return
-- and exceptions of Python's.
pub compiled-IsSupported :
    (py : Python) (parse : Text → Option (List TopLevel)) (source : Text) (b : Block)
    (raw_slug : Option Text) (e : Error)
    → compile parse source ≡ Compiled.program b
    → evaluate py b raw_slug ≡ raised e
    → IsSupported e
unfolding evaluate
compiled-IsSupported py parse source b raw_slug e h =
    raised-IsSupported (evaluate py b raw_slug) e (
      bind-Supports _ _
        (run_Supports py limits _ (
          run_block-RunsSupported py limits b (new_evaluator py (slug_of raw_slug))
            (compile-validated parse source b h)))
        (as_answer-Supports py))
