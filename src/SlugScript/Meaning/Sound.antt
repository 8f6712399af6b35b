-- ===== src/SlugScript/Meaning/Sound.antt =====
-- What the evaluator answers follows from the semantics of the statements (slug_script.py).
use poly_strategy.Prelude.{
  ◌+◌, ◌≡◌, Bool, true, false, not, ◌&&◌, if◌then◌else◌, Option, none, some, pos, sym, ap, refl,
  ◌∙◌, ◌∷◌, Text,
}
use poly_strategy.SlugScript.Syntax.{BinOp, Expr, Stmt, Block}
use poly_strategy.SlugScript.Validation.{
  Refusal, refuse_if, is_private, is_augmented_supported, validate_expr, validate_stmt,
  validate_block,
}
use poly_strategy.SlugScript.Values.{Python}
use poly_strategy.SlugScript.Machine.{
  Error, ok, raised, ◌>>=◌, or_raise, Signal, Evaluator, Outcome, Limits, limits, Vars, get_var,
  with_value, set_var, for_loop, while_loop,
}
use poly_strategy.SlugScript.Evaluation.{
  var_or_zero, augment, eval, eval_test, exec_stmt, run_block,
}
use poly_strategy.SlugScript.Program.{as_answer, new_evaluator, slug_of, evaluate}
use poly_strategy.SlugScript.Ensures.{Ensures, Ensures-mono, then_next-Ensures, ticked-Ensures}
use poly_strategy.SlugScript.Supported.{andalso_none, refuse_unless}
use poly_strategy.SlugScript.Meaning.{
  Exec, returns, takes_body, takes_else, assigns, augments, augments_unset, iterates, repeats,
  breaks, continues, passes, evaluates, Run, falls_through, then_runs, breaks_off, Rounds, Repeats,
  jumps_block, has_plain_else, plain_elses,
}
use poly_strategy.SlugScript.Meaning.Plain.{Run-IsPlain}
use poly_strategy.SlugScript.Meaning.Loops.{
  and_true, not_eq, items_of, Always, IsExec, IsRun, with_answer, ends-IsExec, for-IsRounds,
  while-IsRepeats,
}

module _ (py : Python) (limit : Limits) where
  open py use {Value}

  operated :
      (x : Text) (op : BinOp) (e : Expr) (v : Value) (st : Evaluator Value)
      → eval py st.vars e ≡ ok v
      → IsExec py limit (Stmt.aug_assign x op e) st.vars (
          with_value
            (or_raise Error.python (py.operate op (var_or_zero py x st.vars) v))
            st
            λ w. (ok Signal.sentinel, set_var x w st))
  unfolding IsExec Ensures var_or_zero
  operated x op e v st h = with_answer py limit (Stmt.aug_assign x op e) st.vars _ st _ λ w k.
      taken (get_var x st.vars) refl w
        (of_or_raise (py.operate op (var_or_zero py x st.vars) v) w k)
    where
      zero_of : get_var x st.vars ≡ none → var_or_zero py x st.vars ≡ py.integer (pos 0)
      zero_of unset = rw (unset, var_or_zero) refl

      value_of : (old : Value) → get_var x st.vars ≡ some old → var_or_zero py x st.vars ≡ old
      value_of old set = rw (set, var_or_zero) refl

      taken :
          (o : Option Value)
          → get_var x st.vars ≡ o
          → (w : Value) → py.operate op (var_or_zero py x st.vars) v ≡ some w
          → Exec py (Stmt.aug_assign x op e) st.vars Signal.sentinel ((x, w) ∷ st.vars)
      taken none unset w k =
          augments_unset h unset (sym (ap (λ a. py.operate op a v) (zero_of unset)) ∙ k)
      taken (some old) set w k =
          augments h set (sym (ap (λ a. py.operate op a v) (value_of old set)) ∙ k)

      of_or_raise : (o : Option Value) (w : Value) → or_raise Error.python o ≡ ok w → o ≡ some w
      of_or_raise none w k = absurd (cc)
      of_or_raise (some u) w k = cc

  augment-IsExec :
      (x : Text) (op : BinOp) (e : Expr) (v : Value) (st : Evaluator Value)
      → is_augmented_supported op ≡ true
      → eval py st.vars e ≡ ok v
      → IsExec py limit (Stmt.aug_assign x op e) st.vars (augment py x op v st)
  unfolding augment
  augment-IsExec x BinOp.add e v st k h = operated x BinOp.add e v st h
  augment-IsExec x BinOp.sub e v st k h = operated x BinOp.sub e v st h
  augment-IsExec x BinOp.mult e v st k h = operated x BinOp.mult e v st h
  augment-IsExec x BinOp.modulo e v st k h = absurd (cc)
  augment-IsExec x BinOp.other e v st k h = absurd (cc)

  -- The branch of an `if` that the test chooses.
  branch-IsExec :
      (test : Expr) (body orelse : Block) (st : Evaluator Value) (b : Bool)
      → eval_test py test st.vars ≡ ok b
      → IsRun py limit body st.vars (run_block py limit body st)
      → IsRun py limit orelse st.vars (run_block py limit orelse st)
      → IsExec py limit
          (Stmt.if_else test body orelse)
          st.vars
          (if b then run_block py limit body st else run_block py limit orelse st)
  unfolding IsExec IsRun
  branch-IsExec test body orelse st true h k l =
      Ensures-mono (λ sg st'. Run py body st.vars sg st'.vars) _ (Always py limit) _
        (λ sg st' d. takes_body h d) k
  branch-IsExec test body orelse st false h k l =
      Ensures-mono (λ sg st'. Run py orelse st.vars sg st'.vars) _ (Always py limit) _
        (λ sg st' d. takes_else h d) l

  mutual
    unfolding exec_stmt validate_stmt has_plain_else IsExec IsRun Ensures

    exec_stmt-IsExec :
        (s : Stmt) (st : Evaluator Value)
        → validate_stmt s ≡ none
        → has_plain_else s ≡ true
        → IsExec py limit s st.vars (exec_stmt py limit s st)
    exec_stmt-IsExec (Stmt.return_of e) st h p =
        with_answer py limit (Stmt.return_of e) st.vars _ st _ (λ v k. returns k)
    exec_stmt-IsExec (Stmt.if_else test body orelse) st h p =
        let (_, rest) = andalso_none (validate_expr test) _ h in
        let (second, third) = andalso_none _ _ rest in
        let (inner, outer) = and_true (plain_elses body) (plain_elses orelse) p in
        with_answer py limit (Stmt.if_else test body orelse) st.vars _ st _ λ b k.
          branch-IsExec test body orelse st b k (run_block-IsRun body st second inner)
            (run_block-IsRun orelse st third outer)
    exec_stmt-IsExec (Stmt.assign x e) st h p =
        with_answer py limit (Stmt.assign x e) st.vars _ st _ (λ v k. assigns k)
    exec_stmt-IsExec (Stmt.aug_assign x op e) st h p =
        let (known, _) =
          andalso_none (refuse_if (not (is_augmented_supported op)) Refusal.augmented_operator) _
            h in
        with_answer py limit (Stmt.aug_assign x op e) st.vars _ st _
          λ v k. augment-IsExec x op e v st (refuse_unless (is_augmented_supported op) _ known) k
    exec_stmt-IsExec (Stmt.for_in x e body orelse) st h p =
        let (_, rest) = andalso_none (refuse_if (is_private x) Refusal.underscore_name) _ h in
        let (_, rest') = andalso_none (validate_expr e) _ rest in
        let (second, third) = andalso_none _ _ rest' in
        let (plain, both) =
          and_true (not (jumps_block orelse)) (plain_elses body && plain_elses orelse) p in
        let (inner, outer) = and_true (plain_elses body) (plain_elses orelse) both in
        with_answer py limit (Stmt.for_in x e body orelse) st.vars _ st _ λ vs k.
          let (v, read, listed) = items_of (eval py st.vars e) py.items vs k in
          ends-IsExec py limit (Stmt.for_in x e body orelse) st.vars orelse
            (Rounds py x body vs st.vars) (λ end vars₁ vars₂ sg r d. iterates read listed r d)
            (not_eq (jumps_block orelse) plain) (λ st'. run_block-IsRun orelse st' third outer)
            (for_loop (run_block py limit body) x limit.iterations vs st)
            (for-IsRounds py limit body (λ st'. run_block-IsRun body st' second inner) x
              limit.iterations vs st)
    exec_stmt-IsExec (Stmt.while test body orelse) st h p =
        let (_, rest) = andalso_none (validate_expr test) _ h in
        let (second, third) = andalso_none _ _ rest in
        let (plain, both) =
          and_true (not (jumps_block orelse)) (plain_elses body && plain_elses orelse) p in
        let (inner, outer) = and_true (plain_elses body) (plain_elses orelse) both in
        ends-IsExec py limit (Stmt.while test body orelse) st.vars orelse
          (Repeats py test body st.vars) (λ end vars₁ vars₂ sg r d. repeats r d)
          (not_eq (jumps_block orelse) plain) (λ st'. run_block-IsRun orelse st' third outer)
          (while_loop (eval_test py test) (run_block py limit body) limit.iterations st)
          (while-IsRepeats py limit body (λ st'. run_block-IsRun body st' second inner) test
            limit.iterations st)
    exec_stmt-IsExec Stmt.break st h p = breaks
    exec_stmt-IsExec Stmt.continue st h p = continues
    exec_stmt-IsExec Stmt.pass st h p = passes
    exec_stmt-IsExec (Stmt.expression e) st h p =
        with_answer py limit (Stmt.expression e) st.vars _ st _ (λ v k. evaluates k)
    exec_stmt-IsExec Stmt.assign_other st h p = tt
    exec_stmt-IsExec Stmt.aug_assign_other st h p = tt
    exec_stmt-IsExec Stmt.for_other st h p = tt
    exec_stmt-IsExec Stmt.other st h p = absurd (cc)

    run_block-IsRun :
        (b : Block) (st : Evaluator Value)
        → validate_block b ≡ none
        → plain_elses b ≡ true
        → IsRun py limit b st.vars (run_block py limit b st)
    run_block-IsRun Block.end st h p = falls_through
    run_block-IsRun (Block.step s rest) st h p =
        let (first, later) = andalso_none _ _ h in
        let (inner, outer) = and_true (has_plain_else s) (plain_elses rest) p in
        let P : Signal Value → Evaluator Value → Type 0 = λ sg st'. Exec py s st.vars sg st'.vars in
        then_next-Ensures (Always py limit) P
          (λ sg st'. Run py (Block.step s rest) st.vars sg st'.vars) _ (run_block py limit rest)
          (ticked-Ensures (Always py limit) P limit (exec_stmt py limit s) st (λ _. tt)
            (λ _. exec_stmt-IsExec s (record st { total_steps = st.total_steps + 1 }) first inner))
          (λ st' d.
            Ensures-mono (λ sg st''. Run py rest st'.vars sg st''.vars) _ (Always py limit) _
              (λ sg st'' r. then_runs d r) (run_block-IsRun rest st' later outer))
          (λ sg st' j d. breaks_off d j)

-- The answer of a run without a jump that reaches out of the script.
answered :
    (py : Python) (b : Block) (vars : Vars py.Value) (o : Outcome py.Value) (answer : Bool)
    → jumps_block b ≡ false
    → IsRun py limits b vars o
    → (o.0 >>= as_answer py) ≡ ok answer
    → (v : py.Value) × (vars' : Vars py.Value) × Run py b vars (Signal.returned v) vars'
      × (py.truth v ≡ answer)
unfolding IsRun Ensures as_answer
answered py b vars (ok Signal.sentinel, st) answer j d h = absurd (cc)
answered py b vars (ok Signal.broke, st) answer j d h = absurd (Run-IsPlain py d j)
answered py b vars (ok Signal.continued, st) answer j d h = absurd (Run-IsPlain py d j)
answered py b vars (ok (Signal.returned v), st) answer j d h = (v, st.vars, d, cc)
answered py b vars (raised e, st) answer j d h = absurd (cc)

-- What a validated script answers is the truth of a value that its statements return, from the slug, in
-- the semantics of Meaning, which has no limit on steps or rounds. No jump of the script may reach out of
-- it or out of the `else` of a loop.
pub evaluate_sound :
    (py : Python) (b : Block) (raw_slug : Option Text) (answer : Bool)
    → validate_block b ≡ none
    → jumps_block b ≡ false
    → plain_elses b ≡ true
    → evaluate py b raw_slug ≡ ok answer
    → (v : py.Value) × (vars : Vars py.Value) × Run py b
        (new_evaluator py (slug_of raw_slug)).vars
        (Signal.returned v)
        vars
      × (py.truth v ≡ answer)
unfolding evaluate
evaluate_sound py b raw_slug answer h j p =
    let st = new_evaluator py (slug_of raw_slug) in
    answered py b st.vars (run_block py limits b st) answer j (run_block-IsRun py limits b st h p)
