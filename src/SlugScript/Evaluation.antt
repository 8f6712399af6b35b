-- ===== src/SlugScript/Evaluation.antt =====
-- `_Evaluator` of slug_script.py.
--
-- An expression only reads the variables, so `eval` takes them and gives a value or an error; a statement
-- takes the evaluator and leaves it changed, also where it raises. The counters of the loops run down
-- from the limit.
use poly_strategy.Prelude.{
  Bool, true, false, not, if◌then◌else◌, none, some, List, [], ◌∷◌, pos, Text, codes, lower,
  starts_with, occurs_in, any_in, map,
}
use mathlib.Core.List.{reverse}
use poly_strategy.SlugScript.Syntax.{
  UnaryOp, BinOp, CompareOp, Expr, Exprs, MaybeExpr, Comparisons, Stmt, Block,
}
use poly_strategy.SlugScript.Validation.{same_text, is_one_of, helpers, is_builtin}
use poly_strategy.SlugScript.Values.{Python}
use poly_strategy.SlugScript.Machine.{
  Error, Result, ◌>>=◌, or_raise, Signal, Vars, Evaluator, Limits, Outcome, get_var, set_var,
  with_value, then_next, ticked, for_loop, while_loop, after_loop, ok, raised,
}

module _ (py : Python) where
  open py use {Value}

  -- `str(v).lower()`
  abbrev lowered : Value → Text
  lowered v = lower (py.str v)

  -- The helper functions of `_call_func`, with more arguments than two ignored as the code does.
  unfoldable pub call_helper : (func : Text) → (first second : Value) → Result Value
  unfolding same_text starts_with occurs_in any_in
  call_helper func first second =
      if same_text func (codes "contains")
      then ok (py.boolean (occurs_in (lowered second) (lowered first)))
      else if same_text func (codes "starts_with")
      then ok (py.boolean (starts_with (lowered second) (lowered first)))
      else if same_text func (codes "ends_with")
      then ok (py.boolean (starts_with (reverse (lowered second)) (reverse (lowered first))))
      else if same_text func (codes "contains_any")
      then (do
        vs ← or_raise Error.python (py.items second)
        ok (py.boolean (any_in (map lowered vs) (lowered first))))
      else if same_text func (codes "matches")
      then (do
        found ← or_raise Error.python (py.search (py.str second) (py.str first))
        ok (py.boolean found))
      else raised (Error.unknown_function func)

  unfoldable pub call_with : (func : Text) → List Value → Result Value
  unfolding call_helper
  call_with func (first ∷ second ∷ rest) = call_helper func first second
  call_with func args =
      if is_one_of func helpers then raised Error.python else raised (Error.unknown_function func)

  -- `_call_func`
  unfoldable pub call_func : (func : Text) → List Value → Result Value
  unfolding call_with is_builtin
  call_func func args =
      if is_builtin func then or_raise Error.python (py.builtin func args) else call_with func args

  -- `ast.Name`: a variable, or one of the three constants.
  unfoldable pub eval_name : Vars Value → Text → Result Value
  unfolding get_var same_text
  eval_name vars x = elim (get_var x vars) [
    | some v ↦ ok v
    | none ↦
        if same_text x (codes "True")
        then ok (py.boolean true)
        else if same_text x (codes "False")
        then ok (py.boolean false)
        else if same_text x (codes "None")
        then ok py.none_value
        else raised (Error.undefined x)
  ]

  unfoldable pub eval_unary : UnaryOp → Value → Result Value
  eval_unary UnaryOp.negation v = ok (py.boolean (not (py.truth v)))
  eval_unary UnaryOp.minus v = or_raise Error.python (py.negate v)
  eval_unary UnaryOp.other v = raised Error.expression

  unfoldable pub eval_binary : BinOp → (left right : Value) → Result Value
  eval_binary BinOp.other left right = raised Error.expression
  eval_binary op left right = or_raise Error.python (py.operate op left right)

  unfoldable pub eval_compare_op : CompareOp → (left right : Value) → Result Bool
  eval_compare_op CompareOp.other left right = raised Error.operator
  eval_compare_op op left right = or_raise Error.python (py.compare op left right)

  unfoldable mutual
    unfolding call_func eval_name eval_unary eval_binary eval_compare_op

    -- `_eval`
    pub eval : Vars Value → Expr → Result Value
    eval vars (Expr.constant c) = ok (py.constant c)
    eval vars (Expr.name x) = eval_name vars x
    eval vars (Expr.bool_and es) = eval_and vars (py.boolean true) es
    eval vars (Expr.bool_or es) = eval_or vars (py.boolean false) es
    eval vars (Expr.unary op e) = eval vars e >>= eval_unary op
    eval vars (Expr.binary op e f) = do
      left ← eval vars e
      right ← eval vars f
      eval_binary op left right
    eval vars (Expr.compare e cs) = do
      left ← eval vars e
      result ← eval_compare vars left cs
      ok (py.boolean result)
    eval vars (Expr.call f es has_keywords) = do args ← eval_all vars es; call_func f args
    eval vars (Expr.call_method e attr es has_keywords) = do
      obj ← eval vars e
      method ← or_raise Error.python (py.getattr obj attr)
      args ← eval_all vars es
      or_raise Error.python (py.apply method args)
    eval vars Expr.call_other = raised Error.expression
    eval vars (Expr.attribute e attr) = do
      obj ← eval vars e
      or_raise Error.python (py.getattr obj attr)
    eval vars (Expr.subscript e i) = do
      obj ← eval vars e
      idx ← eval vars i
      or_raise Error.python (py.get_item obj idx)
    eval vars (Expr.slice e l u s) = do
      obj ← eval vars e
      lower ← eval_maybe vars l
      upper ← eval_maybe vars u
      step ← eval_maybe vars s
      or_raise Error.python (py.get_slice obj lower upper step)
    eval vars (Expr.list es) = do vs ← eval_all vars es; ok (py.list vs)
    eval vars (Expr.tuple es) = do vs ← eval_all vars es; ok (py.tuple vs)
    eval vars (Expr.if_expr test body orelse) =
        let taken = eval vars body in
        let other = eval vars orelse in eval vars test >>= λ v. if py.truth v then taken else other
    eval vars Expr.other = raised Error.expression

    pub eval_all : Vars Value → Exprs → Result (List Value)
    eval_all vars Exprs.nil = ok []
    eval_all vars (Exprs.cons e es) = do v ← eval vars e; vs ← eval_all vars es; ok (v ∷ vs)

    -- The loop of `and` over its values, from the latest result.
    pub eval_and : Vars Value → (result : Value) → Exprs → Result Value
    eval_and vars result Exprs.nil = ok result
    eval_and vars result (Exprs.cons e es) =
        eval vars e >>= λ v. let rest = eval_and vars v es in if py.truth v then rest else ok v

    pub eval_or : Vars Value → (result : Value) → Exprs → Result Value
    eval_or vars result Exprs.nil = ok result
    eval_or vars result (Exprs.cons e es) =
        eval vars e >>= λ v. let rest = eval_or vars v es in if py.truth v then ok v else rest

    -- The loop over a chain of comparisons.
    pub eval_compare : Vars Value → (left : Value) → Comparisons → Result Bool
    eval_compare vars left Comparisons.done = ok true
    eval_compare vars left (Comparisons.comparison op e rest) = do
      right ← eval vars e
      result ← eval_compare_op op left right
      let further = eval_compare vars right rest
      if result then further else ok false

    -- A bound of a slice, None if it is left out.
    pub eval_maybe : Vars Value → MaybeExpr → Result Value
    eval_maybe vars MaybeExpr.absent = ok py.none_value
    eval_maybe vars (MaybeExpr.present e) = eval vars e

  -- The truth of a test.
  unfoldable pub eval_test : Expr → Vars Value → Result Bool
  unfolding eval
  eval_test e vars = do v ← eval vars e; ok (py.truth v)

  -- `self._vars.get(name, 0)`
  unfoldable pub var_or_zero : Text → Vars Value → Value
  unfolding get_var
  var_or_zero x vars = elim (get_var x vars) [ some v ↦ v | none ↦ py.integer (pos 0) ]

  -- `ast.AugAssign`; an operator that it does not know leaves the variable alone.
  unfoldable pub augment : Text → BinOp → Value → Evaluator Value → Outcome Value
  unfolding var_or_zero
  augment x BinOp.modulo v st = (ok Signal.sentinel, st)
  augment x BinOp.other v st = (ok Signal.sentinel, st)
  augment x op v st =
      with_value (or_raise Error.python (py.operate op (var_or_zero x st.vars) v)) st
        λ w. (ok Signal.sentinel, set_var x w st)

  module _ (limit : Limits) where
    unfoldable mutual
      unfolding eval eval_test augment ticked for_loop while_loop

      -- `_exec_stmt` after its tick.
      pub exec_stmt : Stmt → Evaluator Value → Outcome Value
      exec_stmt (Stmt.return_of e) st =
          with_value (eval_maybe st.vars e) st λ v. (ok (Signal.returned v), st)
      exec_stmt (Stmt.if_else test body orelse) st =
          let taken = run_block body st in
          let other = run_block orelse st in
          with_value (eval_test test st.vars) st λ b. if b then taken else other
      exec_stmt (Stmt.assign x e) st =
          with_value (eval st.vars e) st λ v. (ok Signal.sentinel, set_var x v st)
      exec_stmt (Stmt.aug_assign x op e) st = with_value (eval st.vars e) st λ v. augment x op v st
      exec_stmt (Stmt.for_in x e body orelse) st =
          with_value (eval st.vars e >>= λ v. or_raise Error.python (py.items v)) st
            λ vs. after_loop (for_loop (run_block body) x limit.iterations vs st) (run_block orelse)
      exec_stmt (Stmt.while test body orelse) st =
          after_loop (while_loop (eval_test test) (run_block body) limit.iterations st)
            (run_block orelse)
      exec_stmt Stmt.break st = (ok Signal.broke, st)
      exec_stmt Stmt.continue st = (ok Signal.continued, st)
      exec_stmt Stmt.pass st = (ok Signal.sentinel, st)
      exec_stmt (Stmt.expression e) st =
          with_value (eval st.vars e) st λ _. (ok Signal.sentinel, st)
      exec_stmt Stmt.assign_other st = (raised Error.python, st)
      exec_stmt Stmt.aug_assign_other st = (raised Error.python, st)
      exec_stmt Stmt.for_other st = (raised Error.python, st)
      exec_stmt Stmt.other st = (ok Signal.sentinel, st)

      -- `run_block`
      pub run_block : Block → Evaluator Value → Outcome Value
      run_block Block.end st = (ok Signal.sentinel, st)
      run_block (Block.step s rest) st = then_next (ticked limit (exec_stmt s) st) (run_block rest)
