-- ===== src/SlugScript/Machine.antt =====
-- The evaluator of slug_script.py: its state, its results and its loops.
use poly_strategy.Prelude.{
  ℕ, zero, suc, ◌+◌, Bool, true, false, ltb, if◌then◌else◌, Option, none, some, List, [], ◌∷◌, Text,
}
use poly_strategy.SlugScript.Validation.{same_text}

-- `SlugScriptError` by its message, or an exception of Python's.
pub data Error : Type 0 where
  step_limit for_limit while_limit no_return operator expression python : Error
  undefined unknown_function : Text → Error

pub data Result {ℓ} (A : Type ℓ) : Type ℓ where
  ok : A → Result A
  raised : Error → Result A

infixl 5 ◌>>=◌
abbrev pub ◌>>=◌ {ℓ κ} : {A : Type ℓ} {B : Type κ} → Result A → (A → Result B) → Result B
ok a >>= f = f a
raised e >>= f = raised e

abbrev pub or_raise {ℓ} : {A : Type ℓ} → Error → Option A → Result A
or_raise e none = raised e
or_raise e (some a) = ok a

-- What a statement answers: `_SENTINEL`, `_BREAK`, `_CONTINUE` or the value that is returned.
pub data Signal (V : Type 0) : Type 0 where
  sentinel broke continued : Signal V
  returned : V → Signal V

abbrev pub Vars : Type 0 → Type 0
Vars V = List (Text × V)

pub record Evaluator (V : Type 0) : Type 0 where
  pub vars : Vars V
  pub total_steps : ℕ

-- `MAX_ITERATIONS` and `MAX_TOTAL_STEPS`
pub record Limits : Type 0 where
  pub iterations : ℕ
  pub total_steps : ℕ

abbrev pub limits : Limits
limits = record { iterations = 10000; total_steps = 50000 }

abbrev pub Outcome : Type 0 → Type 0
Outcome V = Result (Signal V) × Evaluator V

-- How a loop ends: its test or its items are through, by `break`, or with the body's answer.
pub data LoopEnd (V : Type 0) : Type 0 where
  exhausted broken : LoopEnd V
  answered : Signal V → LoopEnd V

abbrev pub LoopOutcome : Type 0 → Type 0
LoopOutcome V = Result (LoopEnd V) × Evaluator V

module _ {V : Type 0} where
  unfoldable pub get_var : Text → Vars V → Option V
  unfolding same_text
  get_var x [] = none
  get_var x ((y, v) ∷ rest) = if same_text y x then some v else get_var x rest

  -- An assignment hides the earlier ones.
  abbrev pub set_var : Text → V → Evaluator V → Evaluator V
  set_var x v st = record st { vars = (x, v) ∷ st.vars }

  -- A statement that reads an expression first.
  unfoldable pub with_value {ℓ} :
      {A : Type ℓ} → Result A → Evaluator V → (A → Outcome V) → Outcome V
  with_value (ok a) st next = next a
  with_value (raised e) st next = (raised e, st)

  -- The next statement runs after `_SENTINEL`.
  unfoldable pub then_next : Outcome V → (Evaluator V → Outcome V) → Outcome V
  then_next (ok Signal.sentinel, st) next = next st
  then_next o next = o

  -- `_tick`
  unfoldable pub ticked : Limits → (Evaluator V → Outcome V) → Evaluator V → Outcome V
  ticked limit run st =
      let st' = record st { total_steps = st.total_steps + 1 } in
      if ltb limit.total_steps st'.total_steps then (raised Error.step_limit, st') else run st'

  -- After a round of the body: another round, or the end.
  unfoldable pub after_body : Outcome V → (Evaluator V → LoopOutcome V) → LoopOutcome V
  after_body (ok Signal.sentinel, st) again = again st
  after_body (ok Signal.continued, st) again = again st
  after_body (ok Signal.broke, st) again = (ok LoopEnd.broken, st)
  after_body (ok (Signal.returned v), st) again = (ok (LoopEnd.answered (Signal.returned v)), st)
  after_body (raised e, st) again = (raised e, st)

  -- The rounds of `for`, of which `left` are allowed.
  unfoldable pub for_loop :
      (body : Evaluator V → Outcome V)
      → (x : Text) → (left : ℕ) → List V
      → Evaluator V
      → LoopOutcome V
  for_loop body x left [] st = (ok LoopEnd.exhausted, st)
  for_loop body x zero (v ∷ vs) st = (raised Error.for_limit, st)
  for_loop body x (suc left) (v ∷ vs) st =
      after_body (body (set_var x v st)) (for_loop body x left vs)

  unfoldable pub after_test :
      Result Bool → Evaluator V → (again : Evaluator V → LoopOutcome V) → LoopOutcome V
  after_test (ok true) st again = again st
  after_test (ok false) st again = (ok LoopEnd.exhausted, st)
  after_test (raised e) st again = (raised e, st)

  -- The rounds of `while`; `test` is the truth of the test.
  unfoldable pub while_loop :
      (test : Vars V → Result Bool)
      → (body : Evaluator V → Outcome V) → (left : ℕ) → Evaluator V
      → LoopOutcome V
  while_loop test body zero st = after_test (test st.vars) st λ st'. (raised Error.while_limit, st')
  while_loop test body (suc left) st =
      after_test (test st.vars) st λ st'. after_body (body st') (while_loop test body left)

  -- What the `else` of a loop answers: a jump out of it is dropped.
  unfoldable pub without_jump : Outcome V → Outcome V
  without_jump (ok Signal.broke, st) = (ok Signal.sentinel, st)
  without_jump (ok Signal.continued, st) = (ok Signal.sentinel, st)
  without_jump o = o

  unfoldable pub after_loop : LoopOutcome V → (orelse : Evaluator V → Outcome V) → Outcome V
  unfolding without_jump
  after_loop (ok LoopEnd.exhausted, st) orelse = without_jump (orelse st)
  after_loop (ok LoopEnd.broken, st) orelse = (ok Signal.sentinel, st)
  after_loop (ok (LoopEnd.answered s), st) orelse = (ok s, st)
  after_loop (raised e, st) orelse = (raised e, st)
