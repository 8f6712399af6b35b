-- ===== src/SlugScript/Ensures.antt =====
-- Rules for what the evaluator of slug_script.py ensures: `Q` of an answer and the evaluator that it
-- leaves, `E` of an error.
use poly_strategy.Prelude.{
  ℕ, zero, suc, ◌+◌, ◌≡◌, refl, Bool, true, false, ltb, List, [], ◌∷◌, Text, Bool-cases, inl, inr,
}
use poly_strategy.SlugScript.Machine.{
  Error, Result, ok, raised, Signal, Evaluator, Outcome, LoopEnd, LoopOutcome, Limits, Vars,
  with_value, then_next, ticked, after_body, after_test, for_loop, while_loop, without_jump,
  after_loop, set_var,
}

unfoldable pub Ensures {ℓ} :
    {A : Type ℓ} {V : Type 0} (Q : A → Evaluator V → Type 0) (E : Error → Evaluator V → Type 0)
    → Result A × Evaluator V
    → Type 0
Ensures Q E (ok a, st) = Q a st
Ensures Q E (raised e, st) = E e st

abbrev pub IsJump : {V : Type 0} → Signal V → Type 0
IsJump Signal.sentinel = ⊥
IsJump _ = Unit

-- What a round of a loop has to show: `again` where another follows, and `Q` of the loop's end.
abbrev pub AfterRound :
    {V : Type 0} (again : Evaluator V → Type 0) (Q : LoopEnd V → Evaluator V → Type 0)
    → Signal V
    → Evaluator V
    → Type 0
AfterRound again Q Signal.sentinel st = again st
AfterRound again Q Signal.continued st = again st
AfterRound again Q Signal.broke st = Q LoopEnd.broken st
AfterRound again Q (Signal.returned v) st = Q (LoopEnd.answered (Signal.returned v)) st

-- What a loop's end has to show; the `else` block `orelse` has its own postcondition.
abbrev pub AfterLoop :
    {V : Type 0} (orelse : Evaluator V → Type 0) (Q : Signal V → Evaluator V → Type 0)
    → LoopEnd V
    → Evaluator V
    → Type 0
AfterLoop orelse Q LoopEnd.exhausted st = orelse st
AfterLoop orelse Q LoopEnd.broken st = Q Signal.sentinel st
AfterLoop orelse Q (LoopEnd.answered s) st = Q s st

-- What the answer of an `else` block has to show, its jumps dropped.
abbrev pub WithoutJump :
    {V : Type 0} (Q : Signal V → Evaluator V → Type 0) → Signal V → Evaluator V → Type 0
WithoutJump Q Signal.broke st = Q Signal.sentinel st
WithoutJump Q Signal.continued st = Q Signal.sentinel st
WithoutJump Q s st = Q s st

-- A predicate of the evaluator alone serves every answer.
pub every_round :
    {V : Type 0} (P : Evaluator V → Type 0) (s : Signal V) (st : Evaluator V)
    → P st
    → AfterRound P (λ _. P) s st
every_round P Signal.sentinel st h = h
every_round P Signal.broke st h = h
every_round P Signal.continued st h = h
every_round P (Signal.returned v) st h = h

pub every_jump :
    {V : Type 0} (P : Evaluator V → Type 0) (s : Signal V) (st : Evaluator V)
    → P st
    → WithoutJump (λ _. P) s st
every_jump P Signal.sentinel st h = h
every_jump P Signal.broke st h = h
every_jump P Signal.continued st h = h
every_jump P (Signal.returned v) st h = h

pub Ensures-mono {ℓ} :
    {A : Type ℓ} {V : Type 0} (Q R : A → Evaluator V → Type 0) (E : Error → Evaluator V → Type 0)
    (o : Result A × Evaluator V)
    → ((a : A) (st : Evaluator V) → Q a st → R a st)
    → Ensures Q E o
    → Ensures R E o
unfolding Ensures
Ensures-mono Q R E (ok a, st) f h = f a st h
Ensures-mono Q R E (raised e, st) f h = h

module _ {V : Type 0} (E : Error → Evaluator V → Type 0) where
  pub with_value-Ensures {ℓ} :
      {A : Type ℓ} (Q : Signal V → Evaluator V → Type 0) (r : Result A) (st : Evaluator V)
      (next : A → Outcome V)
      → ((e : Error) → r ≡ raised e → E e st)
      → ((a : A) → r ≡ ok a → Ensures Q E (next a))
      → Ensures Q E (with_value r st next)
  unfolding Ensures with_value
  with_value-Ensures Q (ok a) st next h k = k a refl
  with_value-Ensures Q (raised e) st next h k = h e refl

  pub then_next-Ensures :
      (P Q : Signal V → Evaluator V → Type 0) (o : Outcome V) (next : Evaluator V → Outcome V)
      → Ensures P E o
      → ((st : Evaluator V) → P Signal.sentinel st → Ensures Q E (next st))
      → ((s : Signal V) (st : Evaluator V) → IsJump s → P s st → Q s st)
      → Ensures Q E (then_next o next)
  unfolding Ensures then_next
  then_next-Ensures P Q (ok Signal.sentinel, st) next h k j = k st h
  then_next-Ensures P Q (ok Signal.broke, st) next h k j = j Signal.broke st tt h
  then_next-Ensures P Q (ok Signal.continued, st) next h k j = j Signal.continued st tt h
  then_next-Ensures P Q (ok (Signal.returned v), st) next h k j = j (Signal.returned v) st tt h
  then_next-Ensures P Q (raised e, st) next h k j = h

  without_jump-Ensures :
      (Q : Signal V → Evaluator V → Type 0) (o : Outcome V)
      → Ensures (WithoutJump Q) E o
      → Ensures Q E (without_jump o)
  unfolding Ensures without_jump
  without_jump-Ensures Q (ok Signal.sentinel, st) h = h
  without_jump-Ensures Q (ok Signal.broke, st) h = h
  without_jump-Ensures Q (ok Signal.continued, st) h = h
  without_jump-Ensures Q (ok (Signal.returned v), st) h = h
  without_jump-Ensures Q (raised e, st) h = h

  pub after_loop-Ensures :
      (Q : Signal V → Evaluator V → Type 0) (o : LoopOutcome V) (orelse : Evaluator V → Outcome V)
      → Ensures (AfterLoop (λ st. Ensures (WithoutJump Q) E (orelse st)) Q) E o
      → Ensures Q E (after_loop o orelse)
  unfolding Ensures after_loop
  after_loop-Ensures Q (ok LoopEnd.exhausted, st) orelse h = without_jump-Ensures Q (orelse st) h
  after_loop-Ensures Q (ok LoopEnd.broken, st) orelse h = h
  after_loop-Ensures Q (ok (LoopEnd.answered s), st) orelse h = h
  after_loop-Ensures Q (raised e, st) orelse h = h

  after_body-Ensures :
      (again : Evaluator V → Type 0) (Q : LoopEnd V → Evaluator V → Type 0) (o : Outcome V)
      (next : Evaluator V → LoopOutcome V)
      → Ensures (AfterRound again Q) E o
      → ((st : Evaluator V) → again st → Ensures Q E (next st))
      → Ensures Q E (after_body o next)
  unfolding Ensures after_body
  after_body-Ensures again Q (ok Signal.sentinel, st) next h k = k st h
  after_body-Ensures again Q (ok Signal.broke, st) next h k = h
  after_body-Ensures again Q (ok Signal.continued, st) next h k = k st h
  after_body-Ensures again Q (ok (Signal.returned v), st) next h k = h
  after_body-Ensures again Q (raised e, st) next h k = h

  after_test-Ensures :
      (Q : LoopEnd V → Evaluator V → Type 0) (r : Result Bool) (st : Evaluator V)
      (again : Evaluator V → LoopOutcome V)
      → ((e : Error) → r ≡ raised e → E e st)
      → (r ≡ ok false → Q LoopEnd.exhausted st)
      → (r ≡ ok true → Ensures Q E (again st))
      → Ensures Q E (after_test r st again)
  unfolding Ensures after_test
  after_test-Ensures Q (ok true) st again h j k = k refl
  after_test-Ensures Q (ok false) st again h j k = j refl
  after_test-Ensures Q (raised e) st again h j k = h e refl

  module _ (Q : LoopEnd V → Evaluator V → Type 0) (body : Evaluator V → Outcome V) where
    -- An invariant `I` of the items that are left.
    pub for_loop-Ensures :
        (x : Text) (I : List V → Evaluator V → Type 0)
        → ((st : Evaluator V) → I [] st → Q LoopEnd.exhausted st)
        → ((v : V) (vs : List V) (st : Evaluator V) → I (v ∷ vs) st → E Error.for_limit st)
        → ((v : V) (vs : List V) (st : Evaluator V)
            → I (v ∷ vs) st
            → Ensures (AfterRound (I vs) Q) E (body (set_var x v st)))
        → (left : ℕ) (vs : List V) (st : Evaluator V) → I vs st
        → Ensures Q E (for_loop body x left vs st)
    unfolding for_loop Ensures
    for_loop-Ensures x I over limit round left [] st h = over st h
    for_loop-Ensures x I over limit round zero (v ∷ vs) st h = limit v vs st h
    for_loop-Ensures x I over limit round (suc left) (v ∷ vs) st h =
        after_body-Ensures (I vs) Q (body (set_var x v st)) (for_loop body x left vs)
          (round v vs st h) (λ st'. for_loop-Ensures x I over limit round left vs st')

    -- An invariant `I` of the rounds.
    pub while_loop-Ensures :
        (test : Vars V → Result Bool) (I : Evaluator V → Type 0)
        → ((e : Error) (st : Evaluator V) → I st → test st.vars ≡ raised e → E e st)
        → ((st : Evaluator V) → I st → test st.vars ≡ ok false → Q LoopEnd.exhausted st)
        → ((st : Evaluator V) → I st → E Error.while_limit st)
        → ((st : Evaluator V)
            → I st
            → test st.vars ≡ ok true
            → Ensures (AfterRound I Q) E (body st))
        → (left : ℕ) (st : Evaluator V) → I st
        → Ensures Q E (while_loop test body left st)
    unfolding while_loop Ensures
    while_loop-Ensures test I failed over limit round zero st h =
        after_test-Ensures Q (test st.vars) st _ (λ e. failed e st h) (over st h) (λ _. limit st h)
    while_loop-Ensures test I failed over limit round (suc left) st h =
        after_test-Ensures Q (test st.vars) st _ (λ e. failed e st h) (over st h)
          λ go.
            after_body-Ensures I Q (body st) (while_loop test body left) (round st h go)
              (λ st'. while_loop-Ensures test I failed over limit round left st')

  -- The tick counts a step, and raises where the limit is passed.
  pub ticked-Ensures :
      (Q : Signal V → Evaluator V → Type 0) (limit : Limits) (run : Evaluator V → Outcome V)
      (st : Evaluator V)
      → let st' = record st { total_steps = st.total_steps + 1 } in
        (ltb limit.total_steps st'.total_steps ≡ true → E Error.step_limit st')
        → (ltb limit.total_steps (st.total_steps + 1) ≡ false
            → Ensures Q E (run (record st { total_steps = st.total_steps + 1 })))
        → Ensures Q E (ticked limit run st)
  unfolding ticked Ensures
  ticked-Ensures Q limit run st over within =
      elim (Bool-cases (ltb limit.total_steps (st.total_steps + 1))) [
        | inl h ↦ rw h (over h)
        | inr h ↦ rw h (within h)
      ]

-- A predicate `P` of the evaluator that bodies keep is kept by the loops and what follows them.
module _ {V : Type 0} (P : Evaluator V → Type 0) (E : Error → Evaluator V → Type 0) where
  pub keeps_loop :
      (o : LoopOutcome V) (orelse : Evaluator V → Outcome V)
      → Ensures (λ _. P) E o
      → ((st : Evaluator V) → P st → Ensures (λ _. P) E (orelse st))
      → Ensures (λ _. P) E (after_loop o orelse)
  keeps_loop o orelse h k =
      after_loop-Ensures E (λ _. P) o orelse (Ensures-mono (λ _. P) _ E o (next) h)
    where
      next :
          (s : LoopEnd V) (st : Evaluator V)
          → P st
          → AfterLoop (λ st'. Ensures (WithoutJump (λ _. P)) E (orelse st')) (λ _. P) s st
      next LoopEnd.exhausted st p =
          Ensures-mono (λ _. P) _ E (orelse st) (λ s st'. every_jump P s st') (k st p)
      next LoopEnd.broken st p = p
      next (LoopEnd.answered s) st p = p

  module _ (body : Evaluator V → Outcome V)
      (keeps : (st : Evaluator V) → P st → Ensures (λ _. P) E (body st)) where
    pub keeps_for :
        (x : Text)
        → ((v : V) (st : Evaluator V) → P st → P (set_var x v st))
        → ((st : Evaluator V) → P st → E Error.for_limit st)
        → (left : ℕ) (vs : List V) (st : Evaluator V) → P st
        → Ensures (λ _. P) E (for_loop body x left vs st)
    keeps_for x set limit =
        for_loop-Ensures E (λ _. P) body x (λ _. P) (λ st h. h) (λ v vs. limit)
          λ v vs st h.
            Ensures-mono (λ _. P) _ E (body (set_var x v st)) (λ s st'. every_round P s st')
              (keeps (set_var x v st) (set v st h))

    pub keeps_while :
        (test : Vars V → Result Bool)
        → ((e : Error) (st : Evaluator V) → P st → test st.vars ≡ raised e → E e st)
        → ((st : Evaluator V) → P st → E Error.while_limit st)
        → (left : ℕ) (st : Evaluator V) → P st
        → Ensures (λ _. P) E (while_loop test body left st)
    keeps_while test failed limit =
        while_loop-Ensures E (λ _. P) body test P failed (λ st h _. h) limit
          λ st h _. Ensures-mono (λ _. P) _ E (body st) (λ s st'. every_round P s st') (keeps st h)
