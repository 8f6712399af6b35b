-- ===== src/SlugScript/Meaning.antt =====
-- A big-step semantics of the statements of a script: `Exec s vars sg vars'` says that the statement `s`,
-- started with the variables `vars`, answers `sg` and leaves `vars'`. There are no limits and no counters
-- here, and a jump out of the `else` of a loop goes to the loop around it. Expressions have the values
-- that the evaluator gives them, and an augmented assignment makes a new value, so that a change of a
-- list in place is not seen; one to an unset variable starts from 0, as in the evaluator, where Python
-- raises a NameError (slug_script.py).
pub mod Plain
pub mod Loops
pub mod Sound
use poly_strategy.Prelude.{
  ◌≡◌, Bool, true, false, not, ◌&&◌, ◌||◌, if◌then◌else◌, Option, none, some, pos, List, [], ◌∷◌,
  Text,
}
use poly_strategy.SlugScript.Syntax.{BinOp, Expr, MaybeExpr, Stmt, Block}
use poly_strategy.SlugScript.Validation.{is_augmented_supported}
use poly_strategy.SlugScript.Values.{Python}
use poly_strategy.SlugScript.Ensures.{IsJump}
use poly_strategy.SlugScript.Machine.{ok, Signal, LoopEnd, Vars, get_var}
use poly_strategy.SlugScript.Evaluation.{eval, eval_maybe, eval_test}

-- The body of a loop fell through or went on with the next round.
abbrev pub GoesOn : {V : Type 0} → Signal V → Type 0
GoesOn Signal.sentinel = Unit
GoesOn Signal.continued = Unit
GoesOn _ = ⊥

-- The body of a loop left it.
abbrev pub Leaves : {V : Type 0} → Signal V → LoopEnd V → Type 0
Leaves Signal.broke end = end ≡ LoopEnd.broken
Leaves (Signal.returned v) end = end ≡ LoopEnd.answered (Signal.returned v)
Leaves _ end = ⊥

module _ (py : Python) where
  open py use {Value}

  mutual
    pub data Exec : Stmt → Vars Value → Signal Value → Vars Value → Type 0 where
      returns :
          {e : MaybeExpr} {vars : Vars Value} {v : Value}
          → eval_maybe py vars e ≡ ok v
          → Exec (Stmt.return_of e) vars (Signal.returned v) vars
      takes_body :
          {test : Expr} {body orelse : Block} {vars vars' : Vars Value} {sg : Signal Value}
          → eval_test py test vars ≡ ok true
          → Run body vars sg vars'
          → Exec (Stmt.if_else test body orelse) vars sg vars'
      takes_else :
          {test : Expr} {body orelse : Block} {vars vars' : Vars Value} {sg : Signal Value}
          → eval_test py test vars ≡ ok false
          → Run orelse vars sg vars'
          → Exec (Stmt.if_else test body orelse) vars sg vars'
      assigns :
          {x : Text} {e : Expr} {vars : Vars Value} {v : Value}
          → eval py vars e ≡ ok v
          → Exec (Stmt.assign x e) vars Signal.sentinel ((x, v) ∷ vars)
      augments :
          {x : Text} {op : BinOp} {e : Expr} {vars : Vars Value} {old v w : Value}
          → eval py vars e ≡ ok v
          → get_var x vars ≡ some old
          → py.operate op old v ≡ some w
          → Exec (Stmt.aug_assign x op e) vars Signal.sentinel ((x, w) ∷ vars)
      augments_unset :
          {x : Text} {op : BinOp} {e : Expr} {vars : Vars Value} {v w : Value}
          → eval py vars e ≡ ok v
          → get_var x vars ≡ none
          → py.operate op (py.integer (pos 0)) v ≡ some w
          → Exec (Stmt.aug_assign x op e) vars Signal.sentinel ((x, w) ∷ vars)
      iterates :
          {x : Text} {e : Expr} {body orelse : Block} {vars vars₁ vars₂ : Vars Value} {v : Value}
          {vs : List Value} {end : LoopEnd Value} {sg : Signal Value}
          → eval py vars e ≡ ok v
          → py.items v ≡ some vs
          → Rounds x body vs vars end vars₁
          → Ends orelse end vars₁ sg vars₂
          → Exec (Stmt.for_in x e body orelse) vars sg vars₂
      repeats :
          {test : Expr} {body orelse : Block} {vars vars₁ vars₂ : Vars Value} {end : LoopEnd Value}
          {sg : Signal Value}
          → Repeats test body vars end vars₁
          → Ends orelse end vars₁ sg vars₂
          → Exec (Stmt.while test body orelse) vars sg vars₂
      breaks : {vars : Vars Value} → Exec Stmt.break vars Signal.broke vars
      continues : {vars : Vars Value} → Exec Stmt.continue vars Signal.continued vars
      passes : {vars : Vars Value} → Exec Stmt.pass vars Signal.sentinel vars
      evaluates :
          {e : Expr} {vars : Vars Value} {v : Value}
          → eval py vars e ≡ ok v
          → Exec (Stmt.expression e) vars Signal.sentinel vars

    pub data Run : Block → Vars Value → Signal Value → Vars Value → Type 0 where
      falls_through : {vars : Vars Value} → Run Block.end vars Signal.sentinel vars
      then_runs :
          {s : Stmt} {rest : Block} {vars vars₁ vars₂ : Vars Value} {sg : Signal Value}
          → Exec s vars Signal.sentinel vars₁
          → Run rest vars₁ sg vars₂
          → Run (Block.step s rest) vars sg vars₂
      breaks_off :
          {s : Stmt} {rest : Block} {vars vars₁ : Vars Value} {sg : Signal Value}
          → Exec s vars sg vars₁
          → IsJump sg
          → Run (Block.step s rest) vars sg vars₁

    -- The rounds of `for` over the items that are left.
    pub data Rounds
        : Text → Block → List Value → Vars Value → LoopEnd Value → Vars Value → Type 0 where
      items_over :
          {x : Text} {body : Block} {vars : Vars Value}
          → Rounds x body [] vars LoopEnd.exhausted vars
      next_item :
          {x : Text} {body : Block} {v : Value} {vs : List Value} {vars vars₁ vars₂ : Vars Value}
          {sg : Signal Value} {end : LoopEnd Value}
          → Run body ((x, v) ∷ vars) sg vars₁
          → GoesOn sg
          → Rounds x body vs vars₁ end vars₂
          → Rounds x body (v ∷ vs) vars end vars₂
      last_item :
          {x : Text} {body : Block} {v : Value} {vs : List Value} {vars vars₁ : Vars Value}
          {sg : Signal Value} {end : LoopEnd Value}
          → Run body ((x, v) ∷ vars) sg vars₁
          → Leaves sg end
          → Rounds x body (v ∷ vs) vars end vars₁

    -- The rounds of `while`.
    pub data Repeats : Expr → Block → Vars Value → LoopEnd Value → Vars Value → Type 0 where
      test_fails :
          {test : Expr} {body : Block} {vars : Vars Value}
          → eval_test py test vars ≡ ok false
          → Repeats test body vars LoopEnd.exhausted vars
      next_round :
          {test : Expr} {body : Block} {vars vars₁ vars₂ : Vars Value} {sg : Signal Value}
          {end : LoopEnd Value}
          → eval_test py test vars ≡ ok true
          → Run body vars sg vars₁
          → GoesOn sg
          → Repeats test body vars₁ end vars₂
          → Repeats test body vars end vars₂
      last_round :
          {test : Expr} {body : Block} {vars vars₁ : Vars Value} {sg : Signal Value}
          {end : LoopEnd Value}
          → eval_test py test vars ≡ ok true
          → Run body vars sg vars₁
          → Leaves sg end
          → Repeats test body vars end vars₁

    -- What follows a loop: its `else` only where the loop was not left.
    pub data Ends : Block → LoopEnd Value → Vars Value → Signal Value → Vars Value → Type 0 where
      runs_else :
          {orelse : Block} {vars vars' : Vars Value} {sg : Signal Value}
          → Run orelse vars sg vars'
          → Ends orelse LoopEnd.exhausted vars sg vars'
      skips_else :
          {orelse : Block} {vars : Vars Value}
          → Ends orelse LoopEnd.broken vars Signal.sentinel vars
      passes_on :
          {orelse : Block} {vars : Vars Value} {sg : Signal Value}
          → Ends orelse (LoopEnd.answered sg) vars sg vars

-- A `break` or `continue` that reaches out of the statement.
unfoldable mutual
  pub jumps : Stmt → Bool
  jumps (Stmt.if_else test body orelse) = jumps_block body || jumps_block orelse
  jumps (Stmt.for_in x e body orelse) = jumps_block orelse
  jumps (Stmt.while test body orelse) = jumps_block orelse
  jumps Stmt.break = true
  jumps Stmt.continue = true
  jumps _ = false

  pub jumps_block : Block → Bool
  jumps_block Block.end = false
  jumps_block (Block.step s rest) = jumps s || jumps_block rest

-- No `else` of a loop has a jump that reaches out of it.
unfoldable mutual
  unfolding jumps

  pub has_plain_else : Stmt → Bool
  has_plain_else (Stmt.if_else test body orelse) = plain_elses body && plain_elses orelse
  has_plain_else (Stmt.for_in x e body orelse) =
      not (jumps_block orelse) && (plain_elses body && plain_elses orelse)
  has_plain_else (Stmt.while test body orelse) =
      not (jumps_block orelse) && (plain_elses body && plain_elses orelse)
  has_plain_else _ = true

  pub plain_elses : Block → Bool
  plain_elses Block.end = true
  plain_elses (Block.step s rest) = has_plain_else s && plain_elses rest
