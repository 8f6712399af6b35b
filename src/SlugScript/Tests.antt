-- ===== src/SlugScript/Tests.antt =====
-- Scripts of slug_script.py over None, Booleans, integers, texts and lists of texts.
use poly_strategy.Prelude.{
  ◌≡◌, refl, Bool, true, false, not, ◌==◌, Option, none, some, List, [], ◌∷◌, ℤ, pos, Text, codes,
  map, ◌++◌, starts_with, occurs_in, arith, ◌≤◌,
}
use poly_strategy.SlugScript.Syntax.{
  Constant, BinOp, CompareOp, Expr, Exprs, MaybeExpr, Stmt, Block, TopLevel,
}
use poly_strategy.SlugScript.Validation.{
  same_text, is_one_of, is_private, is_forbidden, is_allowed_call, is_helper, is_dunder,
  validate_stmt, validate_block,
}
use poly_strategy.SlugScript.Values.{Python}
use poly_strategy.SlugScript.Machine.{
  Error, ok, limits, Evaluator, then_next, with_value, after_loop, after_body, ticked, Signal,
}
use poly_strategy.SlugScript.Evaluation.{exec_stmt, run_block, eval_test, eval_test}
use poly_strategy.SlugScript.Program.{compile, evaluate, new_evaluator, slug_of}
use poly_strategy.SlugScript.Ensures.{Ensures}
use poly_strategy.SlugScript.Bounds.{steps_are_bounded}
use poly_strategy.SlugScript.Supported.{IsSupported}
use poly_strategy.SlugScript.Supported.Statements.{compiled-IsSupported}
use poly_strategy.SlugScript.Meaning.{Run, GoesOn, jumps_block, plain_elses}
use poly_strategy.SlugScript.Meaning.Sound.{evaluate_sound}
use poly_strategy.SlugScript.Endings.{Raises, endless_loop-Raises, stray_jump_includes}

data Value : Type 0 where
  none_value : Value
  boolean : Bool → Value
  integer : ℤ → Value
  text : Text → Value
  texts : List Text → Value

abbrev text_of : Value → Text
text_of none_value = codes "None"
text_of (boolean true) = codes "True"
text_of (boolean false) = codes "False"
text_of (integer z) = []
text_of (text t) = t
text_of (texts ts) = []

abbrev texts_of : List Value → List Text
texts_of vs = map text_of vs

abbrev constant_value : Constant → Value
constant_value (Constant.boolean b) = boolean b
constant_value (Constant.integer z) = integer z
constant_value (Constant.text t) = text t
constant_value _ = none_value

abbrev truth : Value → Bool
truth none_value = false
truth (boolean b) = b
truth (integer (pos n)) = not (n == 0)
truth (integer z) = true
truth (text []) = false
truth (text t) = true
truth (texts []) = false
truth (texts ts) = true

-- `+` and `in` on texts, `==` on texts; all else raises here.
abbrev operate : BinOp → Value → Value → Option Value
operate BinOp.add (text s) (text t) = some (text (s ++ t))
operate op v w = none

abbrev compare : CompareOp → Value → Value → Option Bool
compare CompareOp.eq (text s) (text t) = some (same_text s t)
compare CompareOp.is_in (text s) (text t) = some (occurs_in s t)
compare op v w = none

abbrev items : Value → Option (List Value)
items (texts ts) = some (map text ts)
items v = none

abbrev host : Python
host = record {
  Value = Value;
  none_value = none_value;
  boolean = boolean;
  integer = integer;
  text = text;
  list = λ vs. texts (texts_of vs);
  tuple = λ vs. texts (texts_of vs);
  constant = constant_value;
  truth = truth;
  str = text_of;
  operate = operate;
  negate = λ v. none;
  compare = compare;
  items = items;
  getattr = λ v t. none;
  apply = λ v vs. none;
  builtin = λ f vs. none;
  get_item = λ v w. none;
  get_slice = λ v l u s. none;
  search = λ s t. none;
}

abbrev text_expr : Text → Expr
text_expr t = Expr.constant (Constant.text t)

abbrev slug : Expr
slug = Expr.name (codes "slug")

abbrev returns_constant : Bool → Stmt
returns_constant b = Stmt.return_of (MaybeExpr.present (Expr.constant (Constant.boolean b)))

-- for city in ["nyc", "rio"]:
--     if contains(slug, city): break
-- else:
--     return False
-- return True
abbrev city_body : Block
city_body =
    Block.step
      (Stmt.if_else
        (Expr.call (codes "contains")
          (Exprs.cons slug (Exprs.cons (Expr.name (codes "city")) Exprs.nil)) false)
        (Block.step Stmt.break Block.end) Block.end)
      Block.end

abbrev cities : Block
cities =
    Block.step
      (Stmt.for_in (codes "city")
        (Expr.list
          (Exprs.cons (text_expr (codes "nyc")) (Exprs.cons (text_expr (codes "rio")) Exprs.nil)))
        city_body (Block.step (returns_constant false) Block.end))
      (Block.step (returns_constant true) Block.end)

cities-rio : evaluate host cities (some (codes " Weather-in-RIO ")) ≡ ok true
unfolding evaluate exec_stmt then_next with_value after_loop after_body is_one_of
cities-rio = refl

steps_are_bounded_example :
    (run_block host limits cities (new_evaluator host (codes "rio"))).1.total_steps ≤ 50001
unfolding new_evaluator
steps_are_bounded_example =
    steps_are_bounded host limits cities (new_evaluator host (codes "rio")) (omega arith)

evaluate_sound_example :
    (v : Value) × (vars : List (Text × Value)) × Run host cities
      (new_evaluator host (slug_of (some (codes " Weather-in-RIO ")))).vars
      (Signal.returned v)
      vars
    × (truth v ≡ true)
unfolding validate_stmt jumps_block plain_elses is_private starts_with is_forbidden is_one_of
    is_allowed_call is_helper is_dunder
evaluate_sound_example =
    evaluate_sound host cities (some (codes " Weather-in-RIO ")) true refl refl refl cities-rio

-- def should_include(slug):
--     return sulg
abbrev misspelt : Block
misspelt = Block.step (Stmt.return_of (MaybeExpr.present (Expr.name (codes "sulg")))) Block.end

abbrev parser : Text → Option (List TopLevel)
parser t = some (
    TopLevel.function (record {
      name = codes "should_include";
      has_decorators = false;
      args = codes "slug" ∷ [];
      has_more = false;
      body = misspelt;
    })
    ∷ [])

compiled-IsSupported_example : IsSupported (Error.undefined (codes "sulg"))
unfolding compile evaluate exec_stmt validate_stmt is_one_of then_next with_value is_forbidden
    is_dunder
compiled-IsSupported_example =
    compiled-IsSupported host parser (codes "") misspelt none (Error.undefined (codes "sulg")) refl
      refl

-- while True: pass
abbrev pass_only : Block
pass_only = Block.step Stmt.pass Block.end

pass-GoesOn :
    (st : Evaluator Value)
    → Ensures (λ sg st'. GoesOn sg) (λ e st'. Unit) (run_block host limits pass_only st)
unfolding Ensures exec_stmt then_next ticked
pass-GoesOn st = ground arith

always_true :
    (vars : List (Text × Value))
    → eval_test host (Expr.constant (Constant.boolean true)) vars ≡ ok true
unfolding eval_test
always_true vars = refl

endless_loop-Raises_example :
    let loop = Stmt.while (Expr.constant (Constant.boolean true)) pass_only Block.end in
    let o = exec_stmt host limits loop (new_evaluator host []) in Raises o.0
endless_loop-Raises_example =
    endless_loop-Raises host limits (Expr.constant (Constant.boolean true)) pass_only Block.end
      always_true pass-GoesOn (new_evaluator host [])

stray_jump_includes_example :
    (validate_block (Block.step Stmt.break misspelt) ≡ validate_block misspelt)
    × (validate_block (Block.step Stmt.continue misspelt) ≡ validate_block misspelt)
    × (evaluate host (Block.step Stmt.break misspelt) none ≡ ok true)
    × (evaluate host (Block.step Stmt.continue misspelt) none ≡ ok true)
stray_jump_includes_example = stray_jump_includes host misspelt none
