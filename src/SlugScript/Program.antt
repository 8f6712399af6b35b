-- ===== src/SlugScript/Program.antt =====
-- `SlugProgram` and `validate_slug_script` of slug_script.py. The parser of Python is an argument.
use poly_strategy.Prelude.{
  ℕ, ◌&&◌, ◌||◌, not, Bool, true, false, leb, ltb, ◌==◌, if◌then◌else◌, Option, none, some, List,
  [], ◌∷◌, Text, codes, lower, length,
}
use mathlib.Core.List.{reverse}
use poly_strategy.SlugScript.Syntax.{Function, TopLevel, Block}
use poly_strategy.SlugScript.Validation.{Refusal, same_text, validate_block}
use poly_strategy.SlugScript.Values.{Python}
use poly_strategy.SlugScript.Machine.{Error, Result, ok, raised, ◌>>=◌, Signal, Evaluator, limits}
use poly_strategy.SlugScript.Evaluation.{run_block}

-- Why a script does not compile.
pub data CompileError : Type 0 where
  too_long syntax not_one_function wrong_name wrong_signature extra_arguments : CompileError
  refused : Refusal → CompileError

pub data Compiled : Type 0 where
  program : (statements : Block) → Compiled
  failed : CompileError → Compiled

-- `MAX_SCRIPT_LENGTH`
abbrev pub max_script_length : ℕ
max_script_length = 4000

unfoldable pub is_slug_argument : List Text → Bool
unfolding same_text
is_slug_argument (x ∷ []) = same_text x (codes "slug")
is_slug_argument args = false

unfoldable pub validated : Block → Compiled
validated b = elim (validate_block b) [
  | none ↦ Compiled.program b
  | some e ↦ Compiled.failed (CompileError.refused e)
]

unfoldable pub compile_function : Function → Compiled
unfolding is_slug_argument same_text validated
compile_function f =
    if not (same_text f.name (codes "should_include")) || f.has_decorators
    then Compiled.failed CompileError.wrong_name
    else if not (is_slug_argument f.args)
    then Compiled.failed CompileError.wrong_signature
    else if f.has_more
    then Compiled.failed CompileError.extra_arguments
    else validated f.body

-- `tree.body` is to be one function.
unfoldable pub compile_tree : List TopLevel → Compiled
unfolding compile_function
compile_tree (TopLevel.function f ∷ []) = compile_function f
compile_tree body = Compiled.failed CompileError.not_one_function

unfoldable pub compile_parsed : Option (List TopLevel) → Compiled
unfolding compile_tree
compile_parsed none = Compiled.failed CompileError.syntax
compile_parsed (some body) = compile_tree body

-- `SlugProgram.compile`; `parse` is `ast.parse`, `none` on a syntax error.
unfoldable pub compile : (parse : Text → Option (List TopLevel)) → (source : Text) → Compiled
unfolding compile_parsed
compile parse source =
    if ltb max_script_length (length source)
    then Compiled.failed CompileError.too_long
    else compile_parsed (parse source)

-- The field `valid` of `validate_slug_script`.
unfoldable pub validate_slug_script :
    (parse : Text → Option (List TopLevel)) → (source : Text) → Bool
unfolding compile
validate_slug_script parse source = elim (compile parse source) [
  | Compiled.program b ↦ true
  | Compiled.failed e ↦ false
]

-- What `str.strip` drops.
unfoldable pub is_space : ℕ → Bool
is_space c =
    (leb 9 c && leb c 13)
    || (leb 28 c && leb c 32)
    || c == 133
    || c == 160
    || c == 5760
    || (leb 8192 c && leb c 8202)
    || c == 8232
    || c == 8233
    || c == 8239
    || c == 8287
    || c == 12288

unfoldable pub lstrip : Text → Text
unfolding is_space
lstrip [] = []
lstrip (c ∷ t) = let rest = lstrip t in if is_space c then rest else c ∷ t

unfoldable pub strip : Text → Text
unfolding lstrip
strip t = reverse (lstrip (reverse (lstrip t)))

-- `str(raw_slug or "").strip().lower()`
unfoldable pub slug_of : (raw_slug : Option Text) → Text
unfolding strip
slug_of none = []
slug_of (some t) = lower (strip t)

module _ (py : Python) where
  open py use {Value}

  -- `bool(result)`. What marks a jump is an object of its own, and true.
  unfoldable pub as_answer : Signal Value → Result Bool
  as_answer Signal.sentinel = raised Error.no_return
  as_answer Signal.broke = ok true
  as_answer Signal.continued = ok true
  as_answer (Signal.returned v) = ok (py.truth v)

  -- `_Evaluator(slug)`
  unfoldable pub new_evaluator : (slug : Text) → Evaluator Value
  new_evaluator slug = record { vars = (codes "slug", py.text slug) ∷ []; total_steps = 0 }

  -- `evaluate`
  unfoldable pub evaluate : (statements : Block) → (raw_slug : Option Text) → Result Bool
  unfolding as_answer new_evaluator slug_of
  evaluate statements raw_slug =
      (run_block py limits statements (new_evaluator (slug_of raw_slug))).0 >>= as_answer
