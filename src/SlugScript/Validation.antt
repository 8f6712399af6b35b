-- ===== src/SlugScript/Validation.antt =====
-- `_validate_stmt` and `_validate_expr` of slug_script.py: the white list of syntax.
use poly_strategy.Prelude.{
  Bool, true, false, ◌&&◌, ◌||◌, not, ◌==◌, Option, none, some, List, [], ◌∷◌, Text, codes,
  starts_with,
}
use poly_strategy.SlugScript.Syntax.{
  Constant, UnaryOp, BinOp, CompareOp, Expr, Exprs, MaybeExpr, Comparisons, Stmt, Block,
}

-- The errors of validation, by their message.
pub data Refusal : Type 0 where
  target underscore_name forbidden_variable loop_target augmented_target augmented_operator :
      Refusal
  statement constant_type forbidden_name dunder_name comparison forbidden_call : Refusal
  dunder_method unknown_method call keywords dunder_attribute expression : Refusal

unfoldable pub same_text : Text → Text → Bool
same_text [] [] = true
same_text (a ∷ s) (b ∷ t) = a == b && same_text s t
same_text s t = false

unfoldable pub is_one_of : Text → List Text → Bool
unfolding same_text
is_one_of t [] = false
is_one_of t (s ∷ rest) = same_text t s || is_one_of t rest

-- `_HELPERS`
abbrev pub helpers : List Text
helpers =
    codes "contains"
    ∷ codes "starts_with"
    ∷ codes "ends_with"
    ∷ codes "contains_any"
    ∷ codes "matches"
    ∷ []

-- `_STR_METHODS`
abbrev pub str_methods : List Text
str_methods =
    codes "startswith"
    ∷ codes "endswith"
    ∷ codes "lower"
    ∷ codes "upper"
    ∷ codes "strip"
    ∷ codes "lstrip"
    ∷ codes "rstrip"
    ∷ codes "replace"
    ∷ codes "split"
    ∷ codes "count"
    ∷ codes "find"
    ∷ codes "rfind"
    ∷ []

-- `_SAFE_BUILTINS`
abbrev pub safe_builtins : List Text
safe_builtins =
    codes "len"
    ∷ codes "str"
    ∷ codes "int"
    ∷ codes "float"
    ∷ codes "bool"
    ∷ codes "abs"
    ∷ codes "min"
    ∷ codes "max"
    ∷ codes "range"
    ∷ []

-- `_FORBIDDEN_NAMES`
abbrev pub forbidden_names : List Text
forbidden_names =
    codes "exec"
    ∷ codes "eval"
    ∷ codes "compile"
    ∷ codes "open"
    ∷ codes "input"
    ∷ codes "print"
    ∷ codes "globals"
    ∷ codes "locals"
    ∷ codes "dir"
    ∷ codes "vars"
    ∷ codes "getattr"
    ∷ codes "setattr"
    ∷ codes "delattr"
    ∷ codes "hasattr"
    ∷ codes "type"
    ∷ codes "super"
    ∷ codes "__import__"
    ∷ codes "breakpoint"
    ∷ codes "exit"
    ∷ codes "quit"
    ∷ []

-- Membership in the four sets. `_ALLOWED_CALLS` is the union of two of them.
unfoldable pub is_helper : Text → Bool
is_helper t = is_one_of t helpers

unfoldable pub is_builtin : Text → Bool
is_builtin t = is_one_of t safe_builtins

unfoldable pub is_allowed_call : Text → Bool
is_allowed_call t = is_helper t || is_builtin t

unfoldable pub is_str_method : Text → Bool
is_str_method t = is_one_of t str_methods

unfoldable pub is_forbidden : Text → Bool
is_forbidden t = is_one_of t forbidden_names

unfoldable pub is_private : Text → Bool
is_private t = starts_with (codes "_") t

unfoldable pub is_dunder : Text → Bool
is_dunder t = starts_with (codes "__") t

-- One check after another: the first refusal counts.
infixr 20 ◌andalso◌
abbrev pub ◌andalso◌ : Option Refusal → Option Refusal → Option Refusal
none andalso r = r
some e andalso r = some e

abbrev pub refuse_if : Bool → Refusal → Option Refusal
refuse_if true e = some e
refuse_if false e = none

abbrev pub validate_constant : Constant → Option Refusal
validate_constant Constant.other = some Refusal.constant_type
validate_constant _ = none

-- A unary or binary node with another operator is no supported expression.
abbrev pub is_unary_supported : UnaryOp → Bool
is_unary_supported UnaryOp.other = false
is_unary_supported _ = true

abbrev pub is_binary_supported : BinOp → Bool
is_binary_supported BinOp.other = false
is_binary_supported _ = true

-- `ast.Add`, `ast.Sub` and `ast.Mult`
abbrev pub is_augmented_supported : BinOp → Bool
is_augmented_supported BinOp.modulo = false
is_augmented_supported BinOp.other = false
is_augmented_supported _ = true

abbrev pub is_compare_supported : CompareOp → Bool
is_compare_supported CompareOp.other = false
is_compare_supported _ = true

-- The loop over `node.ops`.
unfoldable pub validate_ops : Comparisons → Option Refusal
validate_ops Comparisons.done = none
validate_ops (Comparisons.comparison op e rest) =
    refuse_if (not (is_compare_supported op)) Refusal.comparison andalso validate_ops rest

unfoldable mutual
  unfolding validate_ops

  -- `_validate_expr`
  pub validate_expr : Expr → Option Refusal
  validate_expr (Expr.constant c) = validate_constant c
  validate_expr (Expr.name x) =
      refuse_if (is_forbidden x) Refusal.forbidden_name
      andalso refuse_if (is_dunder x) Refusal.dunder_name
  validate_expr (Expr.bool_and es) = validate_exprs es
  validate_expr (Expr.bool_or es) = validate_exprs es
  validate_expr (Expr.unary op e) =
      refuse_if (not (is_unary_supported op)) Refusal.expression andalso validate_expr e
  validate_expr (Expr.binary op e f) =
      refuse_if (not (is_binary_supported op)) Refusal.expression
      andalso validate_expr e
      andalso validate_expr f
  validate_expr (Expr.compare e cs) =
      validate_expr e andalso validate_ops cs andalso validate_comparators cs
  validate_expr (Expr.call f es has_keywords) =
      refuse_if (is_forbidden f) Refusal.forbidden_call
      andalso refuse_if (not (is_allowed_call f)) Refusal.forbidden_call
      andalso validate_exprs es
      andalso refuse_if has_keywords Refusal.keywords
  validate_expr (Expr.call_method e attr es has_keywords) =
      validate_expr e
      andalso refuse_if (is_dunder attr) Refusal.dunder_method
      andalso refuse_if (not (is_str_method attr)) Refusal.unknown_method
      andalso validate_exprs es
      andalso refuse_if has_keywords Refusal.keywords
  validate_expr Expr.call_other = some Refusal.call
  validate_expr (Expr.attribute e attr) =
      validate_expr e andalso refuse_if (is_dunder attr) Refusal.dunder_attribute
  validate_expr (Expr.subscript e i) = validate_expr e andalso validate_expr i
  validate_expr (Expr.slice e lower upper step) =
      validate_expr e
      andalso validate_maybe lower
      andalso validate_maybe upper
      andalso validate_maybe step
  validate_expr (Expr.list es) = validate_exprs es
  validate_expr (Expr.tuple es) = validate_exprs es
  validate_expr (Expr.if_expr test body orelse) =
      validate_expr test andalso validate_expr body andalso validate_expr orelse
  validate_expr Expr.other = some Refusal.expression

  pub validate_exprs : Exprs → Option Refusal
  validate_exprs Exprs.nil = none
  validate_exprs (Exprs.cons e es) = validate_expr e andalso validate_exprs es

  pub validate_maybe : MaybeExpr → Option Refusal
  validate_maybe MaybeExpr.absent = none
  validate_maybe (MaybeExpr.present e) = validate_expr e

  pub validate_comparators : Comparisons → Option Refusal
  validate_comparators Comparisons.done = none
  validate_comparators (Comparisons.comparison op e rest) =
      validate_expr e andalso validate_comparators rest

unfoldable mutual
  unfolding validate_expr

  -- `_validate_stmt`
  pub validate_stmt : Stmt → Option Refusal
  validate_stmt (Stmt.return_of e) = validate_maybe e
  validate_stmt (Stmt.if_else test body orelse) =
      validate_expr test andalso validate_block body andalso validate_block orelse
  validate_stmt (Stmt.assign x e) =
      refuse_if (is_private x) Refusal.underscore_name
      andalso refuse_if (is_forbidden x) Refusal.forbidden_variable
      andalso validate_expr e
  validate_stmt (Stmt.aug_assign x op e) =
      refuse_if (not (is_augmented_supported op)) Refusal.augmented_operator andalso validate_expr e
  validate_stmt (Stmt.for_in x e body orelse) =
      refuse_if (is_private x) Refusal.underscore_name
      andalso validate_expr e
      andalso validate_block body
      andalso validate_block orelse
  validate_stmt (Stmt.while test body orelse) =
      validate_expr test andalso validate_block body andalso validate_block orelse
  validate_stmt Stmt.break = none
  validate_stmt Stmt.continue = none
  validate_stmt Stmt.pass = none
  validate_stmt (Stmt.expression e) = validate_expr e
  validate_stmt Stmt.assign_other = some Refusal.target
  validate_stmt Stmt.aug_assign_other = some Refusal.augmented_target
  validate_stmt Stmt.for_other = some Refusal.loop_target
  validate_stmt Stmt.other = some Refusal.statement

  -- The loop over the statements of a body.
  pub validate_block : Block → Option Refusal
  validate_block Block.end = none
  validate_block (Block.step s rest) = validate_stmt s andalso validate_block rest
