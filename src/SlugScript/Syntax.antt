-- ===== src/SlugScript/Syntax.antt =====
-- The nodes of `ast` that slug_script.py tells apart. What it refuses without a look inside is one
-- node, such as `Expr.other` for a lambda or a comprehension.
use poly_strategy.Prelude.{Bool, List, ℤ, Text}

-- `ast.Constant.value`; a float by its literal, `other` for bytes, complex numbers and `...`.
pub data Constant : Type 0 where
  none_constant other : Constant
  boolean : Bool → Constant
  integer : ℤ → Constant
  float : Text → Constant
  text : Text → Constant

pub data UnaryOp : Type 0 where
  negation minus other : UnaryOp

pub data BinOp : Type 0 where
  add sub mult modulo other : BinOp

pub data CompareOp : Type 0 where
  eq not_eq lt gt lt_e gt_e is_in not_in other : CompareOp

-- The function of a call is a name, an attribute, or anything else; `has_keywords` is the test
-- `node.keywords`.
mutual
  pub data Expr : Type 0 where
    constant : Constant → Expr
    name : Text → Expr
    bool_and bool_or : Exprs → Expr
    unary : UnaryOp → Expr → Expr
    binary : BinOp → Expr → Expr → Expr
    compare : Expr → Comparisons → Expr
    call : (func : Text) → Exprs → (has_keywords : Bool) → Expr
    call_method : Expr → (attr : Text) → Exprs → (has_keywords : Bool) → Expr
    call_other : Expr
    attribute : Expr → Text → Expr
    subscript : Expr → Expr → Expr
    slice : Expr → (lower upper step : MaybeExpr) → Expr
    list tuple : Exprs → Expr
    if_expr : (test body orelse : Expr) → Expr
    other : Expr

  pub data Exprs : Type 0 where
    nil : Exprs
    cons : Expr → Exprs → Exprs

  pub data MaybeExpr : Type 0 where
    absent : MaybeExpr
    present : Expr → MaybeExpr

  -- The operators and comparators of a chain, pair by pair.
  pub data Comparisons : Type 0 where
    done : Comparisons
    comparison : CompareOp → Expr → Comparisons → Comparisons

-- A target that is no simple name makes `assign_other` and its like.
mutual
  pub data Stmt : Type 0 where
    return_of : MaybeExpr → Stmt
    if_else : Expr → (body orelse : Block) → Stmt
    assign : Text → Expr → Stmt
    aug_assign : Text → BinOp → Expr → Stmt
    for_in : Text → Expr → (body orelse : Block) → Stmt
    while : Expr → (body orelse : Block) → Stmt
    break continue pass : Stmt
    expression : Expr → Stmt
    assign_other aug_assign_other for_other other : Stmt

  pub data Block : Type 0 where
    end : Block
    step : Stmt → Block → Block

-- `ast.FunctionDef`; `has_more` says that it has `*args`, `**kwargs`, defaults or keyword-only
-- arguments.
pub record Function : Type 0 where
  pub name : Text
  pub has_decorators : Bool
  pub args : List Text
  pub has_more : Bool
  pub body : Block

pub data TopLevel : Type 0 where
  function : Function → TopLevel
  other : TopLevel
