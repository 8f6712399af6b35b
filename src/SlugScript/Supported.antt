-- ===== src/SlugScript/Supported.antt =====
-- The evaluator supports what validation lets through (slug_script.py).
pub mod Statements
use poly_strategy.Prelude.{
  ℕ, ◌≡◌, refl, Bool, true, false, not, ◌&&◌, ◌||◌, if◌then◌else◌, Option, none, some, List, [],
  ◌∷◌, arith, Text, Bool-cases, inl, inr, codes,
}
use poly_strategy.SlugScript.Syntax.{
  Constant, UnaryOp, BinOp, CompareOp, Expr, Exprs, MaybeExpr, Comparisons, Stmt, Block,
}
use poly_strategy.SlugScript.Validation.{
  Refusal, ◌andalso◌, refuse_if, same_text, is_one_of, helpers, is_helper, is_builtin,
  is_allowed_call, is_unary_supported, is_binary_supported, is_compare_supported, is_forbidden,
  is_dunder, is_str_method, validate_expr, validate_exprs, validate_ops, validate_maybe,
  validate_comparators, validate_stmt, validate_block,
}
use poly_strategy.SlugScript.Values.{Python}
use poly_strategy.SlugScript.Machine.{Error, Result, ok, raised, ◌>>=◌, or_raise, Vars, get_var}
use poly_strategy.SlugScript.Evaluation.{
  call_helper, call_with, call_func, eval_name, eval_unary, eval_binary, eval_compare_op, eval,
  eval_all, eval_and, eval_or, eval_compare, eval_maybe,
}

-- The errors of a node or a function that the evaluator does not know.
abbrev pub IsSupported : Error → Type 0
IsSupported Error.operator = ⊥
IsSupported Error.expression = ⊥
IsSupported (Error.unknown_function f) = ⊥
IsSupported _ = Unit

unfoldable pub Supports {ℓ} : {A : Type ℓ} → Result A → Type 0
Supports (ok a) = Unit
Supports (raised e) = IsSupported e

pub bind-Supports {ℓ κ} :
    {A : Type ℓ} {B : Type κ} (r : Result A) (f : A → Result B)
    → Supports r
    → ((a : A) → Supports (f a))
    → Supports (r >>= f)
unfolding Supports
bind-Supports (ok a) f h k = k a
bind-Supports (raised e) f h k = h

pub or_raise-Supports {ℓ} : {A : Type ℓ} (o : Option A) → Supports (or_raise Error.python o)
unfolding Supports
or_raise-Supports none = tt
or_raise-Supports (some a) = tt

if-Supports {ℓ} :
    {A : Type ℓ} (b : Bool) (x y : Result A)
    → Supports x
    → Supports y
    → Supports (if b then x else y)
if-Supports true x y h k = h
if-Supports false x y h k = k

pub andalso_none : (r s : Option Refusal) → (r andalso s) ≡ none → (r ≡ none) × (s ≡ none)
andalso_none none s h = (refl, h)
andalso_none (some e) s h = absurd (cc)

pub refuse_unless : (b : Bool) (e : Refusal) → refuse_if (not b) e ≡ none → b ≡ true
refuse_unless true e h = refl
refuse_unless false e h = absurd (cc)

choose-Supports :
    {A : Type 0} (a b c d e : Bool) (p q r s t u : Result A)
    → (a || (b || (c || (d || (e || false))))) ≡ true
    → Supports p
    → Supports q
    → Supports r
    → Supports s
    → Supports t
    → Supports
        (if a then p else if b then q else if c then r else if d then s else if e then t else u)
choose-Supports true b c d e p q r s t u h k l m n o = k
choose-Supports false true c d e p q r s t u h k l m n o = l
choose-Supports false false true d e p q r s t u h k l m n o = m
choose-Supports false false false true e p q r s t u h k l m n o = n
choose-Supports false false false false true p q r s t u h k l m n o = o
choose-Supports false false false false false p q r s t u h k l m n o = absurd (cc)

module _ (py : Python) where
  open py use {Value}

  call_helper-Supports :
      (f : Text) (first second : Value)
      → is_helper f ≡ true
      → Supports (call_helper py f first second)
  unfolding call_helper is_helper is_one_of
  call_helper-Supports f first second h =
      choose-Supports (same_text f (codes "contains")) (same_text f (codes "starts_with"))
        (same_text f (codes "ends_with")) (same_text f (codes "contains_any"))
        (same_text f (codes "matches")) _ _ _ _ _ _ h (ok_Supports _) (ok_Supports _)
        (ok_Supports _)
        (bind-Supports _ _ (or_raise-Supports (py.items second)) (λ vs. ok_Supports _))
        (bind-Supports _ _ (or_raise-Supports (py.search (py.str second) (py.str first)))
          (λ found. ok_Supports _))
    where
      ok_Supports : (v : Value) → Supports (ok v)
      ok_Supports v = unfold Supports in tt

  call_with-Supports :
      (f : Text) (args : List Value) → is_helper f ≡ true → Supports (call_with py f args)
  unfolding call_with is_helper Supports
  call_with-Supports f [] h = rw h tt
  call_with-Supports f (v ∷ []) h = rw h tt
  call_with-Supports f (v ∷ w ∷ vs) h = call_helper-Supports f v w h

  call_func-Supports :
      (f : Text) (args : List Value) → is_allowed_call f ≡ true → Supports (call_func py f args)
  unfolding call_func is_allowed_call
  call_func-Supports f args h = elim (Bool-cases (is_builtin f)) [
    | inl known ↦ rw known (or_raise-Supports (py.builtin f args))
    | inr other ↦ rw other (call_with-Supports f args (ground arith))
  ]

  eval_name-Supports : (vars : Vars Value) (x : Text) → Supports (eval_name py vars x)
  unfolding eval_name Supports
  eval_name-Supports vars x = ground arith

  eval_unary-Supports :
      (op : UnaryOp) (v : Value) → is_unary_supported op ≡ true → Supports (eval_unary py op v)
  unfolding eval_unary Supports
  eval_unary-Supports UnaryOp.negation v h = tt
  eval_unary-Supports UnaryOp.minus v h = or_raise-Supports (py.negate v)
  eval_unary-Supports UnaryOp.other v h = absurd (cc)

  eval_binary-Supports :
      (op : BinOp) (v w : Value) → is_binary_supported op ≡ true → Supports (eval_binary py op v w)
  unfolding eval_binary
  eval_binary-Supports BinOp.other v w h = absurd (cc)
  eval_binary-Supports BinOp.add v w h = or_raise-Supports (py.operate BinOp.add v w)
  eval_binary-Supports op v w h = or_raise-Supports (py.operate op v w)

  eval_compare_op-Supports :
      (op : CompareOp) (v w : Value)
      → is_compare_supported op ≡ true
      → Supports (eval_compare_op py op v w)
  unfolding eval_compare_op
  eval_compare_op-Supports CompareOp.other v w h = absurd (cc)
  eval_compare_op-Supports CompareOp.eq v w h = or_raise-Supports (py.compare CompareOp.eq v w)
  eval_compare_op-Supports op v w h = or_raise-Supports (py.compare op v w)

  mutual
    unfolding eval validate_expr Supports

    pub eval-Supports :
        (vars : Vars Value) (e : Expr) → validate_expr e ≡ none → Supports (eval py vars e)
    eval-Supports vars (Expr.constant c) h = tt
    eval-Supports vars (Expr.name x) h = eval_name-Supports vars x
    eval-Supports vars (Expr.bool_and es) h = eval_and-Supports vars (py.boolean true) es h
    eval-Supports vars (Expr.bool_or es) h = eval_or-Supports vars (py.boolean false) es h
    eval-Supports vars (Expr.unary op e) h =
        let (known, valid) = andalso_none _ _ h in
        bind-Supports _ _ (eval-Supports vars e valid)
          λ v. eval_unary-Supports op v (refuse_unless (is_unary_supported op) _ known)
    eval-Supports vars (Expr.binary op e f) h =
        let (known, valid) = andalso_none _ _ h in
        let (first, second) = andalso_none _ _ valid in
        bind-Supports _ _ (eval-Supports vars e first) λ v.
          bind-Supports _ _ (eval-Supports vars f second)
            λ w. eval_binary-Supports op v w (refuse_unless (is_binary_supported op) _ known)
    eval-Supports vars (Expr.compare e cs) h =
        let (first, rest) = andalso_none _ _ h in
        let (ops, comparators) = andalso_none _ _ rest in
        bind-Supports _ _ (eval-Supports vars e first)
          λ v. bind-Supports _ _ (eval_compare-Supports vars v cs ops comparators) λ b. tt
    eval-Supports vars (Expr.call f es k) h =
        let (_, rest) = andalso_none (refuse_if (is_forbidden f) Refusal.forbidden_call) _ h in
        let (allowed, valid) = andalso_none _ _ rest in
        let (args, _) = andalso_none (validate_exprs es) _ valid in
        bind-Supports _ _ (eval_all-Supports vars es args)
          λ vs. call_func-Supports f vs (refuse_unless (is_allowed_call f) _ allowed)
    eval-Supports vars (Expr.call_method e attr es k) h =
        let (object, rest) = andalso_none (validate_expr e) _ h in
        let (_, rest') = andalso_none (refuse_if (is_dunder attr) Refusal.dunder_method) _ rest in
        let (_, valid) =
          andalso_none (refuse_if (not (is_str_method attr)) Refusal.unknown_method) _ rest' in
        let (args, _) = andalso_none (validate_exprs es) _ valid in
        bind-Supports _ _ (eval-Supports vars e object) λ v.
          bind-Supports _ _ (or_raise-Supports (py.getattr v attr)) λ method.
            bind-Supports _ _ (eval_all-Supports vars es args)
              λ vs. or_raise-Supports (py.apply method vs)
    eval-Supports vars Expr.call_other h = absurd (cc)
    eval-Supports vars (Expr.attribute e attr) h =
        bind-Supports _ _ (eval-Supports vars e (andalso_none (validate_expr e) _ h).0)
          λ v. or_raise-Supports (py.getattr v attr)
    eval-Supports vars (Expr.subscript e i) h =
        let (object, index) = andalso_none _ _ h in
        bind-Supports _ _ (eval-Supports vars e object) λ v.
          bind-Supports _ _ (eval-Supports vars i index) λ w. or_raise-Supports (py.get_item v w)
    eval-Supports vars (Expr.slice e lower upper step) h =
        let (object, rest) = andalso_none _ _ h in
        let (from, rest') = andalso_none _ _ rest in
        let (to, by) = andalso_none _ _ rest' in
        bind-Supports _ _ (eval-Supports vars e object) λ v.
          bind-Supports _ _ (eval_maybe-Supports vars lower from) λ l.
            bind-Supports _ _ (eval_maybe-Supports vars upper to) λ u.
              bind-Supports _ _ (eval_maybe-Supports vars step by)
                λ s. or_raise-Supports (py.get_slice v l u s)
    eval-Supports vars (Expr.list es) h = bind-Supports _ _ (eval_all-Supports vars es h) λ vs. tt
    eval-Supports vars (Expr.tuple es) h = bind-Supports _ _ (eval_all-Supports vars es h) λ vs. tt
    eval-Supports vars (Expr.if_expr test body orelse) h =
        let (first, rest) = andalso_none _ _ h in
        let (second, third) = andalso_none _ _ rest in
        bind-Supports _ _ (eval-Supports vars test first) λ v.
          if-Supports (py.truth v) _ _ (eval-Supports vars body second)
            (eval-Supports vars orelse third)
    eval-Supports vars Expr.other h = absurd (cc)

    eval_all-Supports :
        (vars : Vars Value) (es : Exprs) → validate_exprs es ≡ none → Supports (eval_all py vars es)
    eval_all-Supports vars Exprs.nil h = tt
    eval_all-Supports vars (Exprs.cons e es) h =
        let (first, rest) = andalso_none _ _ h in
        bind-Supports _ _ (eval-Supports vars e first)
          λ v. bind-Supports _ _ (eval_all-Supports vars es rest) λ vs. tt

    eval_and-Supports :
        (vars : Vars Value) (result : Value) (es : Exprs)
        → validate_exprs es ≡ none
        → Supports (eval_and py vars result es)
    eval_and-Supports vars result Exprs.nil h = tt
    eval_and-Supports vars result (Exprs.cons e es) h =
        let (first, rest) = andalso_none _ _ h in
        bind-Supports _ _ (eval-Supports vars e first)
          λ v. if-Supports (py.truth v) _ _ (eval_and-Supports vars v es rest) tt

    eval_or-Supports :
        (vars : Vars Value) (result : Value) (es : Exprs)
        → validate_exprs es ≡ none
        → Supports (eval_or py vars result es)
    eval_or-Supports vars result Exprs.nil h = tt
    eval_or-Supports vars result (Exprs.cons e es) h =
        let (first, rest) = andalso_none _ _ h in
        bind-Supports _ _ (eval-Supports vars e first)
          λ v. if-Supports (py.truth v) _ _ tt (eval_or-Supports vars v es rest)

    eval_compare-Supports :
        (vars : Vars Value) (left : Value) (cs : Comparisons)
        → validate_ops cs ≡ none
        → validate_comparators cs ≡ none
        → Supports (eval_compare py vars left cs)
    eval_compare-Supports vars left Comparisons.done h k = tt
    eval_compare-Supports vars left (Comparisons.comparison op e rest) h k =
        let (known, ops) = andalso_none _ _ h in
        let (first, comparators) = andalso_none _ _ k in
        bind-Supports _ _ (eval-Supports vars e first) λ v.
          bind-Supports _ _
            (eval_compare_op-Supports op left v (refuse_unless (is_compare_supported op) _ known))
            λ b. if-Supports b _ _ (eval_compare-Supports vars v rest ops comparators) tt

    pub eval_maybe-Supports :
        (vars : Vars Value) (e : MaybeExpr)
        → validate_maybe e ≡ none
        → Supports (eval_maybe py vars e)
    eval_maybe-Supports vars MaybeExpr.absent h = tt
    eval_maybe-Supports vars (MaybeExpr.present e) h = eval-Supports vars e h
