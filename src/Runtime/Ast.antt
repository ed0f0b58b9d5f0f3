-- ===== src/Runtime/Ast.antt =====
-- lang/ast.py: the nodes of an expression. Spans and the source text of arguments are left out, and a
-- reference's root is read already.
use doomtp_bot.Prelude.{Bool, List, Text}
use doomtp_bot.Prelude.Int.{ℤ}
use doomtp_bot.Runtime.Values.{Value}
use doomtp_bot.Runtime.Ops.{BinaryOp, CompareOp}

-- The root of a reference: `_`, `_N`, `arg`, `args`, or another name that the bot defines.
pub data Root : Type 0 where
  last_result : Root
  result_number : ℤ → Root
  arg_root args_root : Root
  field_root : Text → Root

mutual
  pub data Expr : Type 0 where
    lit : Value → Expr
    ref : Root → List Text → Expr
    var_ref : Text → Text → Exprs → Expr
    index_of : Expr → Expr → Expr
    access : Expr → Text → List Text → Expr
    -- Unary, by its operator
    minus : Expr → Expr
    not_ : Expr → Expr
    -- Binary: an operator of ops.py, `??`, `and` and `or`
    binary : BinaryOp → Expr → Expr → Expr
    if_missing : Expr → Expr → Expr
    both : Expr → Expr → Expr
    either : Expr → Expr → Expr
    compare : Expr → Links → Expr
    subst : Invocation → Expr
    -- Placeholder, without a fallback and with one
    bare : Expr → Expr
    with_fallback : Expr → Parts → Expr

  pub data Exprs : Type 0 where
    no_exprs : Exprs
    next_expr : Expr → Exprs → Exprs

  pub data Links : Type 0 where
    no_links : Links
    link : CompareOp → Expr → Links → Links

  pub data Parts : Type 0 where
    no_parts : Parts
    text_part : Text → Parts → Parts
    placeholder : Expr → Parts → Parts

  pub data Args : Type 0 where
    no_args : Args
    next_arg : Parts → Args → Args

  -- Invocation, with arguments, or with the one expression that `check` and `calc` take
  pub data Invocation : Type 0 where
    invocation : ℤ → Text → Args → Invocation
    expression : ℤ → Text → Expr → Invocation

-- A store's target: the namespace, the name and the path.
pub record Target : Type 0 where
  pub namespace : Text
  pub name : Text
  pub path : Exprs

mutual
  pub data Node : Type 0 where
    command : Invocation → Node
    pipe : Node → Node → Node
    and_ : Node → Node → Node
    or_ : Node → Node → Node
    group : Node → Node
    store : Node → Target → Bool → Node
    -- IfElse, without an else branch and with one
    if_then : Parts → Node → Node
    if_else : Parts → Node → Node → Node

abbrev pub index_in : Invocation → ℤ
index_in (invocation i name args) = i
index_in (expression i name e) = i

abbrev pub name_in : Invocation → Text
name_in (invocation i name args) = name
name_in (expression i name e) = name
