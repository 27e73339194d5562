-- ===== src/Grammar.antt =====
-- The trees of the grammar (d_gen.g4), as the parser that ANTLR generates hands them to the visitor. A
-- rule with one alternative of a fixed shape is a constructor with what the visitor reads: subtrees, texts
-- of tokens, and the position of the first token where it is asked for.
use d_gen.Prelude.{ℕ, Bool, Option, List, String}
use d_gen.Errors.{Position}

-- Tokens with several texts.
pub data ScalarType : Type 0 where
  int string char bool : ScalarType

pub data SumOp : Type 0 where
  plus minus : SumOp

pub data MulOp : Type 0 where
  star slash : MulOp

pub data CmpOp : Type 0 where
  lt le gt ge eq neq : CmpOp

pub data AsgOp : Type 0 where
  asg plus_asg minus_asg star_asg slash_asg : AsgOp

pub data CremOp : Type 0 where
  plus_plus minus_minus : CremOp

-- Between the quotes of a CHAR stands one character, by its bytes, or an escape.
pub data CharToken : Type 0 where
  plain : ℕ → List ℕ → CharToken
  newline tab : CharToken

-- type: a scalar type and the number of `[]` behind it
pub record TypeContext : Type 0 where
  pub scalar : ScalarType
  pub nested : ℕ

-- The expressions, down to the factors `f`; const and the other alternatives of `f` are its
-- constructors. The operators of a logic_expr are all `||`, those of a logic_t all `&&`.
mutual
  pub data LogicExpr : Type 0 where
    logic_expr : LogicT → LogicTs → LogicExpr

  pub data LogicTs : Type 0 where
    no_logic_ts : LogicTs
    or_then : LogicT → LogicTs → LogicTs

  pub data LogicT : Type 0 where
    logic_t : Position → LogicF → LogicFs → LogicT

  pub data LogicFs : Type 0 where
    no_logic_fs : LogicFs
    and_then : LogicF → LogicFs → LogicFs

  pub data LogicF : Type 0 where
    logic_inner_expr : Position → LogicExpr → LogicF
    cmp_op : Position → ExprContext → CmpOp → ExprContext → LogicF
    plain_expr : Position → ExprContext → LogicF

  pub data ExprContext : Type 0 where
    expr : TContext → TContexts → ExprContext

  pub data TContexts : Type 0 where
    no_ts : TContexts
    sum_then : SumOp → TContext → TContexts → TContexts

  pub data TContext : Type 0 where
    t : Position → FContext → FContexts → TContext

  pub data FContexts : Type 0 where
    no_fs : FContexts
    mul_then : MulOp → FContext → FContexts → FContexts

  pub data FContext : Type 0 where
    inner_expr : Position → ExprContext → FContext
    char_const : Position → CharToken → FContext
    string_const num_const : Position → String → FContext
    bool_const : Position → Bool → FContext
    f_ident : Position → String → FContext
    array_lookup : Position → String → ExprContext → ExprContexts → FContext
    array_create : Position → TypeContext → ExprContext → FContext
    property_lookup : Position → String → String → FContext
    unary_minus : Position → FContext → FContext

  pub data ExprContexts : Type 0 where
    no_exprs : ExprContexts
    expr_then : ExprContext → ExprContexts → ExprContexts

-- f_ident or array_lookup on the left of an assignment
pub data Target : Type 0 where
  ident_target : Position → String → Target
  lookup_target : Position → String → ExprContext → ExprContexts → Target

pub data Assignment : Type 0 where
  simple_asg : Position → Target → AsgOp → LogicExpr → Assignment
  crem_asg : Position → Target → CremOp → Assignment

pub record Precondition : Type 0 where
  pub pos : Position
  pub prob : Option String
  pub expr : Option LogicExpr

-- The condition of a `for` is optional in the grammar.
mutual
  pub data Statement : Type 0 where
    assignment : Assignment → Statement
    return_stmt : Position → LogicExpr → Statement
    break_stmt continue_stmt : Position → Statement
    define : Position → TypeContext → String → Option LogicExpr → Statement
    for_stmt :
        Position
        → Option Precondition
        → Option Assignment
        → Option LogicExpr
        → Option Assignment
        → Statements
        → Statement
    while_stmt : Position → Option Precondition → LogicExpr → Statements → Statement
    if_stmt : Position → Option Precondition → LogicExpr → Statements → Statement
    if_else_stmt : Position → Option Precondition → LogicExpr → Statements → Statements → Statement

  pub data Statements : Type 0 where
    no_stmts : Statements
    stmt_then : Statement → Statements → Statements

pub record Argument : Type 0 where
  pub pos : Position
  pub type : TypeContext
  pub name : String

pub record Function : Type 0 where
  pub pos : Position
  pub ret_type : TypeContext
  pub f_name : String
  pub args : List Argument
  pub body : Statements
