-- ===== src/Ast.antt =====
-- src/ast.h: the syntax tree. A node is a value here; where the program compares or shares nodes by
-- pointer, the address is a number in the node (`addr` of a loop and of a symbol).
pub mod Ops
pub mod Build
pub mod Typing
pub mod Rank
pub mod Loops
use d_gen.Prelude.{ℕ, ℤ, Bool, Option, List, String}
use d_gen.Errors.{Position}
use d_gen.Types.{Ty}

-- The fields of class Symbol (src/Symbol.h) that the constructor sets and nothing changes. What a
-- symbol keeps at run time is looked up by `addr`.
pub record Symbol : Type 0 where
  pub addr : ℕ
  pub pos : Position
  pub type : Ty
  pub name : String
  pub is_input : Bool

pub data BinOpType : Type 0 where
  sum sub or lt le gt ge eq neq mul div and : BinOpType

pub data AsgType : Type 0 where
  asg sum sub mul div : AsgType

pub data CremType : Type 0 where
  inc dec : CremType

-- `symbol` is a null pointer until the names are resolved.
pub record IdentNode : Type 0 where
  pub pos : Position
  pub name : String
  pub symbol : Option Symbol

-- The subclasses of ASTNode that are expressions, with their position first.
mutual
  pub data Expr : Type 0 where
    char_node : Position → ℕ → Expr
    string_node : Position → String → Expr
    number_node : Position → ℤ → Expr
    bool_node : Position → Bool → Expr
    ident_node : IdentNode → Expr
    bin_op_node : Position → BinOpType → Expr → Expr → Expr
    arr_lookup_node : Position → IdentNode → Exprs → Expr
    arr_create_node : Position → Ty → Expr → Expr
    property_lookup_node : Position → IdentNode → String → Expr

  -- std::vector<ASTNode*> of expressions
  pub data Exprs : Type 0 where
    nil : Exprs
    cons : Expr → Exprs → Exprs

abbrev pub expr_pos : Expr → Position
expr_pos (char_node p _) = p
expr_pos (string_node p _) = p
expr_pos (number_node p _) = p
expr_pos (bool_node p _) = p
expr_pos (ident_node i) = i.pos
expr_pos (bin_op_node p _ _ _) = p
expr_pos (arr_lookup_node p _ _) = p
expr_pos (arr_create_node p _ _) = p
expr_pos (property_lookup_node p _ _) = p

-- A `prob` of -1 stands for none.
pub record PrecondNode : Type 0 where
  pub pos : Position
  pub prob : ℤ
  pub expr : Option Expr

pub record AsgNode : Type 0 where
  pub pos : Position
  pub lhs : Expr
  pub rhs : Expr

pub record DefNode : Type 0 where
  pub pos : Position
  pub name : String
  pub type : Ty
  pub rhs : Option Expr
  pub sym : Option Symbol

-- The fields of IfNode and ForNode but for their bodies. A `while` is a ForNode with no assignment.
pub record IfHead : Type 0 where
  pub pos : Position
  pub precond : Option PrecondNode
  pub cond : Expr

pub record ForHead : Type 0 where
  pub addr : ℕ
  pub pos : Position
  pub precond : Option PrecondNode
  pub pre_asg : Option AsgNode
  pub cond : Expr
  pub inc_asg : Option AsgNode

-- Statements. A BodyNode is the list of its statements; its position is never read. The second
-- argument of `continue_node` and `break_node` is the field `loop`, the address of a ForNode.
mutual
  pub data Stmt : Type 0 where
    if_node : IfHead → Stmts → Stmt
    if_else_node : IfHead → Stmts → Stmts → Stmt
    for_node : ForHead → Stmts → Stmt
    def_node : DefNode → Stmt
    continue_node : Position → Option ℕ → Stmt
    break_node : Position → Option ℕ → Stmt
    return_node : Position → Expr → Stmt
    asg_node : AsgNode → Stmt

  pub data Stmts : Type 0 where
    end : Stmts
    ◌⨾◌ : Stmt → Stmts → Stmts

infixr 40 ◌⨾◌
pub record FunctionNode : Type 0 where
  pub pos : Position
  pub ret_type : Ty
  pub name : String
  pub args : List DefNode
  pub body : Stmts
