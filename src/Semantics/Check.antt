-- ===== src/Semantics/Check.antt =====
-- Semantics::type_check with type_check_visitor (src/Semantics.cpp). The visitor checks a node and
-- then, unless it says otherwise, the node's children, in their order.
pub mod Typed
use d_gen.Prelude.{Bool, not, Option, none, some, List, [], ◌∷◌, String, concat, if◌then◌else◌}
use d_gen.Errors.{Position, Outcome, ok, crash, ◌>>=◌, ◌>>◌, throw}
use d_gen.Types.{int, bool, Ty, eq_type, eq_kind, is_convertable_to, to_string}
use d_gen.Ast.{
  IdentNode, Expr, ident_node, bin_op_node, arr_lookup_node, arr_create_node, expr_pos, Exprs, nil,
  cons, PrecondNode, AsgNode, DefNode, Stmt, if_node, if_else_node, for_node, def_node, return_node,
  asg_node, Stmts, end, ◌⨾◌, FunctionNode,
}
use d_gen.Ast.Typing.{get_type}

-- the loop over the indices in the case of ArrLookupNode
unfoldable pub check_idxs : Exprs → Outcome (Unit {0})
check_idxs nil = ok tt
check_idxs (cons idx idxs) = do
  t ← get_type idx
  if not (eq_kind t int) then throw (expr_pos idx) "index should have int type" else check_idxs idxs

-- An IdentNode has no children, and nothing is checked at a constant.
unfoldable mutual
  pub check_expr : Expr → Outcome (Unit {0})
  check_expr (bin_op_node p o l r) = do check_expr l; check_expr r
  check_expr (arr_lookup_node p i idxs) = do check_idxs idxs; check_exprs idxs
  check_expr (arr_create_node p t len) = check_expr len
  check_expr _ = ok tt

  pub check_exprs : Exprs → Outcome (Unit {0})
  check_exprs nil = ok tt
  check_exprs (cons e es) = do check_expr e; check_exprs es

unfoldable pub check_optional :
    {A : Type 0} → (A → Outcome (Unit {0})) → Option A → Outcome (Unit {0})
check_optional f none = ok tt
check_optional f (some a) = f a

unfoldable pub check_precond_expr : Position → Expr → Outcome (Unit {0})
check_precond_expr p e = do
  t ← get_type e
  if not (eq_kind t bool) then throw p "precondition must be evaluated to bool" else ok tt

unfoldable pub type_check_precondition : PrecondNode → Outcome (Unit {0})
type_check_precondition c = check_optional (check_precond_expr c.pos) c.expr

unfoldable pub check_precond : PrecondNode → Outcome (Unit {0})
check_precond c = do type_check_precondition c; check_optional check_expr c.expr

-- The left side of an assignment: `is_input` is read through the symbol.
unfoldable pub check_not_input : Position → IdentNode → Outcome (Unit {0})
check_not_input p i = elim i.symbol [
  | none ↦ crash
  | some s ↦ if s.is_input then throw p "can not assign to input variable" else ok tt
]

unfoldable pub check_target : Expr → Outcome (Unit {0})
check_target (ident_node i) = check_not_input i.pos i
check_target (arr_lookup_node p i idxs) = check_not_input p i
check_target _ = ok tt

unfoldable pub type_check_asg : AsgNode → Outcome (Unit {0})
type_check_asg a = do
  lhs_t ← get_type a.lhs
  rhs_t ← get_type a.rhs
  if not (is_convertable_to lhs_t rhs_t)
      then throw a.pos (
          concat (
            "assignment sides have different types: "
            ∷ to_string lhs_t
            ∷ " and "
            ∷ to_string rhs_t
            ∷ []))
      else ok tt

unfoldable pub check_asg : AsgNode → Outcome (Unit {0})
check_asg a = do check_target a.lhs; type_check_asg a; check_expr a.lhs; check_expr a.rhs

unfoldable pub check_def_rhs : DefNode → Expr → Outcome (Unit {0})
check_def_rhs d rhs = do
  t ← get_type rhs
  if not (is_convertable_to t d.type)
      then throw d.pos (
          concat (
            "define statement have different types declared and evaluated: "
            ∷ to_string d.type
            ∷ " and "
            ∷ to_string t
            ∷ []))
      else check_expr rhs

unfoldable pub check_def : DefNode → Outcome (Unit {0})
check_def d = check_optional (check_def_rhs d) d.rhs

unfoldable pub check_return : Ty → Position → Expr → Outcome (Unit {0})
check_return ret p e = do
  t ← get_type e
  if not (eq_type t ret)
      then throw p (
          concat ("ret type is different, expected " ∷ to_string ret ∷ ", got " ∷ to_string t ∷ []))
      else check_expr e

-- the condition of an IfNode or a ForNode, with the message that it has
unfoldable pub check_cond : Position → String → Expr → Outcome (Unit {0})
check_cond p msg e = do
  t ← get_type e
  if not (eq_kind t bool) then throw p (concat (msg ∷ to_string t ∷ [])) else ok tt

-- `ret` is the return type of the function, which the visitor carries.
unfoldable mutual
  pub check_stmt : Ty → Stmt → Outcome (Unit {0})
  check_stmt ret (return_node p e) = check_return ret p e
  check_stmt ret (asg_node a) = check_asg a
  check_stmt ret (def_node d) = check_def d
  check_stmt ret (for_node h body) = do
    check_cond h.pos "loop stop condition must be evaluated to bool, got " h.cond
    check_optional check_precond h.precond
    check_optional check_asg h.pre_asg
    check_expr h.cond
    check_optional check_asg h.inc_asg
    check_stmts ret body
  check_stmt ret (if_node h body) = do
    check_cond h.pos "if operator condition must be evaluated to bool, got " h.cond
    check_optional check_precond h.precond
    check_expr h.cond
    check_stmts ret body
  check_stmt ret (if_else_node h body els) = do
    check_cond h.pos "if operator condition must be evaluated to bool, got " h.cond
    check_optional check_precond h.precond
    check_expr h.cond
    check_stmts ret body
    check_stmts ret els
  check_stmt ret _ = ok tt

  pub check_stmts : Ty → Stmts → Outcome (Unit {0})
  check_stmts ret end = ok tt
  check_stmts ret (s ⨾ b) = do check_stmt ret s; check_stmts ret b

unfoldable pub check_args : List DefNode → Outcome (Unit {0})
check_args [] = ok tt
check_args (d ∷ ds) = do check_def d; check_args ds

-- A FunctionNode has its body and then its arguments for children.
unfoldable pub type_check : FunctionNode → Outcome (Unit {0})
type_check f = do check_stmts f.ret_type f.body; check_args f.args
