-- ===== src/Builder/Program.antt =====
-- The statements and the function of src/ASTBuilderVisitor.cpp.
pub mod Makes
pub mod Total
pub mod Ready
use d_gen.Prelude.{ℕ, ◌+◌, Option, none, some, List, [], ◌∷◌, String, ℤ, negsuc}
use d_gen.Errors.{Position, Outcome, ok, crash, ◌>>=◌}
use d_gen.Types.{Ty}
use d_gen.Ast.{
  Expr, ident_node, arr_lookup_node, cons, PrecondNode, AsgNode, DefNode, Stmt, if_node,
  if_else_node, for_node, def_node, continue_node, break_node, return_node, asg_node, Stmts, end,
  ◌⨾◌, FunctionNode,
}
use d_gen.Ast.Build.{create_asg, create_crem}
use d_gen.Grammar.{
  LogicExpr, Target, ident_target, lookup_target, Assignment, simple_asg, crem_asg, Precondition,
  Statement, assignment, return_stmt, break_stmt, continue_stmt, define, for_stmt, while_stmt,
  if_stmt, if_else_stmt, Statements, no_stmts, stmt_then, Argument, Function,
}
use d_gen.Builder.{
  asg_text, crem_text, new_ident, visit_type, visit_logic_expr, visit_expr, visit_exprs,
}

-- A visit of a subtree that may be missing.
abbrev pub if_there : {A B : Type 0} → (A → Outcome B) → Option A → Outcome (Option B)
if_there f none = ok none
if_there f (some a) = do b ← f a; ok (some b)

-- `atoi` is std::atoi.
module _ (atoi : String → ℤ) where
  unfoldable pub visit_target : Target → Outcome Expr
  visit_target (ident_target p name) = ok (ident_node (new_ident p name))
  visit_target (lookup_target p name c cs) = do
    idx ← visit_expr atoi c
    idxs ← visit_exprs atoi cs
    ok (arr_lookup_node p (new_ident p name) (cons idx idxs))

  -- visitSimple_asg and visitCrem_asg
  unfoldable pub visit_assignment : Assignment → Outcome AsgNode
  visit_assignment (simple_asg p target o c) = do
    lhs ← visit_target target
    rhs ← visit_logic_expr atoi c
    create_asg p lhs (asg_text o) rhs
  visit_assignment (crem_asg p target o) = do
    lhs ← visit_target target
    create_crem p lhs (crem_text o)

  unfoldable pub prob_of : Option String → ℤ
  prob_of none = negsuc 0
  prob_of (some num) = atoi num

  unfoldable pub visit_precondition : Precondition → Outcome PrecondNode
  visit_precondition c = do
    e ← if_there (visit_logic_expr atoi) c.expr
    ok (record { pos = c.pos; prob = prob_of c.prob; expr = e })

  -- The condition of visitFor, which is visited also where it is a null pointer.
  unfoldable pub visit_condition : Option LogicExpr → Outcome Expr
  visit_condition none = crash
  visit_condition (some c) = visit_logic_expr atoi c

  -- visitBody and the visits of its statements. A ForNode gets the next of the addresses that are
  -- threaded through.
  unfoldable mutual
    pub visit_statement : Statement → ℕ → Outcome (Stmt × ℕ)
    visit_statement (assignment a) n = do asg ← visit_assignment a; ok (asg_node asg, n)
    visit_statement (return_stmt p c) n = do e ← visit_logic_expr atoi c; ok (return_node p e, n)
    visit_statement (break_stmt p) n = ok (break_node p none, n)
    visit_statement (continue_stmt p) n = ok (continue_node p none, n)
    visit_statement (define p ty name c) n = do
      type ← visit_type ty
      rhs ← if_there (visit_logic_expr atoi) c
      ok (def_node (record { pos = p; name = name; type = type; rhs = rhs; sym = none }), n)
    visit_statement (for_stmt p pre a c i b) n = do
      precond ← if_there visit_precondition pre
      pre_asg ← if_there visit_assignment a
      cond ← visit_condition c
      inc_asg ← if_there visit_assignment i
      (body, k) ← visit_body b n
      ok (
        for_node
            (record {
              addr = k;
              pos = p;
              precond = precond;
              pre_asg = pre_asg;
              cond = cond;
              inc_asg = inc_asg;
            })
            body,
        k + 1,
      )
    visit_statement (while_stmt p pre c b) n = do
      precond ← if_there visit_precondition pre
      cond ← visit_logic_expr atoi c
      (body, k) ← visit_body b n
      ok (
        for_node
            (record {
              addr = k;
              pos = p;
              precond = precond;
              pre_asg = none;
              cond = cond;
              inc_asg = none;
            })
            body,
        k + 1,
      )
    visit_statement (if_stmt p pre c b) n = do
      precond ← if_there visit_precondition pre
      cond ← visit_logic_expr atoi c
      (body, k) ← visit_body b n
      ok (if_node (record { pos = p; precond = precond; cond = cond }) body, k)
    visit_statement (if_else_stmt p pre c b e) n = do
      precond ← if_there visit_precondition pre
      cond ← visit_logic_expr atoi c
      (body, k) ← visit_body b n
      (else_body, l) ← visit_body e k
      ok (if_else_node (record { pos = p; precond = precond; cond = cond }) body else_body, l)

    pub visit_body : Statements → ℕ → Outcome (Stmts × ℕ)
    visit_body no_stmts n = ok (end, n)
    visit_body (stmt_then s b) n = do
      (stmt, k) ← visit_statement s n
      (stmts, l) ← visit_body b k
      ok (stmt ⨾ stmts, l)

-- the loop of visitFunction over the arguments
unfoldable pub visit_args : List Argument → Outcome (List DefNode)
visit_args [] = ok []
visit_args (a ∷ args) = do
  type ← visit_type a.type
  ds ← visit_args args
  ok (record { pos = a.pos; name = a.name; type = type; rhs = none; sym = none } ∷ ds)

unfoldable pub visit_function : (String → ℤ) → Function → Outcome FunctionNode
visit_function atoi f = do
  ret_type ← visit_type f.ret_type
  args ← visit_args f.args
  (body, n) ← visit_body atoi f.body 0
  ok (record { pos = f.pos; ret_type = ret_type; name = f.f_name; args = args; body = body })
