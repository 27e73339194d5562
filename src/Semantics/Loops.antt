-- ===== src/Semantics/Loops.antt =====
-- Semantics::connect_loops and Semantics::eliminate_unreachable_code (src/Semantics.cpp).
pub mod Connect
pub mod Trim
use d_gen.Prelude.{ℕ, Bool, true, false, Option, none, some, String, if◌then◌else◌}
use d_gen.Errors.{Position, Outcome, ok, ◌>>=◌, throw}
use d_gen.Ast.{
  Stmt, if_node, if_else_node, for_node, def_node, continue_node, break_node, return_node, asg_node,
  Stmts, end, ◌⨾◌, FunctionNode,
}

-- The statements at which the loop of connect_loops_visit_body returns.
abbrev pub is_loop_jump : Stmt → Bool
is_loop_jump (continue_node _ _) = true
is_loop_jump (break_node _ _) = true
is_loop_jump _ = false

-- The statements behind which eliminate_unreachable_code_visit_body cuts.
abbrev pub is_jump : Stmt → Bool
is_jump (return_node _ _) = true
is_jump s = is_loop_jump s

-- `if (!loop) throw ...; cont->loop = loop;`
abbrev pub connect_jump : Option ℕ → Position → String → Stmt → Outcome Stmt
connect_jump none p msg s = throw p msg
connect_jump (some a) p msg s = ok s

-- connect_loops_visit_body; `loop` is the address of the ForNode around the body, or none. What
-- stands behind a `continue` or a `break` is not visited.
unfoldable mutual
  pub connect_stmt : Option ℕ → Stmt → Outcome Stmt
  connect_stmt loop (continue_node p _) =
      connect_jump loop p "cannot match a continue node to a loop" (continue_node p loop)
  connect_stmt loop (break_node p _) =
      connect_jump loop p "cannot match a break node to a loop" (break_node p loop)
  connect_stmt loop (for_node h body) = do b ← connect_body (some h.addr) body; ok (for_node h b)
  connect_stmt loop (if_node h body) = do b ← connect_body loop body; ok (if_node h b)
  connect_stmt loop (if_else_node h body els) = do
    b ← connect_body loop body
    e ← connect_body loop els
    ok (if_else_node h b e)
  connect_stmt loop s = ok s

  pub connect_body : Option ℕ → Stmts → Outcome Stmts
  connect_body loop end = ok end
  connect_body loop (s ⨾ b) = do
    s' ← connect_stmt loop s
    b' ← if is_loop_jump s then ok b else connect_body loop b
    ok (s' ⨾ b')

unfoldable pub connect_loops : FunctionNode → Outcome FunctionNode
connect_loops f = do b ← connect_body none f.body; ok (record f { body = b })

-- eliminate_unreachable_code_visit_body
unfoldable mutual
  pub eliminate_stmt : Stmt → Stmt
  eliminate_stmt (for_node h body) = for_node h (eliminate_body body)
  eliminate_stmt (if_node h body) = if_node h (eliminate_body body)
  eliminate_stmt (if_else_node h body els) =
      if_else_node h (eliminate_body body) (eliminate_body els)
  eliminate_stmt s = s

  pub eliminate_body : Stmts → Stmts
  eliminate_body end = end
  eliminate_body (s ⨾ b) = if is_jump s then s ⨾ end else eliminate_stmt s ⨾ eliminate_body b

unfoldable pub eliminate_unreachable_code : FunctionNode → FunctionNode
eliminate_unreachable_code f = record f { body = eliminate_body f.body }
