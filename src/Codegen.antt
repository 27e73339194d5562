-- ===== src/Codegen.antt =====
-- src/CodegenVisitor.h and src/CodegenVisitor.cpp: the basic blocks that are emitted for statements.
pub mod Run
pub mod Operands
pub mod Blocks
pub mod Lay
pub mod Keeps
pub mod Moves
pub mod Shape
pub mod Goes
pub mod Sim
pub mod Correct
pub mod Compile
pub mod Halts
pub mod Tidy
use d_gen.Prelude.{
  ℕ, suc, ◌+◌, Bool, true, false, ◌&&◌, Option, none, some, List, [], ◌∷◌, ◌++◌, ◌==◌,
  if◌then◌else◌,
}
use d_gen.Errors.{Outcome, ok, crash, ◌>>=◌}
use d_gen.Ast.{
  Expr, IfHead, ForHead, PrecondNode, AsgNode, DefNode, Stmt, if_node, if_else_node, for_node,
  def_node, continue_node, break_node, return_node, asg_node, Stmts, end, ◌⨾◌, FunctionNode,
}

-- A basic block, by the number of blocks that were created before it.
abbrev pub Label : Type 0
Label = ℕ

-- What is inserted at the end of a block. `define`, `assign` and `give_back` stand for the instructions of
-- a DefNode, an AsgNode and a ReturnNode up to the call of gather_res, none of which ends a block;
-- `cond_br` for those of a condition, with its precondition, and the branch on it.
pub data Instr : Type 0 where
  define : DefNode → Instr
  assign : AsgNode → Instr
  give_back : Expr → Instr
  br : Label → Instr
  cond_br : Option PrecondNode → Expr → Label → Label → Instr
  ret_void : Instr

abbrev pub Code : Type 0
Code = Label → List Instr

-- The module and the builder, and the fields `loop_cond_bb` and `merge_bb` of the ForNodes by address.
pub record Ir : Type 0 where
  pub next : ℕ
  pub here : Label
  pub code : Code
  pub loops : ℕ → Option (Label × Label)

-- the builder's Create... functions, at the insert point
unfoldable pub emit : Instr → Ir → Ir
emit i b = record b { code = λ l. if l == b.here then b.code l ++ i ∷ [] else b.code l }

-- three calls of BasicBlock::Create
unfoldable pub three_blocks : Ir → Ir
three_blocks b = record b { next = b.next + 3 }

unfoldable pub set_insert_point : Label → Ir → Ir
set_insert_point l b = record b { here = l }

unfoldable pub set_loop : ℕ → Label → Label → Ir → Ir
set_loop a cond merge b = record b { loops = λ k. if k == a then some (cond, merge) else b.loops k }

-- node->loop->loop_cond_bb and node->loop->merge_bb
unfoldable pub labels_of : Option ℕ → Ir → Outcome (Label × Label)
labels_of none b = crash
labels_of (some a) b = elim (b.loops a) [ none ↦ crash | some ls ↦ ok ls ]

unfoldable pub emit_asg : Option AsgNode → Ir → Ir
emit_asg none b = b
emit_asg (some a) b = emit (assign a) b

-- The last statement decides.
unfoldable mutual
  pub is_br : Stmt → Bool
  is_br (continue_node _ _) = true
  is_br (break_node _ _) = true
  is_br (return_node _ _) = true
  is_br (if_else_node h b e) = is_last_stmt_br b && is_last_stmt_br e
  is_br _ = false

  pub is_last_stmt_br : Stmts → Bool
  is_last_stmt_br end = false
  is_last_stmt_br (s ⨾ end) = is_br s
  is_last_stmt_br (s ⨾ (t ⨾ b)) = is_last_stmt_br (t ⨾ b)

-- code_gen of an IfNode up to its body, with the insert point in the first of three new blocks
unfoldable pub open_if : IfHead → Ir → Ir
open_if h b =
    set_insert_point b.next (emit (cond_br h.precond h.cond b.next (b.next + 1)) (three_blocks b))

-- the branch to `k` at the end of a body
unfoldable pub close : Label → Stmts → Ir → Ir
close k body b = if is_last_stmt_br body then b else emit (br k) b

-- code_gen of a ForNode up to its body
unfoldable pub open_for : ForHead → Ir → Ir
open_for h b = set_insert_point (b.next + 1) (
    emit (cond_br h.precond h.cond (b.next + 1) (b.next + 2)) (
      set_insert_point b.next (
        emit (br b.next)
          (set_loop h.addr b.next (b.next + 2) (three_blocks (emit_asg h.pre_asg b))))))

unfoldable pub close_for : ForHead → Label → Stmts → Ir → Ir
close_for h k body b = if is_last_stmt_br body then b else emit (br k) (emit_asg h.inc_asg b)

unfoldable mutual
  pub gen_stmt : Stmt → Ir → Outcome Ir
  gen_stmt (def_node d) b = ok (emit (define d) b)
  gen_stmt (asg_node a) b = ok (emit (assign a) b)
  gen_stmt (return_node p e) b = ok (emit ret_void (emit (give_back e) b))
  gen_stmt (continue_node p loop) b = do ls ← labels_of loop b; ok (emit (br ls.0) b)
  gen_stmt (break_node p loop) b = do ls ← labels_of loop b; ok (emit (br ls.1) b)
  gen_stmt (if_node h body) b = do
    b₁ ← gen_body body (open_if h b)
    let b₂ = set_insert_point (b.next + 1) (close (b.next + 2) body b₁)
    ok (set_insert_point (b.next + 2) (emit (br (b.next + 2)) b₂))
  gen_stmt (if_else_node h body els) b = do
    b₁ ← gen_body body (open_if h b)
    b₂ ← gen_body els (set_insert_point (b.next + 1) (close (b.next + 2) body b₁))
    ok (set_insert_point (b.next + 2) (close (b.next + 2) els b₂))
  gen_stmt (for_node h body) b = do
    b₁ ← gen_body body (open_for h b)
    ok (set_insert_point (b.next + 2) (close_for h b.next body b₁))

  pub gen_body : Stmts → Ir → Outcome Ir
  gen_body end b = ok b
  gen_body (s ⨾ body) b = do b₁ ← gen_stmt s b; gen_body body b₁

-- The constructor of the visitor: the entry block is the insert point.
abbrev pub new_ir : Ir
new_ir = record { next = 1; here = 0; code = λ l. []; loops = λ a. none }

-- code_gen of the FunctionNode, without run_optimizations
unfoldable pub gen_function : FunctionNode → Outcome Ir
gen_function f = gen_body f.body new_ir
