-- ===== src/Solve/Prepare.antt =====
-- prepare_eval_ctx (src/CodegenZ3Visitor.cpp) and ASTNode::visitChildren (src/ast.cpp): the instructions
-- emitted before a condition, which store in its nodes what the translation of it will read.
pub mod Wants
pub mod Covers
pub mod Visits
pub mod Agrees
use d_gen.Prelude.{
  ℕ, Bool, true, false, none, some, Option, List, [], ◌∷◌, ◌++◌, length, if◌then◌else◌,
}
use d_gen.Errors.{Position, Outcome, ok, crash, ◌>>=◌}
use d_gen.Ast.{
  Symbol, IdentNode, Expr, char_node, string_node, number_node, bool_node, ident_node, bin_op_node,
  arr_lookup_node, arr_create_node, property_lookup_node, Exprs, nil, cons, PrecondNode,
}
use d_gen.Codegen.Operands.{Operand, alloca, Op, symbol_of, gen_address, gen_idxs}

-- The calls that are emitted, with the node and what it is to keep. The array for the indices is part
-- of `upd_arr_idxs`; `upd_ident_addr` stores the place of a variable in its symbol, by the address of it.
pub data Call : Type 0 where
  upd_ident_addr : ℕ → Operand → Call
  upd_arr_lookup_addr : Position → IdentNode → Exprs → Operand → Call
  upd_arr_idxs : Position → IdentNode → Exprs → List Operand → Call
  z3_gen : Expr → PrecondNode → Call

-- The instructions with results, and the calls, each with the number of such instructions before it.
pub record Emitted : Type 0 where
  pub ops : List Op
  pub calls : List (ℕ × Call)

abbrev pub emit_call : Call → List Op → Emitted → Emitted
emit_call c ops p = record { ops = ops; calls = p.calls ++ (length ops, c) ∷ [] }

-- prepare_eval_ctx(IdentNode *)
unfoldable pub prepare_ident : IdentNode → Emitted → Outcome Emitted
prepare_ident i p = do
  s ← symbol_of i
  ok (if s.is_input then p else emit_call (upd_ident_addr s.addr (alloca s.addr)) p.ops p)

-- prepare_eval_ctx(ArrLookupNode *), with `is_input` and `addr` of the symbol
unfoldable pub update_lookup : Bool → ℕ → Position → IdentNode → Exprs → Emitted → Outcome Emitted
update_lookup false a q i es p = do
  (addr, ops) ← gen_address (alloca a) es p.ops
  ok (emit_call (upd_arr_lookup_addr q i es addr) ops p)
update_lookup true a q i es p = do
  (vs, ops) ← gen_idxs es p.ops
  ok (emit_call (upd_arr_idxs q i es vs) ops p)

unfoldable pub prepare_lookup : Position → IdentNode → Exprs → Emitted → Outcome Emitted
prepare_lookup q i es p = do s ← symbol_of i; update_lookup s.is_input s.addr q i es p

-- prepare_eval_ctx(PropertyLookupNode *). With an input it ends without a return: it emits nothing, and
-- its only caller does not use what it returns.
unfoldable pub prepare_property : IdentNode → Emitted → Outcome Emitted
prepare_property i p = do s ← symbol_of i; if s.is_input then ok p else prepare_ident i p

-- traverse_ast_cb, which always goes on with the children
unfoldable pub traverse_ast_cb : Expr → Emitted → Outcome Emitted
traverse_ast_cb (ident_node i) p = prepare_ident i p
traverse_ast_cb (arr_lookup_node q i es) p = prepare_lookup q i es p
traverse_ast_cb (property_lookup_node _ i _) p = prepare_property i p
traverse_ast_cb _ p = ok p

-- ASTNode::visitChildren with this callback. It is not called for the node itself.
unfoldable mutual
  pub visit_children : Expr → Emitted → Outcome Emitted
  visit_children (bin_op_node _ _ lhs rhs) p = do
    p₁ ← traverse_ast_cb lhs p
    p₂ ← visit_children lhs p₁
    p₃ ← traverse_ast_cb rhs p₂
    visit_children rhs p₃
  visit_children (arr_lookup_node _ i es) p = do p₁ ← prepare_ident i p; visit_all es p₁
  visit_children (arr_create_node _ _ len) p = do p₁ ← traverse_ast_cb len p; visit_children len p₁
  visit_children (property_lookup_node _ i _) p = prepare_ident i p
  visit_children (ident_node _) p = ok p
  visit_children (char_node _ _) p = ok p
  visit_children (string_node _ _) p = ok p
  visit_children (number_node _ _) p = ok p
  visit_children (bool_node _ _) p = ok p

  pub visit_all : Exprs → Emitted → Outcome Emitted
  visit_all nil p = ok p
  visit_all (cons e es) p = do p₁ ← traverse_ast_cb e p; p₂ ← visit_children e p₁; visit_all es p₂

-- The only child of a PrecondNode is its expression, which may be a null pointer.
unfoldable pub visit_precond : Option Expr → Emitted → Outcome Emitted
visit_precond none p = ok p
visit_precond (some e) p = do p₁ ← traverse_ast_cb e p; visit_children e p₁

-- prepare_eval_ctx(ASTNode *cond, PrecondNode *pre_cond), which is called with a precondition
unfoldable pub prepare_eval_ctx : Expr → PrecondNode → Emitted → Outcome Emitted
prepare_eval_ctx cond pre p = do
  p₁ ← visit_precond pre.expr p
  p₂ ← visit_children cond p₁
  ok (emit_call (z3_gen cond pre) p₂.ops p₂)
