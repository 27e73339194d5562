-- ===== src/Examples/Preparing.antt =====
-- Runs of prepare_eval_ctx (src/CodegenZ3Visitor.cpp) on small inputs, and the theorems at them.
use d_gen.Prelude.{ℕ, ◌≡◌, refl, true, false, none, some, List, [], ◌∷◌, ◌++◌, pos, negsuc}
use d_gen.Errors.{Position, ok}
use d_gen.Types.{Ty, int, arr}
use d_gen.Ast.{
  IdentNode, Expr, ident_node, bin_op_node, arr_lookup_node, property_lookup_node, nil, cons, gt,
  PrecondNode,
}
use d_gen.Values.{number_sym, array_sym, Numeral, int64, truth, Vals}
use d_gen.Codegen.Operands.{
  alloca, load, register, symbol_of, gen_idxs, gen_expr, gen_ident, insert_op,
}
use d_gen.Solve
use d_gen.Solve.Setting.{Z3, Running, State}
use d_gen.Solve.Prepare.{
  Call, upd_ident_addr, upd_arr_idxs, z3_gen, Emitted, prepare_eval_ctx, visit_precond,
  visit_children, visit_all, traverse_ast_cb, prepare_ident, prepare_property, prepare_lookup,
  update_lookup,
}
use d_gen.Solve.Prepare.Wants.{AllServed, reads, pre_reads}
use d_gen.Solve.Prepare.Visits.{prepare_eval_ctx-Served}
use d_gen.Solve.Prepare.Agrees.{gen_expr_agrees}

abbrev origin : Position
origin = record { line = 1; col = 0 }

abbrev int_type : Ty
int_type = record { types = int ∷ []; pos = 0 }

abbrev local_l : IdentNode
local_l = record {
  pos = origin;
  name = "l";
  symbol = some (record { addr = 4; pos = origin; type = int_type; name = "l"; is_input = false });
}

abbrev input_a : IdentNode
input_a = record {
  pos = origin;
  name = "a";
  symbol = some (record {
    addr = 1;
    pos = origin;
    type = record { types = arr ∷ int ∷ []; pos = 0 };
    name = "a";
    is_input = true;
  });
}

-- a[l] > l
abbrev above_l : Expr
above_l =
    bin_op_node origin gt (arr_lookup_node origin input_a (cons (ident_node local_l) nil))
      (ident_node local_l)

-- a.len > l
abbrev longer_than_l : Expr
longer_than_l =
    bin_op_node origin gt (property_lookup_node origin input_a "len") (ident_node local_l)

abbrev with_len : PrecondNode
with_len = record { pos = origin; prob = negsuc 0; expr = some longer_than_l }

abbrev nothing_emitted : Emitted
nothing_emitted = record { ops = []; calls = [] }

-- The variable is stored for the precondition; the index is loaded for the call of upd_arr_idxs; the
-- variable is stored again for the index and for the right side.
abbrev emitted : Emitted
emitted = record {
  ops = load (alloca 4) ∷ [];
  calls =
      (0, upd_ident_addr 4 (alloca 4))
      ∷ (1, upd_arr_idxs origin input_a (cons (ident_node local_l) nil) (register 0 ∷ []))
      ∷ (1, upd_ident_addr 4 (alloca 4))
      ∷ (1, upd_ident_addr 4 (alloca 4))
      ∷ (1, z3_gen above_l with_len)
      ∷ [];
}

prepares : prepare_eval_ctx above_l with_len nothing_emitted ≡ ok emitted
unfolding prepare_eval_ctx visit_precond visit_children visit_all traverse_ast_cb prepare_ident
    prepare_property prepare_lookup update_lookup gen_idxs gen_expr gen_ident insert_op symbol_of
prepares = refl

prepare_eval_ctx-Served_example :
    (cs : List (ℕ × Call)) × (emitted.calls ≡ cs ++ (1, z3_gen above_l with_len) ∷ [])
    × AllServed emitted.ops cs (pre_reads (some longer_than_l))
    × AllServed emitted.ops cs (reads above_l)
prepare_eval_ctx-Served_example =
    prepare_eval_ctx-Served above_l with_len nothing_emitted emitted tt prepares

-- Two programs that differ at the variable with the address 0.
abbrev at_place : ℕ → Running
at_place p = record {
  current_idxs = λ q i es. pos 0 ∷ [];
  current_ptr = λ q i es. p;
  alloca = λ a. elim a [ ℕ.zero ↦ p | ℕ.suc b ↦ 8 ];
  int32_at = λ q. pos 3;
  int8_at = λ q. pos 0;
  size_at = λ q. 0;
}

abbrev numerals : Z3 Numeral
numerals = record {
  int_val = int64;
  bool_val = truth;
  int_const = λ name. int64 (pos 7);
  bool_const = λ name. truth true;
  plus = λ a b. none;
  minus = λ a b. none;
  times = λ a b. none;
  divided = λ a b. none;
  less = λ a b. some (truth true);
  less_eq = λ a b. none;
  greater = λ a b. some (truth true);
  greater_eq = λ a b. none;
  equal = λ a b. none;
  distinct = λ a b. none;
  either = λ a b. none;
  both = λ a b. none;
  negated = λ a. none;
  is_bool = λ a. true;
  check = λ seed fs. none;
}

abbrev two_elements : State Numeral
two_elements = record {
  store = λ a.
      array_sym (record { types = arr ∷ int ∷ []; pos = 0 }) (some 1)
        (Vals.cons (number_sym none) Vals.nil);
  calls = 0;
  exprs = [];
  syms = [];
}

gen_expr_agrees_example :
    Solve.gen_expr numerals (λ n. n) (λ i. "0") (at_place 16) above_l two_elements
    ≡ Solve.gen_expr numerals (λ n. n) (λ i. "0") (at_place 24) above_l two_elements
gen_expr_agrees_example =
    gen_expr_agrees numerals (λ n. n) (λ i. "0") (at_place 16) (at_place 24)
      (record { ints = λ q. refl; chars = λ q. refl; sizes = λ q. refl }) above_l two_elements
      (refl, (refl, tt))
