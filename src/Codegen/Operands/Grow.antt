-- ===== src/Codegen/Operands/Grow.antt =====
-- An expression, a place and a list of indices only append instructions (src/CodegenVisitor.cpp).
use d_gen.Prelude.{◌≡◌, Bool, true, false, List, [], ◌∷◌, subst, ap, if◌then◌else◌}
use d_gen.Errors.{Position, Outcome, ok, crash, ◌>>=◌, >>=-eq-ok, ok_injective}
use d_gen.Ast.{
  Symbol, IdentNode, Expr, char_node, string_node, number_node, bool_node, ident_node, bin_op_node,
  arr_lookup_node, arr_create_node, property_lookup_node, Exprs, nil, cons,
}
use d_gen.Ast.Typing.{arr_lookup_type}
use d_gen.Values.{get_pointed_type_elem}
use d_gen.Values.Memory.{get_sizeof}
use d_gen.Codegen.Blocks.{Prefix, Prefix-refl, Prefix-trans}
use d_gen.Codegen.Operands.{
  Operand, null_ptr, alloca, Op, string_ptr, bin, load, gep, input, input_element, get_property,
  create_arr, opcode, symbol_of, insert_op, gen_ident, gen_property, gen_expr, gen_lookup,
  gen_address, gen_idxs, is_array_sym, map_type_to_llvm_type, code_gen_idx,
}

insert_op-Prefix :
    (o : Op) (ops : List Op) (v : Operand) (out : List Op)
    → insert_op o ops ≡ ok (v, out)
    → Prefix ops out
unfolding insert_op
insert_op-Prefix o ops v out h = (o ∷ [], ap (λ (r : Operand × List Op). r.1) (ok_injective h))

if_insert-Prefix :
    (b : Bool) (o p : Op) (ops : List Op) (v : Operand) (out : List Op)
    → (if b then insert_op o ops else insert_op p ops) ≡ ok (v, out)
    → Prefix ops out
if_insert-Prefix true o p ops v out h = insert_op-Prefix o ops v out h
if_insert-Prefix false o p ops v out h = insert_op-Prefix p ops v out h

property-Prefix :
    (b : Bool) (s : Symbol) (ops : List Op) (v : Operand) (out : List Op)
    → (if b then insert_op (get_property s null_ptr) ops else (do
      (ptr, ops₁) ← insert_op (load (alloca s.addr)) ops
      insert_op (get_property s ptr) ops₁))
      ≡ ok (v, out)
    → Prefix ops out
property-Prefix true s ops v out h = insert_op-Prefix (get_property s null_ptr) ops v out h
property-Prefix false s ops v out h =
    let ((ptr, ops₁), e, h₁) = >>=-eq-ok (insert_op (load (alloca s.addr)) ops) _ h in
    Prefix-trans ops (insert_op-Prefix (load (alloca s.addr)) ops ptr ops₁ e)
      (insert_op-Prefix (get_property s ptr) ops₁ v out h₁)

code_gen_idx-Prefix :
    (s : Symbol) (vs : List Operand) (ops : List Op) (v : Operand) (out : List Op)
    → code_gen_idx s vs ops ≡ ok (v, out)
    → Prefix ops out
unfolding code_gen_idx
code_gen_idx-Prefix s vs ops v out h = inv (is_array_sym s) h
  where
    inv :
        (b : Bool)
        → (if b
            then (do _ ← map_type_to_llvm_type s.type; insert_op (input_element s vs) ops)
            else crash)
          ≡ ok (v, out)
        → Prefix ops out
    inv true h =
        let (u, e, h₁) = >>=-eq-ok (map_type_to_llvm_type s.type) _ h in
        insert_op-Prefix (input_element s vs) ops v out h₁
    inv false h = cc

lookup-Prefix :
    (b : Bool) (p : Position) (i : IdentNode) (es : Exprs) (s : Symbol) (ops : List Op)
    (v : Operand) (out : List Op)
    → ((u : Operand) (to : List Op)
        → gen_address (alloca s.addr) es ops ≡ ok (u, to)
        → Prefix ops to)
    → ((us : List Operand) (to : List Op) → gen_idxs es ops ≡ ok (us, to) → Prefix ops to)
    → gen_lookup b p i es s (gen_address (alloca s.addr) es ops) (gen_idxs es ops) ≡ ok (v, out)
    → Prefix ops out
unfolding gen_lookup
lookup-Prefix false p i es s ops v out place idxs h =
    let (t, e, h₁) = >>=-eq-ok (arr_lookup_type p i es) _ h in
    let (u, e', h₂) = >>=-eq-ok (map_type_to_llvm_type t) _ h₁ in
    let ((addr, ops₁), g, h₃) = >>=-eq-ok (gen_address (alloca s.addr) es ops) _ h₂ in
    Prefix-trans ops (place addr ops₁ g) (insert_op-Prefix (load addr) ops₁ v out h₃)
lookup-Prefix true p i es s ops v out place idxs h =
    let ((vs, ops₁), g, h₁) = >>=-eq-ok (gen_idxs es ops) _ h in
    Prefix-trans ops (idxs vs ops₁ g) (code_gen_idx-Prefix s vs ops₁ v out h₁)

constant-Prefix :
    (u v : Operand) (ops out : List Op)
    → ◌≡◌ {A = Outcome (Operand × List Op)} (ok (u, ops)) (ok (v, out))
    → Prefix ops out
constant-Prefix u v ops out h =
    subst (Prefix ops) (ap (λ (r : Operand × List Op). r.1) (ok_injective h)) (Prefix-refl ops)

mutual
  unfolding gen_expr gen_ident gen_property

  pub gen_expr-Prefix :
      (e : Expr) (ops : List Op) (v : Operand) (out : List Op)
      → gen_expr e ops ≡ ok (v, out)
      → Prefix ops out
  gen_expr-Prefix (bool_node p b) ops v out h = constant-Prefix _ v ops out h
  gen_expr-Prefix (number_node p z) ops v out h = constant-Prefix _ v ops out h
  gen_expr-Prefix (char_node p c) ops v out h = constant-Prefix _ v ops out h
  gen_expr-Prefix (string_node p t) ops v out h = insert_op-Prefix (string_ptr t) ops v out h
  gen_expr-Prefix (bin_op_node p o l r) ops v out h =
      let ((a, ops₁), e₁, h₁) = >>=-eq-ok (gen_expr l ops) _ h in
      let ((b, ops₂), e₂, h₂) = >>=-eq-ok (gen_expr r ops₁) _ h₁ in
      Prefix-trans ops (gen_expr-Prefix l ops a ops₁ e₁) (
        Prefix-trans ops₁ (gen_expr-Prefix r ops₁ b ops₂ e₂)
          (insert_op-Prefix (bin (opcode o) a b) ops₂ v out h₂))
  gen_expr-Prefix (ident_node i) ops v out h =
      let (s, e, h₁) = >>=-eq-ok (symbol_of i) _ h in
      if_insert-Prefix s.is_input (input s) (load (alloca s.addr)) ops v out h₁
  gen_expr-Prefix (arr_lookup_node p i es) ops v out h =
      let (s, e, h₁) = >>=-eq-ok (symbol_of i) _ h in
      lookup-Prefix s.is_input p i es s ops v out (gen_address-Prefix (alloca s.addr) es ops)
        (gen_idxs-Prefix es ops) h₁
  gen_expr-Prefix (property_lookup_node p i n) ops v out h =
      let (s, e, h₁) = >>=-eq-ok (symbol_of i) _ h in property-Prefix s.is_input s ops v out h₁
  gen_expr-Prefix (arr_create_node p t len) ops v out h =
      let (size, e, h₁) = >>=-eq-ok (get_sizeof (get_pointed_type_elem t)) _ h in
      let ((n, ops₁), e₁, h₂) = >>=-eq-ok (gen_expr len ops) _ h₁ in
      Prefix-trans ops (gen_expr-Prefix len ops n ops₁ e₁)
        (insert_op-Prefix (create_arr n size) ops₁ v out h₂)

  pub gen_address-Prefix :
      (a : Operand) (es : Exprs) (ops : List Op) (v : Operand) (out : List Op)
      → gen_address a es ops ≡ ok (v, out)
      → Prefix ops out
  gen_address-Prefix a nil ops v out h = constant-Prefix a v ops out h
  gen_address-Prefix a (cons e es) ops v out h =
      let ((ptr, ops₁), e₁, h₁) = >>=-eq-ok (insert_op (load a) ops) _ h in
      let ((n, ops₂), e₂, h₂) = >>=-eq-ok (gen_expr e ops₁) _ h₁ in
      let ((next, ops₃), e₃, h₃) = >>=-eq-ok (insert_op (gep ptr n) ops₂) _ h₂ in
      Prefix-trans ops (insert_op-Prefix (load a) ops ptr ops₁ e₁) (
        Prefix-trans ops₁ (gen_expr-Prefix e ops₁ n ops₂ e₂) (
          Prefix-trans ops₂ (insert_op-Prefix (gep ptr n) ops₂ next ops₃ e₃)
            (gen_address-Prefix next es ops₃ v out h₃)))

  pub gen_idxs-Prefix :
      (es : Exprs) (ops : List Op) (vs : List Operand) (out : List Op)
      → gen_idxs es ops ≡ ok (vs, out)
      → Prefix ops out
  gen_idxs-Prefix nil ops vs out h =
      subst (Prefix ops) (ap (λ (r : List Operand × List Op). r.1) (ok_injective h))
        (Prefix-refl ops)
  gen_idxs-Prefix (cons e es) ops vs out h =
      let ((v, ops₁), e₁, h₁) = >>=-eq-ok (gen_expr e ops) _ h in
      let ((us, ops₂), e₂, h₂) = >>=-eq-ok (gen_idxs es ops₁) _ h₁ in
      let same : ops₂ ≡ out = ap (λ (r : List Operand × List Op). r.1) (ok_injective h₂) in
      Prefix-trans ops (gen_expr-Prefix e ops v ops₁ e₁)
        (subst (Prefix ops₁) same (gen_idxs-Prefix es ops₁ us ops₂ e₂))
