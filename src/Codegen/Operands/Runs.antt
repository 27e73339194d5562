-- ===== src/Codegen/Operands/Runs.antt =====
-- How the instructions of an expression run, and the value of an expression (src/CodegenVisitor.cpp).
use d_gen.Prelude.{
  ℕ, ℤ, true, false, not, ◌&&◌, Option, none, some, List, [], ◌∷◌, ◌++◌, String, get_elem?,
  if◌then◌else◌,
}
use d_gen.Errors.{Outcome, ok, crash, ◌>>=◌}
use d_gen.Types.{Ty, eq_type, is_convertable_to}
use d_gen.Ast.{
  Symbol, Expr, char_node, string_node, number_node, bool_node, ident_node, bin_op_node,
  arr_lookup_node, arr_create_node, property_lookup_node, Exprs, nil, cons, AsgNode,
}
use d_gen.Ast.Typing.{get_type}
use d_gen.Values.{get_pointed_type_elem}
use d_gen.Values.Memory.{get_sizeof}
use d_gen.Codegen.Operands.{
  Operand, int8, int32, null_ptr, alloca, register, Opcode, Op, string_ptr, bin, load, gep, input,
  input_element, get_property, create_arr, allocate, int_cast, store, opcode, symbol_of,
}

-- What the instructions do to the values `W` and the state `S` of a machine.
pub record Cpu (W S : Type 0) : Type 0 where
  pub small : ℕ → W
  pub number : ℤ → W
  pub null : W
  pub slot : ℕ → W
  pub text : String → S → W × S
  pub apply : Opcode → W → W → W
  pub read : W → S → W × S
  pub offset : W → W → W
  pub draw : Symbol → S → W × S
  pub draw_element : Symbol → List W → S → W × S
  pub size : Symbol → W → S → W × S
  pub new_array : W → ℕ → S → W × S
  pub new_slot : Symbol → S → W × S
  pub cast : Ty → W → W
  pub write : W → W → S → W × S

module _ {W S : Type 0} (m : Cpu W S) where
  -- The value of an operand, where the results of the instructions are `regs`.
  abbrev pub operand : List W → Operand → Option W
  operand regs (int8 n) = some (m.small n)
  operand regs (int32 z) = some (m.number z)
  operand regs null_ptr = some m.null
  operand regs (alloca a) = some (m.slot a)
  operand regs (register n) = get_elem? regs n

  unfoldable pub with_operand : {A : Type 0} → List W → Operand → (W → Option A) → Option A
  with_operand regs v f = elim (operand regs v) [ none ↦ none | some w ↦ f w ]

  unfoldable pub operands : List W → List Operand → Option (List W)
  operands regs [] = some []
  operands regs (v ∷ vs) = elim (operand regs v) [
    | none ↦ none
    | some w ↦ elim (operands regs vs) [ none ↦ none | some ws ↦ some (w ∷ ws) ]
  ]

  unfoldable pub run_op : Op → List W → S → Option (W × S)
  run_op (string_ptr t) regs s = some (m.text t s)
  run_op (bin o l r) regs s =
      with_operand regs l λ a. with_operand regs r λ b. some (m.apply o a b, s)
  run_op (load v) regs s = with_operand regs v λ a. some (m.read a s)
  run_op (gep v n) regs s = with_operand regs v λ a. with_operand regs n λ b. some (m.offset a b, s)
  run_op (input x) regs s = some (m.draw x s)
  run_op (input_element x vs) regs s = elim (operands regs vs) [
    | none ↦ none
    | some ws ↦ some (m.draw_element x ws s)
  ]
  run_op (get_property x v) regs s = with_operand regs v λ a. some (m.size x a s)
  run_op (create_arr v n) regs s = with_operand regs v λ a. some (m.new_array a n s)
  run_op (allocate x) regs s = some (m.new_slot x s)
  run_op (int_cast t v) regs s = with_operand regs v λ a. some (m.cast t a, s)
  run_op (store v p) regs s = with_operand regs v λ a. with_operand regs p λ b. some (m.write a b s)

  -- Each instruction appends its result.
  unfoldable pub run : List Op → List W → S → Option (List W × S)
  run [] regs s = some (regs, s)
  run (o ∷ os) regs s = elim (run_op o regs s) [
    | none ↦ none
    | some (w, s') ↦ run os (regs ++ w ∷ []) s'
  ]

  -- The value of an expression, from the left to the right, both sides of `&&` and `||` included.
  unfoldable pub value_of_symbol : Symbol → S → W × S
  value_of_symbol x s = if x.is_input then m.draw x s else m.read (m.slot x.addr) s

  unfoldable pub size_of_symbol : Symbol → S → W × S
  size_of_symbol x s =
      if x.is_input
      then m.size x m.null s
      else let (p, s₁) = m.read (m.slot x.addr) s in m.size x p s₁

  unfoldable mutual
    pub eval : Expr → S → Outcome (W × S)
    eval (bool_node _ b) s = ok (m.small (if b then 1 else 0), s)
    eval (number_node _ z) s = ok (m.number z, s)
    eval (char_node _ c) s = ok (m.small c, s)
    eval (string_node _ t) s = ok (m.text t s)
    eval (bin_op_node _ o l r) s = do
      (a, s₁) ← eval l s
      (b, s₂) ← eval r s₁
      ok (m.apply (opcode o) a b, s₂)
    eval (ident_node i) s = do x ← symbol_of i; ok (value_of_symbol x s)
    eval (arr_lookup_node _ i idxs) s = do
      x ← symbol_of i
      elim x.is_input [
        | false ↦ do (p, s₁) ← eval_place (m.slot x.addr) idxs s; ok (m.read p s₁)
        | true ↦ do (ws, s₁) ← eval_all idxs s; ok (m.draw_element x ws s₁)
      ]
    eval (property_lookup_node _ i _) s = do x ← symbol_of i; ok (size_of_symbol x s)
    eval (arr_create_node _ t len) s = do
      size ← get_sizeof (get_pointed_type_elem t)
      (n, s₁) ← eval len s
      ok (m.new_array n size s₁)

    -- the place of an element, behind a pointer for each index
    pub eval_place : W → Exprs → S → Outcome (W × S)
    eval_place p nil s = ok (p, s)
    eval_place p (cons e es) s = do
      let (q, s₁) = m.read p s
      (n, s₂) ← eval e s₁
      eval_place (m.offset q n) es s₂

    pub eval_all : Exprs → S → Outcome (List W × S)
    eval_all nil s = ok ([], s)
    eval_all (cons e es) s = do (a, s₁) ← eval e s; (as', s₂) ← eval_all es s₁; ok (a ∷ as', s₂)

  -- the conversion that convert_val_if_convertible inserts
  unfoldable pub converted : W → Ty → Ty → S → W × S
  converted w src_t dest_t s =
      if not (eq_type dest_t src_t) && is_convertable_to src_t dest_t
      then (m.cast dest_t w, s)
      else (w, s)

  unfoldable pub eval_target : Expr → S → Outcome (W × S)
  eval_target (ident_node i) s = do x ← symbol_of i; ok (m.slot x.addr, s)
  eval_target (arr_lookup_node _ i idxs) s = do x ← symbol_of i; eval_place (m.slot x.addr) idxs s
  eval_target _ s = crash

  -- An assignment finds the place first, and converts the value to the type of the place.
  unfoldable pub exec_asg : AsgNode → S → Outcome S
  exec_asg a s = do
    (p, s₁) ← eval_target a.lhs s
    (w, s₂) ← eval a.rhs s₁
    rhs_t ← get_type a.rhs
    lhs_t ← get_type a.lhs
    let (v, s₃) = converted w rhs_t lhs_t s₂
    ok (m.write v p s₃).1
