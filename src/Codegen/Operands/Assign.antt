-- ===== src/Codegen/Operands/Assign.antt =====
-- The instructions of an assignment (src/CodegenVisitor.cpp).
use d_gen.Prelude.{◌≡◌, refl, ap, ◌∙◌, not, ◌&&◌, false, some, List, [], ◌∷◌, ◌++◌}
use d_gen.Errors.{ok, ok_injective}
use d_gen.Types.{Ty, eq_type, is_convertable_to}
use d_gen.Ast.{
  Symbol, IdentNode, Expr, char_node, string_node, number_node, bool_node, ident_node, bin_op_node,
  arr_lookup_node, arr_create_node, property_lookup_node, AsgNode,
}
use d_gen.Ast.Typing.{get_type}
use d_gen.Codegen.Blocks.{Prefix-refl}
use d_gen.Codegen.Operands.{
  Operand, alloca, Op, int_cast, store, insert_op, alloca_of, get_address,
  convert_val_if_convertible, gen_store, gen_asg,
}
use d_gen.Codegen.Operands.Runs.{Cpu, operand, run_op, run, converted, eval_target, exec_asg}
use d_gen.Codegen.Operands.Steps.{
  At, Right, insert-At, insert_op-Right, operand-Prefix, with_operand-some, Right-if,
}
use d_gen.Codegen.Operands.Elements.{Resolved, AllResolved, symbol_of-eq}
use d_gen.Codegen.Operands.Right.{gen_expr-Right, gen_address-Right}

-- A variable that is no input or an element of one, with its names resolved.
abbrev pub IsPlace : Expr → Type 0
IsPlace (ident_node i) = (x : Symbol) × (i.symbol ≡ some x) × (x.is_input ≡ false)
IsPlace (arr_lookup_node _ i idxs) =
    ((x : Symbol) × (i.symbol ≡ some x) × (x.is_input ≡ false)) × AllResolved idxs
IsPlace _ = ⊥

alloca_of-eq :
    (i : IdentNode) (x : Symbol)
    → i.symbol ≡ some x
    → x.is_input ≡ false
    → alloca_of i ≡ ok (alloca x.addr)
unfolding alloca_of
alloca_of-eq i x e local = rw (symbol_of-eq i x e) (rw local refl)

module _ {W S : Type 0} (m : Cpu W S) where
  int_cast-run :
      (t : Ty) (v : Operand) (regs : List W) (s : S) (a : W)
      → operand m regs v ≡ some a
      → run_op m (int_cast t v) regs s ≡ some (m.cast t a, s)
  unfolding run_op
  int_cast-run t v regs s a p = with_operand-some m regs v _ a p

  store-run :
      (v u : Operand) (regs : List W) (s : S) (a b : W)
      → operand m regs v ≡ some a
      → operand m regs u ≡ some b
      → run_op m (store v u) regs s ≡ some (m.write a b s)
  unfolding run_op
  store-run v u regs s a b p q = with_operand-some m regs v _ a p ∙ with_operand-some m regs u _ b q

  module _ (s₀ : S) where
    get_address-Right :
        (e : Expr) (ops : List Op) (regs : List W) (s : S)
        → IsPlace e
        → At m s₀ ops regs s
        → Right m s₀ regs (get_address e ops) (eval_target m e s)
    unfolding get_address eval_target
    get_address-Right (ident_node i) ops regs s (x, r, local) at =
        rw (alloca_of-eq i x r local, symbol_of-eq i x r)
          (alloca x.addr, ops, regs, m.slot x.addr, s, refl, refl, at, refl, Prefix-refl regs)
    get_address-Right (arr_lookup_node p i idxs) ops regs s ((x, r, local), all) at =
        rw (alloca_of-eq i x r local, symbol_of-eq i x r)
          (gen_address-Right m s₀ idxs (alloca x.addr) (m.slot x.addr) ops regs s all at refl)
    get_address-Right (char_node _ _) ops regs s r at = absurd r
    get_address-Right (string_node _ _) ops regs s r at = absurd r
    get_address-Right (number_node _ _) ops regs s r at = absurd r
    get_address-Right (bool_node _ _) ops regs s r at = absurd r
    get_address-Right (bin_op_node _ _ _ _) ops regs s r at = absurd r
    get_address-Right (arr_create_node _ _ _) ops regs s r at = absurd r
    get_address-Right (property_lookup_node _ _ _) ops regs s r at = absurd r

    convert-Right :
        (v : Operand) (src_t dest_t : Ty) (ops : List Op) (regs : List W) (s : S) (a : W)
        → At m s₀ ops regs s
        → operand m regs v ≡ some a
        → Right m s₀ regs
            (convert_val_if_convertible v src_t dest_t ops)
            (ok (converted m a src_t dest_t s))
    unfolding convert_val_if_convertible converted
    convert-Right v src_t dest_t ops regs s a at x =
        Right-if m s₀ regs (not (eq_type dest_t src_t) && is_convertable_to src_t dest_t) _ _
          (m.cast dest_t a, s) (a, s)
          (insert_op-Right m s₀ (int_cast dest_t v) ops regs s s (m.cast dest_t a) at
            (int_cast-run dest_t v regs s a x))
          (v, ops, regs, a, s, refl, refl, at, x, Prefix-refl regs)

    gen_store-Right :
        (v addr : Operand) (src_t dest_t : Ty) (ops : List Op) (regs : List W) (s : S) (a p : W)
        → At m s₀ ops regs s
        → operand m regs v ≡ some a
        → operand m regs addr ≡ some p
        → (ops' : List Op) × (regs' : List W) × (s' : S) × (gen_store v src_t dest_t addr ops
            ≡ ok ops')
          × ((m.write (converted m a src_t dest_t s).0 p (converted m a src_t dest_t s).1).1 ≡ s')
          × At m s₀ ops' regs' s'
    unfolding gen_store insert_op
    gen_store-Right v addr src_t dest_t ops regs s a p at x y =
        let (w, ops₁, regs₁, b, s₁, g, f, at₁, z, pre) =
          convert-Right v src_t dest_t ops regs s a at x in
        let (r, s₂) = m.write b p s₁ in
        let y' = operand-Prefix m addr regs regs₁ p pre y in
        (
          ops₁ ++ store w addr ∷ [],
          regs₁ ++ r ∷ [],
          s₂,
          rw g refl,
          ap (λ (x : W × S). (m.write x.0 p x.1).1) (ok_injective f),
          insert-At m s₀ (store w addr) ops₁ regs₁ s₁ s₂ r at₁ (store-run w addr regs₁ s₁ b p z y'),
        )

-- If the left side of an assignment is a variable that is no input, or an element of one, its names have their symbols,
-- the elements that the right side and the indices read are those of arrays (Resolved), and both sides
-- have types, then its instructions are emitted, and on every machine they run from each
-- state to the end and leave the state of the assignment: the place of the left side is found
-- first, then the right side is evaluated, converted to the type of the left side if the types
-- differ and convert, and written to that place.
pub gen_asg-Runs :
    {W S : Type 0} (m : Cpu W S) (a : AsgNode) (rhs_t lhs_t : Ty) (s : S)
    → IsPlace a.lhs
    → Resolved a.rhs
    → get_type a.rhs ≡ ok rhs_t
    → get_type a.lhs ≡ ok lhs_t
    → (ops : List Op) × (regs : List W) × (s' : S) × (gen_asg a [] ≡ ok ops)
      × (exec_asg m a s ≡ ok s')
      × (run m ops [] s ≡ some (regs, s'))
unfolding run gen_asg exec_asg
gen_asg-Runs m a rhs_t lhs_t s place resolved tr tl =
    let (addr, ops₁, regs₁, p, s₁, g, f, at₁, x, _) =
      get_address-Right m s a.lhs [] [] s place (record { runs = refl; size = refl }) in
    let (v, ops₂, regs₂, w, s₂, h, e, at₂, y, pre) =
      gen_expr-Right m s a.rhs ops₁ regs₁ s₁ resolved at₁ in
    let (ops₃, regs₃, s₃, made, same, at₃) =
      gen_store-Right m s v addr rhs_t lhs_t ops₂ regs₂ s₂ w p at₂ y
        (operand-Prefix m addr regs₁ regs₂ p pre x) in
    (ops₃, regs₃, s₃, rw (g, h, tr, tl) made, rw (f, e, tr, tl, same) refl, at₃.runs)
