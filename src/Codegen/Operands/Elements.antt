-- ===== src/Codegen/Operands/Elements.antt =====
-- The instructions of an element and of a length (src/CodegenVisitor.cpp), with what is asked of the names of
-- an expression.
use d_gen.Prelude.{ℕ, Bool, true, false, ◌≡◌, refl, some, List, [], ◌∷◌, ◌++◌, length}
use d_gen.Errors.{Position, Outcome, ok, ◌>>=◌}
use d_gen.Types.{Ty}
use d_gen.Ast.{
  Symbol, IdentNode, Expr, ident_node, bin_op_node, arr_lookup_node, arr_create_node,
  property_lookup_node, Exprs, nil, cons,
}
use d_gen.Ast.Typing.{arr_lookup_type}
use d_gen.Values.{get_pointed_type_elem}
use d_gen.Values.Memory.{get_sizeof}
use d_gen.Codegen.Operands.{
  Operand, null_ptr, alloca, register, Op, load, input_element, get_property, symbol_of, insert_op,
  gen_property, gen_lookup, gen_address, gen_idxs, is_array_sym, map_type_to_llvm_type,
  code_gen_idx,
}
use d_gen.Codegen.Operands.Runs.{Cpu, size_of_symbol, eval_place, eval_all}
use d_gen.Codegen.Operands.Steps.{
  load-run, get_property-run, input_element-run, insert-At, operand-last, insert_op-Right,
  Right-from, Right-if, Right, AllRight, At,
}

-- An element is read of an input that is an array or a string, or of a variable that has as many arrays
-- in its type; and the type of either ends in a scalar.
abbrev pub HasElement : Bool → Position → IdentNode → Exprs → Symbol → Type 0
HasElement true p i idxs x = (is_array_sym x ≡ true) × (map_type_to_llvm_type x.type ≡ ok tt)
HasElement false p i idxs x =
    (t : Ty) × (arr_lookup_type p i idxs ≡ ok t) × (map_type_to_llvm_type t ≡ ok tt)

-- Each name has its symbol, each element that is read is one of its array, and the elements of each array
-- that is created have a size.
abbrev mutual
  pub Resolved : Expr → Type 0
  Resolved (ident_node i) = (x : Symbol) × (i.symbol ≡ some x)
  Resolved (bin_op_node _ _ l r) = Resolved l × Resolved r
  Resolved (arr_lookup_node p i idxs) =
      ((x : Symbol) × (i.symbol ≡ some x) × HasElement x.is_input p i idxs x) × AllResolved idxs
  Resolved (property_lookup_node _ i _) = (x : Symbol) × (i.symbol ≡ some x)
  Resolved (arr_create_node _ t len) =
      ((n : ℕ) × (get_sizeof (get_pointed_type_elem t) ≡ ok n)) × Resolved len
  Resolved _ = Unit

  pub AllResolved : Exprs → Type 0
  AllResolved nil = Unit
  AllResolved (cons e es) = Resolved e × AllResolved es

pub symbol_of-eq : (i : IdentNode) (x : Symbol) → i.symbol ≡ some x → symbol_of i ≡ ok x
unfolding symbol_of
symbol_of-eq i x e = rw (e, symbol_of) refl

code_gen_idx-eq :
    (x : Symbol) (vs : List Operand) (ops : List Op)
    → is_array_sym x ≡ true
    → map_type_to_llvm_type x.type ≡ ok tt
    → code_gen_idx x vs ops ≡ insert_op (input_element x vs) ops
unfolding code_gen_idx
code_gen_idx-eq x vs ops isarray typed = rw (isarray, typed) refl

module _ {W S : Type 0} (m : Cpu W S) (s₀ : S) where
  pub element-Right :
      (x : Symbol) (idxs : Exprs) (ops : List Op) (regs : List W) (s : S)
      → is_array_sym x ≡ true
      → map_type_to_llvm_type x.type ≡ ok tt
      → AllRight m s₀ regs (gen_idxs idxs ops) (eval_all m idxs s)
      → Right m s₀ regs
          (do (vs, ops₁) ← gen_idxs idxs ops; code_gen_idx x vs ops₁)
          (do (ws, s₁) ← eval_all m idxs s; ok (m.draw_element x ws s₁))
  element-Right x idxs ops regs s isarray typed (vs, ops₁, regs₁, ws, s₁, g, f, at₁, y, pre) =
      let (w, s') = m.draw_element x ws s₁ in
      let res =
        insert_op-Right m s₀ (input_element x vs) ops₁ regs₁ s₁ s' w at₁
          (input_element-run m x vs regs₁ s₁ ws y) in
      rw (g, f, code_gen_idx-eq x vs ops₁ isarray typed) (Right-from m s₀ regs regs₁ _ _ pre res)

  pub place-Right :
      (regs : List W) (gen : Outcome (Operand × List Op)) (ev : Outcome (W × S))
      → Right m s₀ regs gen ev
      → Right m s₀ regs
          (do (addr, ops₁) ← gen; insert_op (load addr) ops₁)
          (do (q, s₁) ← ev; ok (m.read q s₁))
  place-Right regs gen ev (v, ops₁, regs₁, a, s₁, g, f, at₁, y, pre) =
      let (w, s') = m.read a s₁ in
      let res = insert_op-Right m s₀ (load v) ops₁ regs₁ s₁ s' w at₁ (load-run m v regs₁ s₁ a y) in
      rw (g, f) (Right-from m s₀ regs regs₁ _ _ pre res)

  pub lookup-Right :
      (b : Bool) (p : Position) (i : IdentNode) (x : Symbol) (idxs : Exprs) (ops : List Op)
      (regs : List W) (s : S)
      → HasElement b p i idxs x
      → AllRight m s₀ regs (gen_idxs idxs ops) (eval_all m idxs s)
      → Right m s₀ regs (gen_address (alloca x.addr) idxs ops) (eval_place m (m.slot x.addr) idxs s)
      → Right m s₀ regs
          (gen_lookup b p i idxs x (gen_address (alloca x.addr) idxs ops) (gen_idxs idxs ops))
          (elim b [
            | false ↦ do (q, s₁) ← eval_place m (m.slot x.addr) idxs s; ok (m.read q s₁)
            | true ↦ do (ws, s₁) ← eval_all m idxs s; ok (m.draw_element x ws s₁)
          ])
  unfolding gen_lookup
  lookup-Right true p i x idxs ops regs s (isarray, typed) all place =
      element-Right x idxs ops regs s isarray typed all
  lookup-Right false p i x idxs ops regs s (t, e, typed) all place =
      rw (e, typed) (place-Right regs _ _ place)

  pub property-Right :
      (x : Symbol) (ops : List Op) (regs : List W) (s : S)
      → At m s₀ ops regs s
      → Right m s₀ regs (gen_property x ops) (ok (size_of_symbol m x s))
  unfolding gen_property size_of_symbol insert_op
  property-Right x ops regs s at =
      let (w, s') = m.size x m.null s in
      let (q, s₁) = m.read (m.slot x.addr) s in
      let at₁ =
        insert-At m s₀ (load (alloca x.addr)) ops regs s s₁ q at
          (load-run m (alloca x.addr) regs s (m.slot x.addr) refl) in
      let (w', s₂) = m.size x q s₁ in
      let res =
        insert_op-Right m s₀ (get_property x (register (length ops)))
          (ops ++ load (alloca x.addr) ∷ []) (regs ++ q ∷ []) s₁ s₂ w' at₁
          (get_property-run m x (register (length ops)) (regs ++ q ∷ []) s₁ q
            (operand-last m s₀ ops regs s q at)) in
      Right-if m s₀ regs x.is_input _ _ (w, s') (w', s₂)
        (insert_op-Right m s₀ (get_property x null_ptr) ops regs s s' w at
          (get_property-run m x null_ptr regs s m.null refl))
        (Right-from m s₀ regs (regs ++ q ∷ []) _ _ (q ∷ [], refl) res)
