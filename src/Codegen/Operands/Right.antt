-- ===== src/Codegen/Operands/Right.antt =====
-- The instructions of an expression compute its value (src/CodegenVisitor.cpp).
use d_gen.Prelude.{◌≡◌, refl, some, List, [], ◌∷◌, ◌++◌, length, if◌then◌else◌}
use d_gen.Errors.{ok}
use d_gen.Ast.{
  Expr, char_node, string_node, number_node, bool_node, ident_node, bin_op_node, arr_lookup_node,
  arr_create_node, property_lookup_node, Exprs, nil, cons,
}
use d_gen.Codegen.Blocks.{Prefix-refl, Prefix-trans}
use d_gen.Codegen.Operands.{
  Operand, int8, int32, alloca, register, Op, string_ptr, bin, load, gep, input, create_arr, opcode,
  insert_op, gen_ident, gen_property, gen_expr, gen_address, gen_idxs,
}
use d_gen.Codegen.Operands.Runs.{
  Cpu, operand, operands, run_op, run, value_of_symbol, size_of_symbol, eval, eval_place, eval_all,
}
use d_gen.Codegen.Operands.Steps.{
  operand-Prefix, bin-run, gep-run, load-run, create_arr-run, operands-cons, insert-At,
  operand-last, insert_op-Right, Right-from, Right-if, Right, AllRight, At,
}
use d_gen.Codegen.Operands.Elements.{
  Resolved, AllResolved, symbol_of-eq, lookup-Right, property-Right,
}

module _ {W S : Type 0} (m : Cpu W S) (s₀ : S) where
  mutual
    unfolding gen_expr eval gen_ident gen_property value_of_symbol size_of_symbol insert_op run_op
        operands

    pub gen_expr-Right :
        (e : Expr) (ops : List Op) (regs : List W) (s : S)
        → Resolved e
        → At m s₀ ops regs s
        → Right m s₀ regs (gen_expr e ops) (eval m e s)
    gen_expr-Right (bool_node p b) ops regs s r at = (
      int8 (if b then 1 else 0),
      ops,
      regs,
      m.small (if b then 1 else 0),
      s,
      refl,
      refl,
      at,
      refl,
      Prefix-refl regs,
    )
    gen_expr-Right (number_node p z) ops regs s r at =
        (int32 z, ops, regs, m.number z, s, refl, refl, at, refl, Prefix-refl regs)
    gen_expr-Right (char_node p c) ops regs s r at =
        (int8 c, ops, regs, m.small c, s, refl, refl, at, refl, Prefix-refl regs)
    gen_expr-Right (string_node p t) ops regs s r at =
        insert_op-Right m s₀ (string_ptr t) ops regs s (m.text t s).1 (m.text t s).0 at refl
    gen_expr-Right (bin_op_node p o l r) ops regs s (rl, rr) at =
        let (v, ops₁, regs₁, a, s₁, g, e, at₁, x, pre) = gen_expr-Right l ops regs s rl at in
        let (u, ops₂, regs₂, b, s₂, h, f, at₂, y, pre') = gen_expr-Right r ops₁ regs₁ s₁ rr at₁ in
        let ran =
          bin-run m (opcode o) v u regs₂ s₂ a b (operand-Prefix m v regs₁ regs₂ a pre' x) y in
        let res =
          insert_op-Right m s₀ (bin (opcode o) v u) ops₂ regs₂ s₂ s₂ (m.apply (opcode o) a b) at₂
            ran in
        rw (g, h, e, f) (Right-from m s₀ regs regs₂ _ _ (Prefix-trans regs pre pre') res)
    gen_expr-Right (ident_node i) ops regs s (x, r) at =
        let (w, s') = m.read (m.slot x.addr) s in
        rw (symbol_of-eq i x r) (
          Right-if m s₀ regs x.is_input _ _ (m.draw x s) (w, s')
            (insert_op-Right m s₀ (input x) ops regs s (m.draw x s).1 (m.draw x s).0 at refl)
            (insert_op-Right m s₀ (load (alloca x.addr)) ops regs s s' w at
              (load-run m (alloca x.addr) regs s (m.slot x.addr) refl)))
    gen_expr-Right (arr_lookup_node p i idxs) ops regs s ((x, r, h), all) at =
        rw (symbol_of-eq i x r) (
          lookup-Right m s₀ x.is_input p i x idxs ops regs s h
            (gen_idxs-Right idxs ops regs s all at)
            (gen_address-Right idxs (alloca x.addr) (m.slot x.addr) ops regs s all at refl))
    gen_expr-Right (property_lookup_node p i n) ops regs s (x, r) at =
        rw (symbol_of-eq i x r) (property-Right m s₀ x ops regs s at)
    gen_expr-Right (arr_create_node p t len) ops regs s ((n, q), r) at =
        let (v, ops₁, regs₁, a, s₁, g, e, at₁, x, pre) = gen_expr-Right len ops regs s r at in
        let (w, s') = m.new_array a n s₁ in
        let res =
          insert_op-Right m s₀ (create_arr v n) ops₁ regs₁ s₁ s' w at₁
            (create_arr-run m v n regs₁ s₁ a x) in
        rw q (rw (g, e) (Right-from m s₀ regs regs₁ _ _ pre res))

    pub gen_address-Right :
        (e : Exprs) (v : Operand) (a : W) (ops : List Op) (regs : List W) (s : S)
        → AllResolved e
        → At m s₀ ops regs s
        → operand m regs v ≡ some a
        → Right m s₀ regs (gen_address v e ops) (eval_place m a e s)
    gen_address-Right nil v a ops regs s r at x =
        (v, ops, regs, a, s, refl, refl, at, x, Prefix-refl regs)
    gen_address-Right (cons e es) v a ops regs s (r, all) at x =
        let (q, s₁) = m.read a s in
        let at₁ = insert-At m s₀ (load v) ops regs s s₁ q at (load-run m v regs s a x) in
        let (n, ops₂, regs₂, b, s₂, g, f, at₂, y, pre) =
          gen_expr-Right e (ops ++ load v ∷ []) (regs ++ q ∷ []) s₁ r at₁ in
        let ptr =
          operand-Prefix m (register (length ops)) (regs ++ q ∷ []) regs₂ q pre
            (operand-last m s₀ ops regs s q at) in
        let moved = gep (register (length ops)) n in
        let at₃ =
          insert-At m s₀ moved ops₂ regs₂ s₂ s₂ (m.offset q b) at₂
            (gep-run m (register (length ops)) n regs₂ s₂ q b ptr y) in
        let res =
          gen_address-Right es (register (length ops₂)) (m.offset q b) (ops₂ ++ moved ∷ [])
            (regs₂ ++ m.offset q b ∷ []) s₂ all at₃
            (operand-last m s₀ ops₂ regs₂ s₂ (m.offset q b) at₂) in
        rw (g, f)
          (Right-from m s₀ regs (regs₂ ++ m.offset q b ∷ []) _ _
            (Prefix-trans regs (q ∷ [], refl)
              (Prefix-trans (regs ++ q ∷ []) pre (m.offset q b ∷ [], refl)))
            res)

    gen_idxs-Right :
        (e : Exprs) (ops : List Op) (regs : List W) (s : S)
        → AllResolved e
        → At m s₀ ops regs s
        → AllRight m s₀ regs (gen_idxs e ops) (eval_all m e s)
    gen_idxs-Right nil ops regs s r at =
        ([], ops, regs, [], s, refl, refl, at, refl, Prefix-refl regs)
    gen_idxs-Right (cons e es) ops regs s (r, all) at =
        let (v, ops₁, regs₁, a, s₁, g, f, at₁, x, pre) = gen_expr-Right e ops regs s r at in
        let (vs, ops₂, regs₂, ws, s₂, g', f', at₂, y, pre') =
          gen_idxs-Right es ops₁ regs₁ s₁ all at₁ in
        (
          v ∷ vs,
          ops₂,
          regs₂,
          a ∷ ws,
          s₂,
          rw (g, g') refl,
          rw (f, f') refl,
          at₂,
          operands-cons m v vs regs₂ a ws (operand-Prefix m v regs₁ regs₂ a pre' x) y,
          Prefix-trans regs pre pre',
        )

-- If the names of an expression have their symbols, each input of which it reads an element is an
-- array or a string, each variable of which it reads an element has a type with these indices
-- (both types end in a scalar), and the elements of the arrays that it creates have a size, then its instructions are emitted, and on every machine they run from each state
-- to the end: they leave the state that the evaluation of the expression leaves, from the left to
-- the right with both sides of `&&` and `||`, and the operand that is handed on holds its value.
pub gen_expr-Runs :
    {W S : Type 0} (m : Cpu W S) (e : Expr) (s : S)
    → Resolved e
    → (v : Operand) × (ops : List Op) × (regs : List W) × (a : W) × (s' : S) × (gen_expr e []
        ≡ ok (v, ops))
      × (eval m e s ≡ ok (a, s'))
      × (run m ops [] s ≡ some (regs, s'))
      × (operand m regs v ≡ some a)
unfolding run
gen_expr-Runs m e s r =
    let (v, ops, regs, a, s', g, f, at, x, _) =
      gen_expr-Right m s e [] [] s r (record { runs = refl; size = refl }) in
    (v, ops, regs, a, s', g, f, at.runs, x)
