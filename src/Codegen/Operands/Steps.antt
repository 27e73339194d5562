-- ===== src/Codegen/Operands/Steps.antt =====
-- How one more instruction runs behind those of an expression (src/CodegenVisitor.cpp).
use d_gen.Prelude.{
  ℕ, zero, suc, ◌≡◌, refl, sym, ◌∙◌, subst, Bool, true, false, Option, some, List, [], ◌∷◌, ◌++◌,
  length, length-append, get_elem?, get_elem?-append_length, inl, inr, Option-cases, if◌then◌else◌,
  arith,
}
use d_gen.Errors.{Outcome, ok}
use d_gen.Ast.{Symbol}
use d_gen.Codegen.Blocks.{Prefix, Prefix-trans}
use d_gen.Codegen.Operands.{
  Operand, int8, int32, null_ptr, alloca, register, Opcode, Op, bin, load, gep, input_element,
  get_property, create_arr, insert_op,
}
use d_gen.Codegen.Operands.Runs.{Cpu, operand, with_operand, operands, run_op, run}

get_elem?-append :
    {A : Type 0} (xs ys : List A) (n : ℕ) (a : A)
    → get_elem? xs n ≡ some a
    → get_elem? (xs ++ ys) n ≡ some a
get_elem?-append [] ys n a e = cc
get_elem?-append (x ∷ xs) ys zero a e = e
get_elem?-append (x ∷ xs) ys (suc n) a e = get_elem?-append xs ys n a e

some_injective : {A : Type 0} {a b : A} → some a ≡ some b → a ≡ b
some_injective e = cc

module _ {W S : Type 0} (m : Cpu W S) where
  -- What a result was it stays.
  pub operand-Prefix :
      (v : Operand) (xs ys : List W) (a : W)
      → Prefix xs ys
      → operand m xs v ≡ some a
      → operand m ys v ≡ some a
  operand-Prefix (register n) xs ys a (rest, e) q =
      subst (λ (l : List W). get_elem? l n ≡ some a) e (get_elem?-append xs rest n a q)
  operand-Prefix (int8 n) xs ys a p q = q
  operand-Prefix (int32 n) xs ys a p q = q
  operand-Prefix null_ptr xs ys a p q = q
  operand-Prefix (alloca n) xs ys a p q = q

  pub with_operand-some :
      {A : Type 0} (regs : List W) (v : Operand) (f : W → Option A) (a : W)
      → operand m regs v ≡ some a
      → with_operand m regs v f ≡ f a
  unfolding with_operand
  with_operand-some regs v f a e = rw (e, with_operand) refl

  pub bin-run :
      (o : Opcode) (l r : Operand) (regs : List W) (s : S) (a b : W)
      → operand m regs l ≡ some a
      → operand m regs r ≡ some b
      → run_op m (bin o l r) regs s ≡ some (m.apply o a b, s)
  unfolding run_op
  bin-run o l r regs s a b p q = with_operand-some regs l _ a p ∙ with_operand-some regs r _ b q

  pub gep-run :
      (l r : Operand) (regs : List W) (s : S) (a b : W)
      → operand m regs l ≡ some a
      → operand m regs r ≡ some b
      → run_op m (gep l r) regs s ≡ some (m.offset a b, s)
  unfolding run_op
  gep-run l r regs s a b p q = with_operand-some regs l _ a p ∙ with_operand-some regs r _ b q

  pub load-run :
      (v : Operand) (regs : List W) (s : S) (a : W)
      → operand m regs v ≡ some a
      → run_op m (load v) regs s ≡ some (m.read a s)
  unfolding run_op
  load-run v regs s a p = with_operand-some regs v _ a p

  pub get_property-run :
      (x : Symbol) (v : Operand) (regs : List W) (s : S) (a : W)
      → operand m regs v ≡ some a
      → run_op m (get_property x v) regs s ≡ some (m.size x a s)
  unfolding run_op
  get_property-run x v regs s a p = with_operand-some regs v _ a p

  pub create_arr-run :
      (v : Operand) (n : ℕ) (regs : List W) (s : S) (a : W)
      → operand m regs v ≡ some a
      → run_op m (create_arr v n) regs s ≡ some (m.new_array a n s)
  unfolding run_op
  create_arr-run v n regs s a p = with_operand-some regs v _ a p

  pub input_element-run :
      (x : Symbol) (vs : List Operand) (regs : List W) (s : S) (ws : List W)
      → operands m regs vs ≡ some ws
      → run_op m (input_element x vs) regs s ≡ some (m.draw_element x ws s)
  unfolding run_op
  input_element-run x vs regs s ws p = rw (p, run_op) refl

  pub operands-cons :
      (v : Operand) (vs : List Operand) (regs : List W) (a : W) (ws : List W)
      → operand m regs v ≡ some a
      → operands m regs vs ≡ some ws
      → operands m regs (v ∷ vs) ≡ some (a ∷ ws)
  unfolding operands
  operands-cons v vs regs a ws p q = rw (p, operands) (rw (q, operands) refl)

  pub run-snoc :
      (ops : List Op) (o : Op) (regs regs' : List W) (s s' s₂ : S) (w : W)
      → run m ops regs s ≡ some (regs', s')
      → run_op m o regs' s' ≡ some (w, s₂)
      → run m (ops ++ o ∷ []) regs s ≡ some (regs' ++ w ∷ [], s₂)
  unfolding run
  run-snoc [] o regs regs' s s' s₂ w e q =
      subst (λ (x : List W × S). run m (o ∷ []) x.0 x.1 ≡ some (regs' ++ w ∷ [], s₂))
        (some_injective (sym e)) (rw (q, run) refl)
  run-snoc (x ∷ ops) o regs regs' s s' s₂ w e q = elim (Option-cases (run_op m x regs s)) [
    | inl d ↦ cc (rw (d, run) at e)
    | inr ((u, t), d) ↦
        rw (d, run) (run-snoc ops o (regs ++ u ∷ []) regs' t s' s₂ w (rw (d, run) at e) q)
  ]

  module _ (s₀ : S) where
    pub record At (ops : List Op) (regs : List W) (s : S) : Type 0 where
      pub runs : run m ops [] s₀ ≡ some (regs, s)
      pub size : length regs ≡ length ops

    -- The instructions run on, and the operand holds the value.
    abbrev pub Right : List W → Outcome (Operand × List Op) → Outcome (W × S) → Type 0
    Right regs g ev =
        (v : Operand) × (ops : List Op) × (regs' : List W) × (a : W) × (s : S) × (g ≡ ok (v, ops))
        × (ev ≡ ok (a, s))
        × At ops regs' s
        × (operand m regs' v ≡ some a)
        × Prefix regs regs'

    abbrev pub AllRight : List W → Outcome (List Operand × List Op) → Outcome (List W × S) → Type 0
    AllRight regs g ev =
        (vs : List Operand) × (ops : List Op) × (regs' : List W) × (as' : List W) × (s : S) × (g
          ≡ ok (vs, ops))
        × (ev ≡ ok (as', s))
        × At ops regs' s
        × (operands m regs' vs ≡ some as')
        × Prefix regs regs'

    pub insert-At :
        (o : Op) (ops : List Op) (regs : List W) (s s' : S) (w : W)
        → At ops regs s
        → run_op m o regs s ≡ some (w, s')
        → At (ops ++ o ∷ []) (regs ++ w ∷ []) s'
    insert-At o ops regs s s' w at e = record {
      runs = run-snoc ops o [] regs s₀ s s' w at.runs e;
      size = omega (arith, length-append regs (w ∷ []), length-append ops (o ∷ []), at.size);
    }

    pub operand-last :
        (ops : List Op) (regs : List W) (s : S) (w : W)
        → At ops regs s
        → operand m (regs ++ w ∷ []) (register (length ops)) ≡ some w
    operand-last ops regs s w at =
        subst (λ n. get_elem? (regs ++ w ∷ []) n ≡ some w) at.size
          (get_elem?-append_length regs [] w)

    pub insert_op-Right :
        (o : Op) (ops : List Op) (regs : List W) (s s' : S) (w : W)
        → At ops regs s
        → run_op m o regs s ≡ some (w, s')
        → Right regs (insert_op o ops) (ok (w, s'))
    unfolding insert_op
    insert_op-Right o ops regs s s' w at e = (
      register (length ops),
      ops ++ o ∷ [],
      regs ++ w ∷ [],
      w,
      s',
      refl,
      refl,
      insert-At o ops regs s s' w at e,
      operand-last ops regs s w at,
      (w ∷ [], refl),
    )

    pub Right-from :
        (regs regs' : List W) (g : Outcome (Operand × List Op)) (ev : Outcome (W × S))
        → Prefix regs regs'
        → Right regs' g ev
        → Right regs g ev
    Right-from regs regs' g ev p (v, ops, regs₂, a, s, e, f, at, x, q) =
        (v, ops, regs₂, a, s, e, f, at, x, Prefix-trans regs p q)

    pub Right-if :
        (regs : List W) (c : Bool) (g g' : Outcome (Operand × List Op)) (w w' : W × S)
        → Right regs g (ok w)
        → Right regs g' (ok w')
        → Right regs (if c then g else g') (ok (if c then w else w'))
    Right-if regs true g g' w w' p q = p
    Right-if regs false g g' w w' p q = q

    pub Right-elim :
        (regs : List W) (c : Bool) (g g' : Outcome (Operand × List Op)) (e e' : Outcome (W × S))
        → Right regs g e
        → Right regs g' e'
        → Right regs (elim c [ false ↦ g' | true ↦ g ]) (elim c [ false ↦ e' | true ↦ e ])
    Right-elim regs true g g' e e' p q = p
    Right-elim regs false g g' e e' p q = q
