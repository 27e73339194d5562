-- ===== src/Solve/Prepare/Visits.antt =====
-- What the translation of a condition reads of its nodes is stored in them before it (prepare_eval_ctx in
-- src/CodegenZ3Visitor.cpp, ASTNode::visitChildren in src/ast.cpp).
use d_gen.Prelude.{ℕ, ◌≡◌, refl, subst, none, some, Option, List, [], ◌∷◌, ◌++◌, length}
use d_gen.Errors.{ok, >>=-eq-ok, ok_injective}
use d_gen.Ast.{
  Expr, char_node, string_node, number_node, bool_node, ident_node, bin_op_node, arr_lookup_node,
  arr_create_node, property_lookup_node, Exprs, nil, cons, PrecondNode,
}
use d_gen.Solve.Prepare.{
  Call, z3_gen, Emitted, emit_call, prepare_ident, traverse_ast_cb, visit_children, visit_all,
  visit_precond, prepare_eval_ctx,
}
use d_gen.Solve.Prepare.Wants.{
  Want, reads_ident, reads_lookup, reads, pre_reads, AllServed, Stores, AllServed-More,
}
use d_gen.Solve.Prepare.Covers.{
  Stores-then, Stores-keep, Stores-none, Stores-same, prepare_ident-Stores, prepare_lookup-Stores,
  prepare_property-Stores,
}

-- What the callback stores for a node, and what the visit of its children does.
abbrev own : Expr → List Want
own (ident_node i) = reads_ident i.symbol
own (arr_lookup_node p i es) = reads_lookup p i es i.symbol
own (property_lookup_node _ i _) = reads_ident i.symbol
own _ = []

abbrev below : Expr → List Want
below (bin_op_node _ _ lhs rhs) = reads lhs ++ reads rhs
below (property_lookup_node _ i _) = reads_ident i.symbol
below _ = []

traverse-Stores : (e : Expr) (p q : Emitted) → traverse_ast_cb e p ≡ ok q → Stores (own e) p q
unfolding traverse_ast_cb
traverse-Stores (ident_node i) p q h = prepare_ident-Stores i p q h
traverse-Stores (arr_lookup_node k i es) p q h = prepare_lookup-Stores k i es p q h
traverse-Stores (property_lookup_node k i n) p q h = prepare_property-Stores i p q h
traverse-Stores (bin_op_node k o a b) p q h = Stores-same p q (ok_injective h)
traverse-Stores (char_node k c) p q h = Stores-same p q (ok_injective h)
traverse-Stores (string_node k c) p q h = Stores-same p q (ok_injective h)
traverse-Stores (number_node k c) p q h = Stores-same p q (ok_injective h)
traverse-Stores (bool_node k c) p q h = Stores-same p q (ok_injective h)
traverse-Stores (arr_create_node k t n) p q h = Stores-same p q (ok_injective h)

own_below :
    (e : Expr) (p q r : Emitted) → Stores (own e) p q → Stores (below e) q r → Stores (reads e) p r
own_below (ident_node i) p q r g h = Stores-keep (reads_ident i.symbol) [] p q r g h
own_below (arr_lookup_node k i es) p q r g h =
    Stores-keep (reads_lookup k i es i.symbol) [] p q r g h
own_below (property_lookup_node k i n) p q r g h =
    Stores-keep (reads_ident i.symbol) (reads_ident i.symbol) p q r g h
own_below (bin_op_node k o a b) p q r g h = Stores-then [] (reads a ++ reads b) p q r g h
own_below (char_node k c) p q r g h = Stores-then [] [] p q r g h
own_below (string_node k c) p q r g h = Stores-then [] [] p q r g h
own_below (number_node k c) p q r g h = Stores-then [] [] p q r g h
own_below (bool_node k c) p q r g h = Stores-then [] [] p q r g h
own_below (arr_create_node k t n) p q r g h = Stores-then [] [] p q r g h

mutual
  unfolding visit_children visit_all

  visit-Stores : (e : Expr) (p q : Emitted) → visit_children e p ≡ ok q → Stores (below e) p q
  visit-Stores (bin_op_node k o a b) p q h =
      let (p₁, e₁, h₁) = >>=-eq-ok (traverse_ast_cb a p) _ h in
      let (p₂, e₂, h₂) = >>=-eq-ok (visit_children a p₁) _ h₁ in
      let (p₃, e₃, h₃) = >>=-eq-ok (traverse_ast_cb b p₂) _ h₂ in
      Stores-then (reads a) (reads b) p p₂ q
        (own_below a p p₁ p₂ (traverse-Stores a p p₁ e₁) (visit-Stores a p₁ p₂ e₂))
        (own_below b p₂ p₃ q (traverse-Stores b p₂ p₃ e₃) (visit-Stores b p₃ q h₃))
  visit-Stores (arr_lookup_node k i es) p q h =
      let (p₁, e₁, h₁) = >>=-eq-ok (prepare_ident i p) _ h in
      Stores-then [] [] p p₁ q
        (Stores-none (reads_ident i.symbol) p p₁ (prepare_ident-Stores i p p₁ e₁))
        (visit_all-Stores es p₁ q h₁)
  visit-Stores (arr_create_node k t n) p q h =
      let (p₁, e₁, h₁) = >>=-eq-ok (traverse_ast_cb n p) _ h in
      Stores-none (reads n) p q
        (own_below n p p₁ q (traverse-Stores n p p₁ e₁) (visit-Stores n p₁ q h₁))
  visit-Stores (property_lookup_node k i n) p q h = prepare_ident-Stores i p q h
  visit-Stores (ident_node i) p q h = Stores-same p q (ok_injective h)
  visit-Stores (char_node k c) p q h = Stores-same p q (ok_injective h)
  visit-Stores (string_node k c) p q h = Stores-same p q (ok_injective h)
  visit-Stores (number_node k c) p q h = Stores-same p q (ok_injective h)
  visit-Stores (bool_node k c) p q h = Stores-same p q (ok_injective h)

  visit_all-Stores : (es : Exprs) (p q : Emitted) → visit_all es p ≡ ok q → Stores [] p q
  visit_all-Stores nil p q h = Stores-same p q (ok_injective h)
  visit_all-Stores (cons e es) p q h =
      let (p₁, e₁, h₁) = >>=-eq-ok (traverse_ast_cb e p) _ h in
      let (p₂, e₂, h₂) = >>=-eq-ok (visit_children e p₁) _ h₁ in
      Stores-then [] [] p p₂ q
        (Stores-none (reads e) p p₂
          (own_below e p p₁ p₂ (traverse-Stores e p p₁ e₁) (visit-Stores e p₁ p₂ e₂)))
        (visit_all-Stores es p₂ q h₂)

precond-Stores :
    (o : Option Expr) (p q : Emitted) → visit_precond o p ≡ ok q → Stores (pre_reads o) p q
unfolding visit_precond
precond-Stores none p q h = Stores-same p q (ok_injective h)
precond-Stores (some e) p q h =
    let (p₁, e₁, h₁) = >>=-eq-ok (traverse_ast_cb e p) _ h in
    own_below e p p₁ q (traverse-Stores e p p₁ e₁) (visit-Stores e p₁ q h₁)

-- The callback is not called for the condition itself.
abbrev pub HasOperands : Expr → Type 0
HasOperands (ident_node _) = ⊥
HasOperands (arr_lookup_node _ _ _) = ⊥
HasOperands _ = Unit

below-reads : (e : Expr) → HasOperands e → below e ≡ reads e
below-reads (ident_node i) h = elim h [ ]
below-reads (arr_lookup_node k i es) h = elim h [ ]
below-reads (property_lookup_node k i n) h = refl
below-reads (bin_op_node k o a b) h = refl
below-reads (char_node k c) h = refl
below-reads (string_node k c) h = refl
below-reads (number_node k c) h = refl
below-reads (bool_node k c) h = refl
below-reads (arr_create_node k t n) h = refl

-- If the condition is neither a variable nor an element, and prepare_eval_ctx returns, then the call of
-- z3_gen with this condition and this precondition is the last that it emits, and for all that the
-- translation of the condition and of the precondition reads of their nodes a call before it stores
-- that: the place of a variable, the place of an element of a variable, or the values of the indices
-- at an input, where place and values are the operands that the emitted instructions for these
-- indices give, which stand before the call.
pub prepare_eval_ctx-Served :
    (cond : Expr) (pre : PrecondNode) (p q : Emitted)
    → HasOperands cond
    → prepare_eval_ctx cond pre p ≡ ok q
    → (cs : List (ℕ × Call)) × (q.calls ≡ cs ++ (length q.ops, z3_gen cond pre) ∷ [])
      × AllServed q.ops cs (pre_reads pre.expr)
      × AllServed q.ops cs (reads cond)
unfolding prepare_eval_ctx
prepare_eval_ctx-Served cond pre p q operands h =
    let (p₁, e₁, h₁) = >>=-eq-ok (visit_precond pre.expr p) _ h in
    let (p₂, e₂, h₂) = >>=-eq-ok (visit_children cond p₁) _ h₁ in
    let same : emit_call (z3_gen cond pre) p₂.ops p₂ ≡ q = ok_injective h₂ in
    let (first, m) = precond-Stores pre.expr p p₁ e₁ in
    let (second, n) = visit-Stores cond p₁ p₂ e₂ in
    (
      p₂.calls,
      rw (← same) refl,
      rw (← same) (AllServed-More p₁ p₂ (pre_reads pre.expr) n first),
      rw (← same) (subst (AllServed p₂.ops p₂.calls) (below-reads cond operands) second),
    )
