-- ===== src/Builder/Meaning/Keep.antt =====
-- The visitor (src/ASTBuilderVisitor.cpp) keeps what an expression means.
use d_gen.Prelude.{◌≡◌, refl, ◌∙◌, ap, ap₂, ◌∷◌, String, ℤ, negsuc}
use d_gen.Errors.{Position, Outcome, ok, ◌>>=◌}
use d_gen.Ast.{
  Expr, char_node, string_node, number_node, bool_node, ident_node, bin_op_node, arr_lookup_node,
  property_lookup_node, nil, cons, BinOpType,
}
use d_gen.Ast.Ops.{map_op_type}
use d_gen.Ast.Build.{create_arr_create}
use d_gen.Grammar.{
  plain, newline, tab, LogicExpr, logic_expr, LogicTs, no_logic_ts, or_then, LogicT, logic_t,
  LogicFs, no_logic_fs, and_then, LogicF, logic_inner_expr, cmp_op, plain_expr, ExprContext, expr,
  TContexts, no_ts, sum_then, TContext, t, FContexts, no_fs, mul_then, FContext, inner_expr,
  char_const, string_const, num_const, bool_const, f_ident, array_lookup, array_create,
  property_lookup, unary_minus, ExprContexts, no_exprs, expr_then,
}
use d_gen.Builder.{
  create_char, create_bin_op, unquote, quoted, new_ident, visit_logic_expr, fold_logic_ts,
  visit_logic_t, fold_logic_fs, visit_logic_f, visit_expr, fold_ts, visit_t, fold_fs, visit_f,
  visit_exprs,
}
use d_gen.Builder.Texts.{
  sum_op, mul_op, cmp_op_type, map_op_type-sum, map_op_type-mul, map_op_type-cmp, map_op_type-or,
  map_op_type-and, create_bool-text, unquote-quoted, declared_type, visit_type-declared,
}
use d_gen.Builder.Meaning.{
  Meaning, array_of, value, values, Means, MeansAll, logic_expr_value, from_logic_ts, logic_t_value,
  from_logic_fs, logic_f_value, expr_value, from_ts, t_value, from_fs, f_value, expr_values,
}

module _ {A : Type 0} (m : Meaning A) (atoi : String → ℤ) where
  create_bin_op-ok :
      (p : Position) (text : String) (o : BinOpType) (lhs rhs : Expr)
      → map_op_type text ≡ ok o
      → create_bin_op p text lhs rhs ≡ ok (bin_op_node p o lhs rhs)
  unfolding create_bin_op
  create_bin_op-ok p text o lhs rhs e = rw e refl

  -- One round of gen_bin_op_construction: the next operand, the node, and the rest of the chain.
  round-Means :
      (p : Position) (text : String) (o : BinOpType) (lhs : Expr) (a : A) (operand : Outcome Expr)
      (fold : Expr → Outcome Expr) (from : A → A)
      → map_op_type text ≡ ok o
      → Means m a operand
      → ((e : Expr) → Means m (from (value m e)) (fold e))
      → Means m
          (from (m.apply o (value m lhs) a))
          (do rhs ← operand; lhs' ← create_bin_op p text lhs rhs; fold lhs')
  unfolding value
  round-Means p text o lhs a operand fold from op (rhs, er, vr) rest =
      let (e, ef, vf) = rest (bin_op_node p o lhs rhs) in
      (
        e,
        rw (er, create_bin_op-ok p text o lhs rhs op) ef,
        vf ∙ ap (λ x. from (m.apply o (value m lhs) x)) vr,
      )

  -- The first operand, and the chain behind it.
  chain-Means :
      (a : A) (operand : Outcome Expr) (fold : Expr → Outcome Expr) (from : A → A)
      → Means m a operand
      → ((e : Expr) → Means m (from (value m e)) (fold e))
      → Means m (from a) (do lhs ← operand; fold lhs)
  chain-Means a operand fold from (lhs, el, vl) rest =
      let (e, ef, vf) = rest lhs in (e, rw el ef, vf ∙ ap from vl)

  mutual
    unfolding value values create_char create_arr_create visit_logic_expr fold_logic_ts
        visit_logic_t fold_logic_fs visit_logic_f visit_expr fold_ts visit_t fold_fs visit_f
        visit_exprs logic_expr_value from_logic_ts logic_t_value from_logic_fs logic_f_value
        expr_value from_ts t_value from_fs f_value expr_values

    pub logic_expr-Means :
        (c : LogicExpr) → Means m (logic_expr_value m atoi c) (visit_logic_expr atoi c)
    logic_expr-Means (logic_expr c cs) =
        chain-Means _ _ (fold_logic_ts atoi cs) (from_logic_ts m atoi cs) (logic_t-Means c)
          (logic_ts-Means cs)

    logic_ts-Means :
        (cs : LogicTs) (lhs : Expr)
        → Means m (from_logic_ts m atoi cs (value m lhs)) (fold_logic_ts atoi cs lhs)
    logic_ts-Means no_logic_ts lhs = (lhs, refl, refl)
    logic_ts-Means (or_then c cs) lhs =
        round-Means _ "||" BinOpType.or lhs _ _ (fold_logic_ts atoi cs) (from_logic_ts m atoi cs)
          map_op_type-or (logic_t-Means c) (logic_ts-Means cs)

    logic_t-Means : (c : LogicT) → Means m (logic_t_value m atoi c) (visit_logic_t atoi c)
    logic_t-Means (logic_t _ c cs) =
        chain-Means _ _ (fold_logic_fs atoi cs) (from_logic_fs m atoi cs) (logic_f-Means c)
          (logic_fs-Means cs)

    logic_fs-Means :
        (cs : LogicFs) (lhs : Expr)
        → Means m (from_logic_fs m atoi cs (value m lhs)) (fold_logic_fs atoi cs lhs)
    logic_fs-Means no_logic_fs lhs = (lhs, refl, refl)
    logic_fs-Means (and_then c cs) lhs =
        round-Means _ "&&" BinOpType.and lhs _ _ (fold_logic_fs atoi cs) (from_logic_fs m atoi cs)
          map_op_type-and (logic_f-Means c) (logic_fs-Means cs)

    logic_f-Means : (c : LogicF) → Means m (logic_f_value m atoi c) (visit_logic_f atoi c)
    logic_f-Means (logic_inner_expr _ c) = logic_expr-Means c
    logic_f-Means (cmp_op p l o r) =
        let (lhs, el, vl) = expr-Means l in
        let (rhs, er, vr) = expr-Means r in
        (
          bin_op_node p (cmp_op_type o) lhs rhs,
          rw (el, er) (create_bin_op-ok p _ (cmp_op_type o) lhs rhs (map_op_type-cmp o)),
          ap₂ (m.apply (cmp_op_type o)) vl vr,
        )
    logic_f-Means (plain_expr _ c) = expr-Means c

    pub expr-Means : (c : ExprContext) → Means m (expr_value m atoi c) (visit_expr atoi c)
    expr-Means (expr c cs) =
        chain-Means _ _ (fold_ts atoi cs) (from_ts m atoi cs) (t-Means c) (ts-Means cs)

    ts-Means :
        (cs : TContexts) (lhs : Expr)
        → Means m (from_ts m atoi cs (value m lhs)) (fold_ts atoi cs lhs)
    ts-Means no_ts lhs = (lhs, refl, refl)
    ts-Means (sum_then o c cs) lhs =
        round-Means _ _ (sum_op o) lhs _ _ (fold_ts atoi cs) (from_ts m atoi cs) (map_op_type-sum o)
          (t-Means c) (ts-Means cs)

    t-Means : (c : TContext) → Means m (t_value m atoi c) (visit_t atoi c)
    t-Means (t _ c cs) =
        chain-Means _ _ (fold_fs atoi cs) (from_fs m atoi cs) (f-Means c) (fs-Means cs)

    fs-Means :
        (cs : FContexts) (lhs : Expr)
        → Means m (from_fs m atoi cs (value m lhs)) (fold_fs atoi cs lhs)
    fs-Means no_fs lhs = (lhs, refl, refl)
    fs-Means (mul_then o c cs) lhs =
        round-Means _ _ (mul_op o) lhs _ _ (fold_fs atoi cs) (from_fs m atoi cs) (map_op_type-mul o)
          (f-Means c) (fs-Means cs)

    f-Means : (c : FContext) → Means m (f_value m atoi c) (visit_f atoi c)
    f-Means (inner_expr _ c) = expr-Means c
    f-Means (char_const p (plain b bs)) = (char_node p b, refl, refl)
    f-Means (char_const p newline) = (char_node p b'\\', refl, refl)
    f-Means (char_const p tab) = (char_node p b'\\', refl, refl)
    f-Means (string_const p s) =
        (string_node p (unquote (quoted s)), refl, ap m.string (unquote-quoted s))
    f-Means (num_const p s) = (number_node p (atoi s), refl, refl)
    f-Means (bool_const p b) = (bool_node p b, create_bool-text p b, refl)
    f-Means (f_ident p name) = (ident_node (new_ident p name), refl, refl)
    f-Means (array_lookup p name c cs) =
        let (e, ee, ve) = expr-Means c in
        let (es, ees, ves) = exprs-Means cs in
        (
          arr_lookup_node p (new_ident p name) (cons e es),
          rw (ee, ees) refl,
          ap₂ (λ x xs. m.element name (x ∷ xs)) ve ves,
        )
    f-Means (array_create p ty c) =
        let (e, ee, ve) = expr-Means c in
        (
          create_arr_create p (declared_type ty) e,
          rw (visit_type-declared ty, ee) refl,
          ap (m.array (array_of ty)) ve,
        )
    f-Means (property_lookup p name property) =
        (property_lookup_node p (new_ident p name) property, refl, refl)
    f-Means (unary_minus p c) =
        let (e, ee, ve) = f-Means c in
        (
          bin_op_node p BinOpType.mul (number_node p (negsuc 0)) e,
          rw ee refl,
          ap (m.apply BinOpType.mul (m.number (negsuc 0))) ve,
        )

    pub exprs-Means : (cs : ExprContexts) → MeansAll m (expr_values m atoi cs) (visit_exprs atoi cs)
    exprs-Means no_exprs = (nil, refl, refl)
    exprs-Means (expr_then c cs) =
        let (e, ee, ve) = expr-Means c in
        let (es, ees, ves) = exprs-Means cs in
        (cons e es, rw (ee, ees) refl, ap₂ (λ x xs. x ∷ xs) ve ves)

  -- The visitor returns a node for every expression of the grammar, and whatever the constants, the
  -- variables and the operators mean, the node means what the parse tree does, with each chain of
  -- operators of one level taken from the left.
  pub visit_logic_expr-Means :
      (c : LogicExpr) → Means m (logic_expr_value m atoi c) (visit_logic_expr atoi c)
  visit_logic_expr-Means c = logic_expr-Means c
