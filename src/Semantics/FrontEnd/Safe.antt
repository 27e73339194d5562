-- ===== src/Semantics/FrontEnd/Safe.antt =====
-- type_check (src/Semantics.cpp) does not crash on a tree whose names are resolved: no symbol that it
-- or get_type (src/ast.cpp) dereferences is a null pointer.
use d_gen.Prelude.{Bool, not, ◌&&◌, str_eq, Option, none, some, List, String, if◌then◌else◌}
use d_gen.Errors.{Position, Err, Outcome, err, ◌>>=◌}
use d_gen.Errors.Ends.{Ends, returns, throws, Ends-bind, Ends-if}
use d_gen.Types.{
  Ty, int, bool, arr, string, invalid, kind_eq, get_current_type, eq_type, eq_kind,
  is_convertable_to,
}
use d_gen.Ast.{
  IdentNode, Expr, char_node, string_node, number_node, bool_node, ident_node, bin_op_node,
  arr_lookup_node, arr_create_node, property_lookup_node, Exprs, nil, cons, expr_pos, BinOpType,
  PrecondNode, AsgNode, DefNode, Stmt, if_node, if_else_node, for_node, def_node, continue_node,
  break_node, return_node, asg_node, Stmts, end, ◌⨾◌,
}
use d_gen.Ast.Ops.{BinOpGroup, num, bools, any, get_op_group_args}
use d_gen.Ast.Typing.{
  get_type, ident_type, check_op_group, drop_types, arr_lookup_type, property_lookup_type,
}
use d_gen.Semantics.Resolve.Scoped.{
  Env, bind, IdentInScope, ExprInScope, ExprsInScope, IfSome, PrecondInScope, AsgInScope, after,
  StmtInScope, StmtsInScope,
}
use d_gen.Semantics.Check.{
  check_idxs, check_expr, check_exprs, check_optional, check_precond_expr, type_check_precondition,
  check_precond, check_not_input, check_target, type_check_asg, check_asg, check_def_rhs, check_def,
  check_return, check_cond, check_stmt, check_stmts,
}

abbrev pub IsSafe : {A : Type 0} → Outcome A → Type 0
IsSafe m = Ends (λ _. Unit {0}) (λ _. Unit {0}) ⊥ m

pub IsSafe-bind :
    {A B : Type 0} {m : Outcome A} {f : A → Outcome B}
    → IsSafe m
    → ((a : A) → IsSafe (f a))
    → IsSafe (m >>= f)
IsSafe-bind p q = Ends-bind p (λ a _. q a)

IsSafe-when :
    {A : Type 0} (b : Bool) (e : List Err) {m : Outcome A}
    → IsSafe m
    → IsSafe (if b then err e else m)
IsSafe-when b e s = Ends-if b (λ _. throws tt) (λ _. s)

module _ (Γ : Env) where
  ident_type-IsSafe : (i : IdentNode) → IdentInScope Γ i → IsSafe (ident_type i)
  unfolding ident_type
  ident_type-IsSafe i (s, e, _) = rw (e, ident_type) (returns tt)

  check_op_group-IsSafe :
      (g : BinOpGroup) (p : Position) (o : BinOpType) (t u : Ty) → IsSafe (check_op_group g p o t u)
  unfolding check_op_group
  check_op_group-IsSafe num p o t u = IsSafe-when (not (eq_type t u)) _ (returns tt)
  check_op_group-IsSafe bools p o t u =
      IsSafe-when (not (eq_kind t bool && eq_kind u bool)) _ (returns tt)
  check_op_group-IsSafe any p o t u = IsSafe-when (not (eq_type t u)) _ (returns tt)

  pub get_type-IsSafe : (e : Expr) → ExprInScope Γ e → IsSafe (get_type e)
  unfolding get_type arr_lookup_type property_lookup_type
  get_type-IsSafe (ident_node i) h = ident_type-IsSafe i h
  get_type-IsSafe (bin_op_node p o l r) h = IsSafe-bind (get_type-IsSafe l h.0) λ t.
      IsSafe-bind (get_type-IsSafe r h.1) λ u.
        IsSafe-bind (check_op_group-IsSafe (get_op_group_args o) (expr_pos l) o t u) λ _. returns tt
  get_type-IsSafe (arr_lookup_node p i idxs) h =
      IsSafe-bind (ident_type-IsSafe i h.0)
        λ t. IsSafe-when (eq_kind (drop_types idxs t) invalid) _ (returns tt)
  get_type-IsSafe (property_lookup_node p i name) h =
      Ends-if (str_eq name "len")
        (λ _. IsSafe-bind (ident_type-IsSafe i h) λ t.
          IsSafe-when
            (not (kind_eq (get_current_type t) arr) && not (kind_eq (get_current_type t) string)) _
            (returns tt))
        (λ _. throws tt)
  get_type-IsSafe (arr_create_node p t len) h = returns tt
  get_type-IsSafe (char_node p c) h = returns tt
  get_type-IsSafe (string_node p c) h = returns tt
  get_type-IsSafe (number_node p c) h = returns tt
  get_type-IsSafe (bool_node p c) h = returns tt

  check_idxs-IsSafe : (es : Exprs) → ExprsInScope Γ es → IsSafe (check_idxs es)
  unfolding check_idxs
  check_idxs-IsSafe nil h = returns tt
  check_idxs-IsSafe (cons e es) h =
      IsSafe-bind (get_type-IsSafe e h.0)
        λ t. IsSafe-when (not (eq_kind t int)) _ (check_idxs-IsSafe es h.1)

  mutual
    unfolding check_expr

    check_expr-IsSafe : (e : Expr) → ExprInScope Γ e → IsSafe (check_expr e)
    check_expr-IsSafe (bin_op_node p o l r) h =
        IsSafe-bind (check_expr-IsSafe l h.0) λ _. check_expr-IsSafe r h.1
    check_expr-IsSafe (arr_lookup_node p i idxs) h =
        IsSafe-bind (check_idxs-IsSafe idxs h.1) λ _. check_exprs-IsSafe idxs h.1
    check_expr-IsSafe (arr_create_node p t len) h = check_expr-IsSafe len h
    check_expr-IsSafe (ident_node i) h = returns tt
    check_expr-IsSafe (property_lookup_node p i name) h = returns tt
    check_expr-IsSafe (char_node p c) h = returns tt
    check_expr-IsSafe (string_node p c) h = returns tt
    check_expr-IsSafe (number_node p c) h = returns tt
    check_expr-IsSafe (bool_node p c) h = returns tt

    check_exprs-IsSafe : (es : Exprs) → ExprsInScope Γ es → IsSafe (check_exprs es)
    check_exprs-IsSafe nil h = returns tt
    check_exprs-IsSafe (cons e es) h =
        IsSafe-bind (check_expr-IsSafe e h.0) λ _. check_exprs-IsSafe es h.1

  check_optional-IsSafe :
      {A : Type 0} {f : A → Outcome (Unit {0})} {P : A → Type 0}
      → ((a : A) → P a → IsSafe (f a))
      → (o : Option A) → IfSome P o
      → IsSafe (check_optional f o)
  unfolding check_optional
  check_optional-IsSafe g none h = returns tt
  check_optional-IsSafe g (some a) h = g a h

  check_precond-IsSafe : (c : PrecondNode) → PrecondInScope Γ c → IsSafe (check_precond c)
  unfolding check_precond type_check_precondition check_precond_expr
  check_precond-IsSafe c h =
      IsSafe-bind
        (check_optional-IsSafe
          (λ e s.
            IsSafe-bind (get_type-IsSafe e s)
              λ t. IsSafe-when (not (eq_kind t bool)) _ (returns tt))
          c.expr h)
        λ _. check_optional-IsSafe check_expr-IsSafe c.expr h

  check_not_input-IsSafe :
      (p : Position) (i : IdentNode) → IdentInScope Γ i → IsSafe (check_not_input p i)
  unfolding check_not_input
  check_not_input-IsSafe p i (s, e, _) =
      rw (e, check_not_input) (IsSafe-when s.is_input _ (returns tt))

  check_target-IsSafe : (e : Expr) → ExprInScope Γ e → IsSafe (check_target e)
  unfolding check_target
  check_target-IsSafe (ident_node i) h = check_not_input-IsSafe i.pos i h
  check_target-IsSafe (arr_lookup_node p i idxs) h = check_not_input-IsSafe p i h.0
  check_target-IsSafe (bin_op_node p o l r) h = returns tt
  check_target-IsSafe (arr_create_node p t len) h = returns tt
  check_target-IsSafe (property_lookup_node p i name) h = returns tt
  check_target-IsSafe (char_node p c) h = returns tt
  check_target-IsSafe (string_node p c) h = returns tt
  check_target-IsSafe (number_node p c) h = returns tt
  check_target-IsSafe (bool_node p c) h = returns tt

  check_asg-IsSafe : (a : AsgNode) → AsgInScope Γ a → IsSafe (check_asg a)
  unfolding check_asg type_check_asg
  check_asg-IsSafe a h = IsSafe-bind (check_target-IsSafe a.lhs h.0) λ _.
      IsSafe-bind
        (IsSafe-bind (get_type-IsSafe a.lhs h.0) λ t.
          IsSafe-bind (get_type-IsSafe a.rhs h.1)
            λ u. IsSafe-when (not (is_convertable_to t u)) _ (returns tt))
        λ _. IsSafe-bind (check_expr-IsSafe a.lhs h.0) λ _. check_expr-IsSafe a.rhs h.1

  check_def_rhs-IsSafe : (d : DefNode) (e : Expr) → ExprInScope Γ e → IsSafe (check_def_rhs d e)
  unfolding check_def_rhs
  check_def_rhs-IsSafe d e h =
      IsSafe-bind (get_type-IsSafe e h)
        λ t. IsSafe-when (not (is_convertable_to t d.type)) _ (check_expr-IsSafe e h)

  check_cond-IsSafe :
      (p : Position) (msg : String) (e : Expr) → ExprInScope Γ e → IsSafe (check_cond p msg e)
  unfolding check_cond
  check_cond-IsSafe p msg e h =
      IsSafe-bind (get_type-IsSafe e h) λ t. IsSafe-when (not (eq_kind t bool)) _ (returns tt)

  check_return-IsSafe :
      (ret : Ty) (p : Position) (e : Expr) → ExprInScope Γ e → IsSafe (check_return ret p e)
  unfolding check_return
  check_return-IsSafe ret p e h =
      IsSafe-bind (get_type-IsSafe e h)
        λ t. IsSafe-when (not (eq_type t ret)) _ (check_expr-IsSafe e h)

mutual
  unfolding check_stmts check_def

  check_stmt-IsSafe : (ret : Ty) (Γ : Env) (s : Stmt) → StmtInScope Γ s → IsSafe (check_stmt ret s)
  check_stmt-IsSafe ret Γ (return_node p e) h = check_return-IsSafe Γ ret p e h
  check_stmt-IsSafe ret Γ (asg_node a) h = check_asg-IsSafe Γ a h
  check_stmt-IsSafe ret Γ (def_node d) h =
      check_optional-IsSafe Γ (check_def_rhs-IsSafe (bind d.name d.sym Γ) d) d.rhs h.1
  check_stmt-IsSafe ret Γ (for_node f body) (c, a, e, b, x) =
      IsSafe-bind (check_cond-IsSafe Γ _ _ f.cond e) λ _.
        IsSafe-bind (check_optional-IsSafe Γ (check_precond-IsSafe Γ) f.precond c) λ _.
          IsSafe-bind (check_optional-IsSafe Γ (check_asg-IsSafe Γ) f.pre_asg a) λ _.
            IsSafe-bind (check_expr-IsSafe Γ f.cond e) λ _.
              IsSafe-bind (check_optional-IsSafe Γ (check_asg-IsSafe Γ) f.inc_asg b)
                λ _. check_stmts-IsSafe ret Γ body x
  check_stmt-IsSafe ret Γ (if_node i body) (c, e, x) =
      IsSafe-bind (check_cond-IsSafe Γ _ _ i.cond e) λ _.
        IsSafe-bind (check_optional-IsSafe Γ (check_precond-IsSafe Γ) i.precond c)
          λ _. IsSafe-bind (check_expr-IsSafe Γ i.cond e) λ _. check_stmts-IsSafe ret Γ body x
  check_stmt-IsSafe ret Γ (if_else_node i body els) (c, e, x, y) =
      IsSafe-bind (check_cond-IsSafe Γ _ _ i.cond e) λ _.
        IsSafe-bind (check_optional-IsSafe Γ (check_precond-IsSafe Γ) i.precond c) λ _.
          IsSafe-bind (check_expr-IsSafe Γ i.cond e)
            λ _. IsSafe-bind (check_stmts-IsSafe ret Γ body x) λ _. check_stmts-IsSafe ret Γ els y
  check_stmt-IsSafe ret Γ (continue_node p l) h = returns tt
  check_stmt-IsSafe ret Γ (break_node p l) h = returns tt

  pub check_stmts-IsSafe :
      (ret : Ty) (Γ : Env) (b : Stmts) → StmtsInScope Γ b → IsSafe (check_stmts ret b)
  check_stmts-IsSafe ret Γ end h = returns tt
  check_stmts-IsSafe ret Γ (s ⨾ b) h =
      IsSafe-bind (check_stmt-IsSafe ret Γ s h.0) λ _. check_stmts-IsSafe ret (after s Γ) b h.1
