-- ===== src/Semantics/Check/Typed/Sound.antt =====
-- type_check (src/Semantics.cpp) decides the typing rules.
use d_gen.Prelude.{
  ◌≡◌, ◌≢◌, ◌↔◌, refl, sym, true, not, Option, none, some, List, [], ◌∷◌, String, arith,
  if◌then◌else◌,
}
use d_gen.Errors.{Position, Outcome, ok, ◌>>=◌, throw}
use d_gen.Errors.Passes.{
  Passes, Passes-ok, Passes-then, Passes-bind, Passes-unless, Passes-when, Passes-iff,
}
use d_gen.Types.{TypeKind, int, bool, invalid, Ty, eq_type, eq_kind, is_convertable_to}
use d_gen.Types.View.{view, kind_eq_iff, kinds_are, eq_kind-view}
use d_gen.Ast.{
  Symbol, IdentNode, Expr, char_node, string_node, number_node, bool_node, ident_node, bin_op_node,
  arr_lookup_node, arr_create_node, property_lookup_node, Exprs, nil, cons, expr_pos, PrecondNode,
  AsgNode, DefNode, Stmt, if_node, if_else_node, for_node, def_node, continue_node, break_node,
  return_node, asg_node, Stmts, end, ◌⨾◌, FunctionNode,
}
use d_gen.Ast.Typing.{get_type}
use d_gen.Semantics.Check.{
  check_idxs, check_expr, check_exprs, check_optional, check_precond_expr, check_def_rhs,
  type_check_precondition, check_precond, check_not_input, check_target, type_check_asg, check_asg,
  check_def, check_return, check_cond, check_stmt, check_stmts, check_args, type_check,
}
use d_gen.Semantics.Check.Typed.{
  HasKind, AllInts, IndexedByInts, AllIndexedByInts, Optional, PrecondTyped, NotInput, Assignable,
  AsgTyped, DefTyped, StmtTyped, StmtsTyped, AllDefsTyped, Typed,
}

kinds_are_iff :
    (ks : List TypeKind) (k : TypeKind) → k ≢ invalid → (kinds_are ks k ≡ true) ↔ (ks ≡ k ∷ [])
kinds_are_iff [] k h = (λ e. absurd (h (sym ((kind_eq_iff invalid k).0 e))), λ e. cc)
kinds_are_iff (j ∷ []) k h = ground (arith, kind_eq_iff j k)
kinds_are_iff (j ∷ i ∷ ks) k h = (λ e. cc, λ e. cc)

eq_kind_iff : (t : Ty) (k : TypeKind) → k ≢ invalid → (eq_kind t k ≡ true) ↔ (view t ≡ k ∷ [])
eq_kind_iff t k h = rw (eq_kind-view t k) (kinds_are_iff (view t) k h)

-- A test for one kind, and what comes behind it.
of_kind-Passes :
    (t : Ty) (k : TypeKind) (p : Position) (msg : String) {m : Outcome (Unit {0})} {Q : Type 0}
    → k ≢ invalid
    → Passes m Q
    → Passes (if not (eq_kind t k) then throw p msg else m) ((view t ≡ k ∷ []) × Q)
of_kind-Passes t k p msg h q =
    Passes-iff (λ (e, x). ((eq_kind_iff t k h).0 e, x), λ (e, x). ((eq_kind_iff t k h).1 e, x))
      (Passes-unless (eq_kind t k) p msg q)

HasKind-Passes :
    (e : Expr) (k : TypeKind) (p : Position) (msg : Ty → String)
    → k ≢ invalid
    → Passes
        (get_type e >>= λ t. if not (eq_kind t k) then throw p (msg t) else ok tt)
        (HasKind e k)
HasKind-Passes e k p msg h =
    Passes-iff (λ (t, x, (y, _)). (t, x, y), λ (t, x, y). (t, x, (y, tt)))
      (Passes-bind (get_type e) _ (λ t. of_kind-Passes t k p (msg t) h Passes-ok))

check_optional-Passes :
    {A : Type 0} {f : A → Outcome (Unit {0})} {P : A → Type 0}
    → ((a : A) → Passes (f a) (P a))
    → (o : Option A) → Passes (check_optional f o) (Optional P o)
unfolding check_optional
check_optional-Passes g none = Passes-ok
check_optional-Passes g (some a) = g a

check_idxs-Passes : (es : Exprs) → Passes (check_idxs es) (AllInts es)
unfolding check_idxs
check_idxs-Passes nil = Passes-ok
check_idxs-Passes (cons e es) =
    Passes-iff (λ (t, x, (y, z)). ((t, x, y), z), λ ((t, x, y), z). (t, x, (y, z)))
      (Passes-bind (get_type e) _ (λ t.
        of_kind-Passes t int (expr_pos e) "index should have int type" (λ q. cc)
          (check_idxs-Passes es)))

mutual
  unfolding check_expr

  check_expr-Passes : (e : Expr) → Passes (check_expr e) (IndexedByInts e)
  check_expr-Passes (bin_op_node p o l r) =
      Passes-then (check_expr l) (check_expr-Passes l) (check_expr-Passes r)
  check_expr-Passes (arr_lookup_node p i idxs) =
      Passes-then (check_idxs idxs) (check_idxs-Passes idxs) (check_exprs-Passes idxs)
  check_expr-Passes (arr_create_node p t len) = check_expr-Passes len
  check_expr-Passes (ident_node i) = Passes-ok
  check_expr-Passes (char_node p c) = Passes-ok
  check_expr-Passes (string_node p c) = Passes-ok
  check_expr-Passes (number_node p c) = Passes-ok
  check_expr-Passes (bool_node p c) = Passes-ok
  check_expr-Passes (property_lookup_node p i c) = Passes-ok

  check_exprs-Passes : (es : Exprs) → Passes (check_exprs es) (AllIndexedByInts es)
  check_exprs-Passes nil = Passes-ok
  check_exprs-Passes (cons e es) =
      Passes-then (check_expr e) (check_expr-Passes e) (check_exprs-Passes es)

check_precond-Passes : (c : PrecondNode) → Passes (check_precond c) (PrecondTyped c)
unfolding check_precond type_check_precondition check_precond_expr
check_precond-Passes c =
    Passes-then (check_optional (check_precond_expr c.pos) c.expr)
      (check_optional-Passes
        (λ e. HasKind-Passes e bool c.pos (λ _. "precondition must be evaluated to bool") (λ q. cc))
        c.expr)
      (check_optional-Passes check_expr-Passes c.expr)

check_not_input-Passes : (p : Position) (i : IdentNode) → Passes (check_not_input p i) (NotInput i)
unfolding check_not_input
check_not_input-Passes p i = at i.symbol refl
  where
    at : (o : Option Symbol) → i.symbol ≡ o → Passes (check_not_input p i) (NotInput i)
    at none e = rw (e, check_not_input) (λ h. cc, λ (s, q, _). cc q)
    at (some s) e =
        rw (e, check_not_input)
          (Passes-iff (λ q. (s, refl, q), λ (r, q, u). ground arith)
            (Passes-when s.is_input p "can not assign to input variable"))

check_target-Passes : (e : Expr) → Passes (check_target e) (Assignable e)
unfolding check_target
check_target-Passes (ident_node i) = check_not_input-Passes i.pos i
check_target-Passes (arr_lookup_node p i idxs) = check_not_input-Passes p i
check_target-Passes (bin_op_node p o l r) = Passes-ok
check_target-Passes (arr_create_node p t len) = Passes-ok
check_target-Passes (char_node p c) = Passes-ok
check_target-Passes (string_node p c) = Passes-ok
check_target-Passes (number_node p c) = Passes-ok
check_target-Passes (bool_node p c) = Passes-ok
check_target-Passes (property_lookup_node p i c) = Passes-ok

type_check_asg-Passes :
    (a : AsgNode)
    → Passes (type_check_asg a) (
        (t : Ty) × (get_type a.lhs ≡ ok t)
        × ((u : Ty) × (get_type a.rhs ≡ ok u) × (is_convertable_to t u ≡ true)))
unfolding type_check_asg
type_check_asg-Passes a = Passes-bind (get_type a.lhs) _ (λ t. Passes-bind (get_type a.rhs) _ (λ u.
    Passes-iff (λ (x, _). x, λ x. (x, tt))
      (Passes-unless (is_convertable_to t u) a.pos _ Passes-ok)))

check_asg-Passes : (a : AsgNode) → Passes (check_asg a) (AsgTyped a)
unfolding check_asg
check_asg-Passes a = Passes-then (check_target a.lhs) (check_target-Passes a.lhs) (
    Passes-then (type_check_asg a) (type_check_asg-Passes a)
      (Passes-then (check_expr a.lhs) (check_expr-Passes a.lhs) (check_expr-Passes a.rhs)))

check_def-Passes : (d : DefNode) → Passes (check_def d) (DefTyped d)
unfolding check_def check_def_rhs
check_def-Passes d =
    check_optional-Passes
      (λ e.
        Passes-bind (get_type e) _
          (λ t. Passes-unless (is_convertable_to t d.type) d.pos _ (check_expr-Passes e)))
      d.rhs

check_cond-Passes :
    (p : Position) (msg : String) (e : Expr) → Passes (check_cond p msg e) (HasKind e bool)
unfolding check_cond
check_cond-Passes p msg e = HasKind-Passes e bool p _ (λ q. cc)

mutual
  unfolding check_stmts check_return

  check_stmt-Passes : (ret : Ty) (s : Stmt) → Passes (check_stmt ret s) (StmtTyped ret s)
  check_stmt-Passes ret (return_node p e) =
      Passes-bind (get_type e) _ (λ t. Passes-unless (eq_type t ret) p _ (check_expr-Passes e))
  check_stmt-Passes ret (asg_node a) = check_asg-Passes a
  check_stmt-Passes ret (def_node d) = check_def-Passes d
  check_stmt-Passes ret (for_node h body) =
      Passes-then (check_cond _ _ h.cond) (check_cond-Passes _ _ h.cond) (
        Passes-then (check_optional check_precond h.precond)
          (check_optional-Passes check_precond-Passes h.precond)
          (Passes-then (check_optional check_asg h.pre_asg)
            (check_optional-Passes check_asg-Passes h.pre_asg)
            (Passes-then (check_expr h.cond) (check_expr-Passes h.cond) (
              Passes-then (check_optional check_asg h.inc_asg)
                (check_optional-Passes check_asg-Passes h.inc_asg) (check_stmts-Passes ret body)))))
  check_stmt-Passes ret (if_node h body) =
      Passes-then (check_cond _ _ h.cond) (check_cond-Passes _ _ h.cond) (
        Passes-then (check_optional check_precond h.precond)
          (check_optional-Passes check_precond-Passes h.precond)
          (Passes-then (check_expr h.cond) (check_expr-Passes h.cond)
            (check_stmts-Passes ret body)))
  check_stmt-Passes ret (if_else_node h body els) =
      Passes-then (check_cond _ _ h.cond) (check_cond-Passes _ _ h.cond) (
        Passes-then (check_optional check_precond h.precond)
          (check_optional-Passes check_precond-Passes h.precond)
          (Passes-then (check_expr h.cond) (check_expr-Passes h.cond) (
            Passes-then (check_stmts ret body) (check_stmts-Passes ret body)
              (check_stmts-Passes ret els))))
  check_stmt-Passes ret (continue_node p l) = Passes-ok
  check_stmt-Passes ret (break_node p l) = Passes-ok

  check_stmts-Passes : (ret : Ty) (b : Stmts) → Passes (check_stmts ret b) (StmtsTyped ret b)
  check_stmts-Passes ret end = Passes-ok
  check_stmts-Passes ret (s ⨾ b) =
      Passes-then (check_stmt ret s) (check_stmt-Passes ret s) (check_stmts-Passes ret b)

check_args-Passes : (ds : List DefNode) → Passes (check_args ds) (AllDefsTyped ds)
unfolding check_args
check_args-Passes [] = Passes-ok
check_args-Passes (d ∷ ds) = Passes-then (check_def d) (check_def-Passes d) (check_args-Passes ds)

-- `type_check` succeeds exactly on the functions that follow the typing rules: conditions and
-- preconditions are `bool`, indices `int`, what is returned has the return type, the sides of an
-- assignment or a definition convert, and nothing is assigned to an input or to its elements.
pub type_check_iff : (f : FunctionNode) → (type_check f ≡ ok tt) ↔ Typed f
unfolding type_check
type_check_iff f =
    Passes-then (check_stmts f.ret_type f.body) (check_stmts-Passes f.ret_type f.body)
      (check_args-Passes f.args)
