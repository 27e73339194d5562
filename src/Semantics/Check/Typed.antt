-- ===== src/Semantics/Check/Typed.antt =====
-- The typing rules of the language that type_check (src/Semantics.cpp) is held to.
pub mod Sound
use d_gen.Prelude.{
  ◌≡◌, ◌≢◌, ◌↔◌, refl, Bool, true, false, not, Option, none, some, List, [], ◌∷◌, String, arith,
  if◌then◌else◌,
}
use d_gen.Errors.{Position, Outcome, ok, err, crash, ◌>>=◌, throw}
use d_gen.Errors.Passes.{
  Passes, Passes-ok, Passes-then, Passes-bind, Passes-unless, Passes-when, Passes-iff,
}
use d_gen.Types.{TypeKind, int, bool, invalid, kind_eq, Ty, eq_type, eq_kind, is_convertable_to}
use d_gen.Types.View.{view, kind_eq_iff, kinds_are, eq_kind-view}
use d_gen.Ast.{
  Symbol, IdentNode, Expr, char_node, string_node, number_node, bool_node, ident_node, bin_op_node,
  arr_lookup_node, arr_create_node, property_lookup_node, Exprs, nil, cons, expr_pos, PrecondNode,
  AsgNode, DefNode, Stmt, if_node, if_else_node, for_node, def_node, continue_node, break_node,
  return_node, asg_node, Stmts, end, ◌⨾◌, FunctionNode,
}
use d_gen.Ast.Typing.{get_type}
use d_gen.Semantics.Check.{
  check_idxs, check_expr, check_exprs, check_optional, type_check_precondition, check_precond,
  check_not_input, check_target, type_check_asg, check_asg, check_def, check_return, check_cond,
  check_stmt, check_stmts, check_args, type_check,
}

-- The expression has the type with the one kind `k`.
abbrev pub HasKind : Expr → TypeKind → Type 0
HasKind e k = (t : Ty) × (get_type e ≡ ok t) × (view t ≡ k ∷ [])

abbrev pub AllInts : Exprs → Type 0
AllInts nil = Unit
AllInts (cons e es) = HasKind e int × AllInts es

-- Every index in the expression, at any depth, is an `int`.
abbrev mutual
  pub IndexedByInts : Expr → Type 0
  IndexedByInts (bin_op_node p o l r) = IndexedByInts l × IndexedByInts r
  IndexedByInts (arr_lookup_node p i idxs) = AllInts idxs × AllIndexedByInts idxs
  IndexedByInts (arr_create_node p t len) = IndexedByInts len
  IndexedByInts _ = Unit

  pub AllIndexedByInts : Exprs → Type 0
  AllIndexedByInts nil = Unit
  AllIndexedByInts (cons e es) = IndexedByInts e × AllIndexedByInts es

abbrev pub Optional : {A : Type 0} → (A → Type 0) → Option A → Type 0
Optional P none = Unit
Optional P (some a) = P a

abbrev pub PrecondTyped : PrecondNode → Type 0
PrecondTyped c = Optional (λ e. HasKind e bool) c.expr × Optional IndexedByInts c.expr

-- The identifier stands for a variable that is no input.
abbrev pub NotInput : IdentNode → Type 0
NotInput i = (s : Symbol) × (i.symbol ≡ some s) × (s.is_input ≡ false)

abbrev pub Assignable : Expr → Type 0
Assignable (ident_node i) = NotInput i
Assignable (arr_lookup_node p i idxs) = NotInput i
Assignable _ = Unit

abbrev pub AsgTyped : AsgNode → Type 0
AsgTyped a =
    Assignable a.lhs
    × (((t : Ty) × (get_type a.lhs ≡ ok t)
          × ((u : Ty) × (get_type a.rhs ≡ ok u) × (is_convertable_to t u ≡ true)))
        × (IndexedByInts a.lhs × IndexedByInts a.rhs))

abbrev pub DefTyped : DefNode → Type 0
DefTyped d =
    Optional
      (λ e.
        (t : Ty) × (get_type e ≡ ok t) × ((is_convertable_to t d.type ≡ true) × IndexedByInts e))
      d.rhs

abbrev mutual
  pub StmtTyped : Ty → Stmt → Type 0
  StmtTyped ret (return_node p e) =
      (t : Ty) × (get_type e ≡ ok t) × ((eq_type t ret ≡ true) × IndexedByInts e)
  StmtTyped ret (asg_node a) = AsgTyped a
  StmtTyped ret (def_node d) = DefTyped d
  StmtTyped ret (for_node h body) =
      HasKind h.cond bool
      × (Optional PrecondTyped h.precond
          × (Optional AsgTyped h.pre_asg
              × (IndexedByInts h.cond × (Optional AsgTyped h.inc_asg × StmtsTyped ret body))))
  StmtTyped ret (if_node h body) =
      HasKind h.cond bool
      × (Optional PrecondTyped h.precond × (IndexedByInts h.cond × StmtsTyped ret body))
  StmtTyped ret (if_else_node h body els) =
      HasKind h.cond bool
      × (Optional PrecondTyped h.precond
          × (IndexedByInts h.cond × (StmtsTyped ret body × StmtsTyped ret els)))
  StmtTyped ret _ = Unit

  pub StmtsTyped : Ty → Stmts → Type 0
  StmtsTyped ret end = Unit
  StmtsTyped ret (s ⨾ b) = StmtTyped ret s × StmtsTyped ret b

abbrev pub AllDefsTyped : List DefNode → Type 0
AllDefsTyped [] = Unit
AllDefsTyped (d ∷ ds) = DefTyped d × AllDefsTyped ds

abbrev pub Typed : FunctionNode → Type 0
Typed f = StmtsTyped f.ret_type f.body × AllDefsTyped f.args
