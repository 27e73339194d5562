-- ===== src/Semantics/FrontEnd/Keeps.antt =====
-- What one pass of src/Semantics.cpp establishes, the later passes keep.
use d_gen.Prelude.{ℕ, ◌≡◌, refl, sym, ◌∙◌, Option, some, []}
use d_gen.Errors.{Outcome}
use d_gen.Errors.Ends.{Ends, returns, Ends-bind, anyhow}
use d_gen.Types.{Ty}
use d_gen.Ast.{
  Stmt, if_node, if_else_node, for_node, def_node, continue_node, break_node, return_node, asg_node,
  Stmts, end, ◌⨾◌,
}
use d_gen.Scope.{nested}
use d_gen.Semantics.Loops.{is_jump, eliminate_stmt, eliminate_body}
use d_gen.Semantics.Loops.Connect.{ConnectedStmt, Connected, Connected-cut, Connected-uncut}
use d_gen.Semantics.Resolve.{
  optional, resolve_expr, resolve_precond, resolve_asg, resolve_def, Names, resolve_stmt,
  resolve_stmts,
}
use d_gen.Semantics.Resolve.Scoped.{Env, after, StmtInScope, StmtsInScope}
use d_gen.Semantics.Check.Typed.{StmtTyped, StmtsTyped}

abbrev pub Leaves : {A : Type 0} → (A → Type 0) → Outcome A → Type 0
Leaves P = Ends P (λ _. Unit {0}) (Unit {0})

-- A resolved statement is as much of a jump, and as connected, as the one that it was.
abbrev SameStmt : Stmt → Stmt × Names → Type 0
SameStmt s (s', m) =
    (is_jump s' ≡ is_jump s)
    × ((l : Option ℕ) → ConnectedStmt l (eliminate_stmt s) → ConnectedStmt l (eliminate_stmt s'))

abbrev SameStmts : Stmts → Stmts × Names → Type 0
SameStmts b (b', m) =
    (l : Option ℕ) → Connected l (eliminate_body b) → Connected l (eliminate_body b')

mutual
  unfolding resolve_stmts eliminate_body

  resolve_stmt-Same : (s : Stmt) (n : Names) → Leaves (SameStmt s) (resolve_stmt s n)
  resolve_stmt-Same (def_node d) n =
      Ends-bind (anyhow (resolve_def d n)) λ _ _. returns (refl, λ l c. c)
  resolve_stmt-Same (asg_node a) n =
      Ends-bind (anyhow (resolve_asg n.table a)) λ _ _. returns (refl, λ l c. c)
  resolve_stmt-Same (return_node p e) n =
      Ends-bind (anyhow (resolve_expr n.table e)) λ _ _. returns (refl, λ l c. c)
  resolve_stmt-Same (if_node h body) n =
      Ends-bind (anyhow (optional (resolve_precond n.table) h.precond)) λ _ _.
        Ends-bind (anyhow (resolve_expr n.table h.cond)) λ _ _.
          Ends-bind (resolve_stmts-Same body (record { next = n.next; table = nested [] n.table }))
            λ _ k. returns (refl, k)
  resolve_stmt-Same (if_else_node h body els) n =
      Ends-bind (anyhow (optional (resolve_precond n.table) h.precond)) λ _ _.
        Ends-bind (anyhow (resolve_expr n.table h.cond)) λ _ _.
          Ends-bind (resolve_stmts-Same body (record { next = n.next; table = nested [] n.table }))
            λ (_, m) k.
              Ends-bind
                (resolve_stmts-Same els (record { next = m.next; table = nested [] n.table }))
                λ _ j. returns (refl, λ l (c, d). (k l c, j l d))
  resolve_stmt-Same (for_node h body) n =
      Ends-bind (anyhow (optional (resolve_precond n.table) h.precond)) λ _ _.
        Ends-bind (anyhow (optional (resolve_asg n.table) h.pre_asg)) λ _ _.
          Ends-bind (anyhow (resolve_expr n.table h.cond)) λ _ _.
            Ends-bind (anyhow (optional (resolve_asg n.table) h.inc_asg)) λ _ _.
              Ends-bind
                (resolve_stmts-Same body (record { next = n.next; table = nested [] n.table }))
                λ _ k. returns (refl, λ l. k (some h.addr))
  resolve_stmt-Same (continue_node p l) n = returns (refl, λ l c. c)
  resolve_stmt-Same (break_node p l) n = returns (refl, λ l c. c)

  pub resolve_stmts-Same : (b : Stmts) (n : Names) → Leaves (SameStmts b) (resolve_stmts b n)
  resolve_stmts-Same end n = returns (λ l c. c)
  resolve_stmts-Same (s ⨾ b) n = Ends-bind (resolve_stmt-Same s n) λ (s', n') (same, k).
      Ends-bind (resolve_stmts-Same b n') λ (b', m) j. returns (λ l c.
        let (x, y) = Connected-uncut l s b c in
        Connected-cut l s' b' (k l x) (λ stays. j l (y (sym same ∙ stays))))

InScope-cut :
    (Γ : Env) (s : Stmt) (b : Stmts)
    → StmtInScope Γ (eliminate_stmt s)
    → StmtsInScope (after s Γ) (eliminate_body b)
    → StmtsInScope Γ (eliminate_body (s ⨾ b))
unfolding eliminate_body
InScope-cut Γ (continue_node p l) b x y = (x, tt)
InScope-cut Γ (break_node p l) b x y = (x, tt)
InScope-cut Γ (return_node p e) b x y = (x, tt)
InScope-cut Γ (for_node h body) b x y = (x, y)
InScope-cut Γ (if_node h body) b x y = (x, y)
InScope-cut Γ (if_else_node h body els) b x y = (x, y)
InScope-cut Γ (def_node d) b x y = (x, y)
InScope-cut Γ (asg_node a) b x y = (x, y)

mutual
  unfolding eliminate_body

  eliminate_stmt-InScope : (Γ : Env) (s : Stmt) → StmtInScope Γ s → StmtInScope Γ (eliminate_stmt s)
  eliminate_stmt-InScope Γ (for_node h body) (c, a, e, i, b) =
      (c, a, e, i, eliminate_body-InScope Γ body b)
  eliminate_stmt-InScope Γ (if_node h body) (c, e, b) = (c, e, eliminate_body-InScope Γ body b)
  eliminate_stmt-InScope Γ (if_else_node h body els) (c, e, b, d) =
      (c, e, eliminate_body-InScope Γ body b, eliminate_body-InScope Γ els d)
  eliminate_stmt-InScope Γ (continue_node p l) x = x
  eliminate_stmt-InScope Γ (break_node p l) x = x
  eliminate_stmt-InScope Γ (return_node p e) x = x
  eliminate_stmt-InScope Γ (def_node d) x = x
  eliminate_stmt-InScope Γ (asg_node a) x = x

  pub eliminate_body-InScope :
      (Γ : Env) (b : Stmts) → StmtsInScope Γ b → StmtsInScope Γ (eliminate_body b)
  eliminate_body-InScope Γ end x = x
  eliminate_body-InScope Γ (s ⨾ b) (x, y) =
      InScope-cut Γ s b (eliminate_stmt-InScope Γ s x) (eliminate_body-InScope (after s Γ) b y)

Typed-cut :
    (ret : Ty) (s : Stmt) (b : Stmts)
    → StmtTyped ret (eliminate_stmt s)
    → StmtsTyped ret (eliminate_body b)
    → StmtsTyped ret (eliminate_body (s ⨾ b))
unfolding eliminate_body
Typed-cut ret (continue_node p l) b x y = (x, tt)
Typed-cut ret (break_node p l) b x y = (x, tt)
Typed-cut ret (return_node p e) b x y = (x, tt)
Typed-cut ret (for_node h body) b x y = (x, y)
Typed-cut ret (if_node h body) b x y = (x, y)
Typed-cut ret (if_else_node h body els) b x y = (x, y)
Typed-cut ret (def_node d) b x y = (x, y)
Typed-cut ret (asg_node a) b x y = (x, y)

mutual
  unfolding eliminate_body

  eliminate_stmt-Typed : (ret : Ty) (s : Stmt) → StmtTyped ret s → StmtTyped ret (eliminate_stmt s)
  eliminate_stmt-Typed ret (for_node h body) (c, (p, (a, (e, (i, b))))) =
      (c, (p, (a, (e, (i, eliminate_body-Typed ret body b)))))
  eliminate_stmt-Typed ret (if_node h body) (c, (p, (e, b))) =
      (c, (p, (e, eliminate_body-Typed ret body b)))
  eliminate_stmt-Typed ret (if_else_node h body els) (c, (p, (e, (b, d)))) =
      (c, (p, (e, (eliminate_body-Typed ret body b, eliminate_body-Typed ret els d))))
  eliminate_stmt-Typed ret (continue_node p l) x = x
  eliminate_stmt-Typed ret (break_node p l) x = x
  eliminate_stmt-Typed ret (return_node p e) x = x
  eliminate_stmt-Typed ret (def_node d) x = x
  eliminate_stmt-Typed ret (asg_node a) x = x

  pub eliminate_body-Typed :
      (ret : Ty) (b : Stmts) → StmtsTyped ret b → StmtsTyped ret (eliminate_body b)
  eliminate_body-Typed ret end x = x
  eliminate_body-Typed ret (s ⨾ b) (x, y) =
      Typed-cut ret s b (eliminate_stmt-Typed ret s x) (eliminate_body-Typed ret b y)
