-- ===== src/Semantics/Loops/Trim.antt =====
-- What eliminate_unreachable_code leaves.
use d_gen.Prelude.{◌≡◌, refl, ap, ap₂, inl, inr, true, Bool-cases}
use d_gen.Ast.{Stmt, if_node, if_else_node, for_node, Stmts, end, ◌⨾◌}
use d_gen.Semantics.Loops.{is_jump, eliminate_stmt, eliminate_body}

-- Nothing stands behind a `continue`, a `break` or a `return`, at any depth.
abbrev mutual
  pub TrimmedStmt : Stmt → Type 0
  TrimmedStmt (for_node h body) = Trimmed body
  TrimmedStmt (if_node h body) = Trimmed body
  TrimmedStmt (if_else_node h body els) = Trimmed body × Trimmed els
  TrimmedStmt _ = Unit

  pub Trimmed : Stmts → Type 0
  Trimmed end = Unit
  Trimmed (s ⨾ b) = TrimmedStmt s × Trimmed b × (is_jump s ≡ true → b ≡ end)

is_jump-eliminate_stmt : (s : Stmt) → is_jump (eliminate_stmt s) ≡ is_jump s
unfolding eliminate_stmt
is_jump-eliminate_stmt (for_node h body) = refl
is_jump-eliminate_stmt _ = refl

TrimmedStmt-of_jump : (s : Stmt) → is_jump s ≡ true → TrimmedStmt s
TrimmedStmt-of_jump (for_node h body) e = cc
TrimmedStmt-of_jump (if_node h body) e = cc
TrimmedStmt-of_jump (if_else_node h body els) e = cc
TrimmedStmt-of_jump _ e = tt

eliminate_stmt_of_jump : (s : Stmt) → is_jump s ≡ true → eliminate_stmt s ≡ s
unfolding eliminate_stmt
eliminate_stmt_of_jump (for_node h body) e = cc
eliminate_stmt_of_jump (if_node h body) e = cc
eliminate_stmt_of_jump (if_else_node h body els) e = cc
eliminate_stmt_of_jump _ e = refl

mutual
  unfolding eliminate_body

  eliminate_stmt-Trimmed : (s : Stmt) → TrimmedStmt (eliminate_stmt s)
  eliminate_stmt-Trimmed (for_node h body) = eliminate_body-Trimmed body
  eliminate_stmt-Trimmed (if_node h body) = eliminate_body-Trimmed body
  eliminate_stmt-Trimmed (if_else_node h body els) =
      (eliminate_body-Trimmed body, eliminate_body-Trimmed els)
  eliminate_stmt-Trimmed _ = tt

  eliminate_body-Trimmed : (b : Stmts) → Trimmed (eliminate_body b)
  eliminate_body-Trimmed end = tt
  eliminate_body-Trimmed (s ⨾ b) = elim (Bool-cases (is_jump s)) [
    | inl jump ↦ rw jump (TrimmedStmt-of_jump s jump, tt, λ _. refl)
    | inr stays ↦
        rw stays (
          eliminate_stmt-Trimmed s,
          eliminate_body-Trimmed b,
          λ jump. cc (is_jump-eliminate_stmt s),
        )
  ]

mutual
  unfolding eliminate_body

  eliminate_stmt-id : (s : Stmt) → TrimmedStmt s → eliminate_stmt s ≡ s
  eliminate_stmt-id (for_node h body) t = ap (for_node h) (eliminate_body-id body t)
  eliminate_stmt-id (if_node h body) t = ap (if_node h) (eliminate_body-id body t)
  eliminate_stmt-id (if_else_node h body els) t =
      ap₂ (if_else_node h) (eliminate_body-id body t.0) (eliminate_body-id els t.1)
  eliminate_stmt-id _ t = refl

  eliminate_body-id : (b : Stmts) → Trimmed b → eliminate_body b ≡ b
  eliminate_body-id end t = refl
  eliminate_body-id (s ⨾ b) (ts, tb, cut) = elim (Bool-cases (is_jump s)) [
    | inl jump ↦ rw (jump, cut jump)
    | inr stays ↦ rw stays (ap₂ ◌⨾◌ (eliminate_stmt-id s ts) (eliminate_body-id b tb))
  ]

-- No statement is left behind a `continue`, a `break` or a `return`, at any depth, and a body in
-- which there was none already stays as it is.
pub eliminate_body_exact :
    (b : Stmts) → Trimmed (eliminate_body b) × (Trimmed b → eliminate_body b ≡ b)
eliminate_body_exact b = (eliminate_body-Trimmed b, eliminate_body-id b)
