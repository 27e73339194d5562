-- ===== src/Semantics/Reach.antt =====
-- What a body does, apart from what its expressions and assignments do, and that
-- eliminate_unreachable_code (src/Semantics.cpp) keeps it.
pub mod Keep
use d_gen.Errors.{Position}
use d_gen.Prelude.{
  ℕ, ◌≡◌, ◌≢◌, ◌↔◌, refl, ◌⊎◌, inl, inr, Bool, true, false, Option, none, some, arith, Bool-cases,
  if◌then◌else◌,
}
use d_gen.Ast.{
  Expr, IfHead, ForHead, DefNode, AsgNode, PrecondNode, Stmt, if_node, if_else_node, for_node,
  def_node, continue_node, break_node, return_node, asg_node, Stmts, end, ◌⨾◌,
}
use d_gen.Semantics.Loops.{is_jump, eliminate_stmt, eliminate_body}

-- How a statement ends.
pub data Signal : Type 0 where
  normal broke continued returned : Signal

-- The steps that the statements are made of, on the states `S` of a machine: a condition may change
-- the state, as it may bind a generated value to an input.
pub record Machine (S : Type 0) : Type 0 where
  pub define : DefNode → S → S
  pub assign : AsgNode → S → S
  pub give_back : Expr → S → S
  pub test : Option PrecondNode → Expr → S → Bool × S

module _ {S : Type 0} (m : Machine S) where
  abbrev pub before : ForHead → S → S
  before h s = elim h.pre_asg [ none ↦ s | some a ↦ m.assign a s ]

  abbrev pub step : ForHead → S → S
  step h s = elim h.inc_asg [ none ↦ s | some a ↦ m.assign a s ]

-- As the emitted branches run (CodegenVisitor::code_gen of IfNode, ForNode, ContinueNode and
-- BreakNode in src/CodegenVisitor.cpp): a `continue` goes to the condition past `inc_asg`.
mutual
  pub data ExecStmt {S : Type 0} (m : Machine S) : Stmt → S → Signal → S → Type 0 where
    defines : {d : DefNode} {s : S} → ExecStmt m (def_node d) s normal (m.define d s)
    assigns : {a : AsgNode} {s : S} → ExecStmt m (asg_node a) s normal (m.assign a s)
    continues : {p : Position} {l : Option ℕ} {s : S} → ExecStmt m (continue_node p l) s continued s
    breaks : {p : Position} {l : Option ℕ} {s : S} → ExecStmt m (break_node p l) s broke s
    returns :
        {p : Position} {e : Expr} {s : S}
        → ExecStmt m (return_node p e) s returned (m.give_back e s)
    if_true :
        {h : IfHead} {b : Stmts} {s s' : S} {g : Signal}
        → (m.test h.precond h.cond s).0 ≡ true
        → Exec m b (m.test h.precond h.cond s).1 g s'
        → ExecStmt m (if_node h b) s g s'
    if_false :
        {h : IfHead} {b : Stmts} {s : S}
        → (m.test h.precond h.cond s).0 ≡ false
        → ExecStmt m (if_node h b) s normal (m.test h.precond h.cond s).1
    then_branch :
        {h : IfHead} {b e : Stmts} {s s' : S} {g : Signal}
        → (m.test h.precond h.cond s).0 ≡ true
        → Exec m b (m.test h.precond h.cond s).1 g s'
        → ExecStmt m (if_else_node h b e) s g s'
    else_branch :
        {h : IfHead} {b e : Stmts} {s s' : S} {g : Signal}
        → (m.test h.precond h.cond s).0 ≡ false
        → Exec m e (m.test h.precond h.cond s).1 g s'
        → ExecStmt m (if_else_node h b e) s g s'
    loops :
        {h : ForHead} {b : Stmts} {s s' : S} {g : Signal}
        → Rounds m h b (before m h s) g s'
        → ExecStmt m (for_node h b) s g s'

  -- the rounds of a loop, from a test of its condition on
  pub data Rounds {S : Type 0} (m : Machine S) : ForHead → Stmts → S → Signal → S → Type 0 where
    done :
        {h : ForHead} {b : Stmts} {s : S}
        → (m.test h.precond h.cond s).0 ≡ false
        → Rounds m h b s normal (m.test h.precond h.cond s).1
    again :
        {h : ForHead} {b : Stmts} {s s₁ s₂ : S} {g : Signal}
        → (m.test h.precond h.cond s).0 ≡ true
        → Exec m b (m.test h.precond h.cond s).1 normal s₁
        → Rounds m h b (step m h s₁) g s₂
        → Rounds m h b s g s₂
    skip :
        {h : ForHead} {b : Stmts} {s s₁ s₂ : S} {g : Signal}
        → (m.test h.precond h.cond s).0 ≡ true
        → Exec m b (m.test h.precond h.cond s).1 continued s₁
        → Rounds m h b s₁ g s₂
        → Rounds m h b s g s₂
    leave :
        {h : ForHead} {b : Stmts} {s s₁ : S}
        → (m.test h.precond h.cond s).0 ≡ true
        → Exec m b (m.test h.precond h.cond s).1 broke s₁
        → Rounds m h b s normal s₁
    finish :
        {h : ForHead} {b : Stmts} {s s₁ : S}
        → (m.test h.precond h.cond s).0 ≡ true
        → Exec m b (m.test h.precond h.cond s).1 returned s₁
        → Rounds m h b s returned s₁

  pub data Exec {S : Type 0} (m : Machine S) : Stmts → S → Signal → S → Type 0 where
    falls : {s : S} → Exec m end s normal s
    next :
        {t : Stmt} {b : Stmts} {s s₁ s₂ : S} {g : Signal}
        → ExecStmt m t s normal s₁
        → Exec m b s₁ g s₂
        → Exec m (t ⨾ b) s g s₂
    stop :
        {t : Stmt} {b : Stmts} {s s₁ : S} {g : Signal}
        → ExecStmt m t s g s₁
        → g ≢ normal
        → Exec m (t ⨾ b) s g s₁
