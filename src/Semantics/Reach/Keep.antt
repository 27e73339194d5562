-- ===== src/Semantics/Reach/Keep.antt =====
-- eliminate_unreachable_code (src/Semantics.cpp) keeps what a body does, on every machine.
use d_gen.Prelude.{◌≡◌, ◌≢◌, ◌↔◌, refl, inl, inr, true, Bool-cases}
use d_gen.Ast.{
  ForHead, Stmt, if_node, if_else_node, for_node, def_node, continue_node, break_node, return_node,
  asg_node, Stmts, end, ◌⨾◌,
}
use d_gen.Semantics.Loops.{is_jump, eliminate_stmt, eliminate_body}
use d_gen.Semantics.Reach.{
  Signal, normal, Machine, ExecStmt, defines, assigns, continues, breaks, returns, if_true,
  if_false, then_branch, else_branch, loops, Rounds, done, again, skip, leave, finish, Exec, next,
  stop,
}

module _ {S : Type 0} {m : Machine S} where
  Rounds-map :
      {h : ForHead} {b c : Stmts} {s s' : S} {g : Signal}
      → ((t t' : S) (k : Signal) → Exec m b t k t' → Exec m c t k t')
      → Rounds m h b s g s'
      → Rounds m h c s g s'
  Rounds-map f (done p) = done p
  Rounds-map f (again p d r) = again p (f _ _ _ d) (Rounds-map f r)
  Rounds-map f (skip p d r) = skip p (f _ _ _ d) (Rounds-map f r)
  Rounds-map f (leave p d) = leave p (f _ _ _ d)
  Rounds-map f (finish p d) = finish p (f _ _ _ d)

  jump-ne-normal :
      {t : Stmt} {s s' : S} {g : Signal} → ExecStmt m t s g s' → is_jump t ≡ true → g ≢ normal
  jump-ne-normal continues j = cc
  jump-ne-normal breaks j = cc
  jump-ne-normal returns j = cc
  jump-ne-normal defines j = cc
  jump-ne-normal assigns j = cc
  jump-ne-normal (if_true _ _) j = cc
  jump-ne-normal (if_false _) j = cc
  jump-ne-normal (then_branch _ _) j = cc
  jump-ne-normal (else_branch _ _) j = cc
  jump-ne-normal (loops _) j = cc

  -- Behind a jump any statements may stand.
  Exec-behind_jump :
      {t : Stmt} {b c : Stmts} {s s' : S} {g : Signal}
      → is_jump t ≡ true
      → Exec m (t ⨾ b) s g s'
      → Exec m (t ⨾ c) s g s'
  Exec-behind_jump j (next d _) = absurd (jump-ne-normal d j refl)
  Exec-behind_jump j (stop d ne) = stop d ne

  Exec-cons :
      {t u : Stmt} {b c : Stmts} {s s' : S} {g : Signal}
      → ((r r' : S) (k : Signal) → ExecStmt m t r k r' → ExecStmt m u r k r')
      → ((r r' : S) (k : Signal) → Exec m b r k r' → Exec m c r k r')
      → Exec m (t ⨾ b) s g s'
      → Exec m (u ⨾ c) s g s'
  Exec-cons ft fb (next d e) = next (ft _ _ _ d) (fb _ _ _ e)
  Exec-cons ft fb (stop d ne) = stop (ft _ _ _ d) ne

  mutual
    unfolding eliminate_body

    eliminate_stmt-Exec :
        (t : Stmt) (s s' : S) (g : Signal)
        → ExecStmt m t s g s'
        → ExecStmt m (eliminate_stmt t) s g s'
    eliminate_stmt-Exec (for_node h b) s s' g (loops r) =
        loops (Rounds-map (eliminate_body-Exec b) r)
    eliminate_stmt-Exec (if_node h b) s s' g (if_true p d) =
        if_true p (eliminate_body-Exec b _ _ _ d)
    eliminate_stmt-Exec (if_node h b) s s' g (if_false p) = if_false p
    eliminate_stmt-Exec (if_else_node h b e) s s' g (then_branch p d) =
        then_branch p (eliminate_body-Exec b _ _ _ d)
    eliminate_stmt-Exec (if_else_node h b e) s s' g (else_branch p d) =
        else_branch p (eliminate_body-Exec e _ _ _ d)
    eliminate_stmt-Exec (def_node d) s s' g r = r
    eliminate_stmt-Exec (asg_node a) s s' g r = r
    eliminate_stmt-Exec (continue_node p l) s s' g r = r
    eliminate_stmt-Exec (break_node p l) s s' g r = r
    eliminate_stmt-Exec (return_node p e) s s' g r = r

    eliminate_body-Exec :
        (b : Stmts) (s s' : S) (g : Signal) → Exec m b s g s' → Exec m (eliminate_body b) s g s'
    eliminate_body-Exec end s s' g d = d
    eliminate_body-Exec (t ⨾ b) s s' g d = elim (Bool-cases (is_jump t)) [
      | inl jump ↦ rw jump (Exec-behind_jump jump d)
      | inr stays ↦ rw stays (Exec-cons (eliminate_stmt-Exec t) (eliminate_body-Exec b) d)
    ]

  mutual
    unfolding eliminate_body

    ExecStmt-of_eliminate_stmt :
        (t : Stmt) (s s' : S) (g : Signal)
        → ExecStmt m (eliminate_stmt t) s g s'
        → ExecStmt m t s g s'
    ExecStmt-of_eliminate_stmt (for_node h b) s s' g (loops r) =
        loops (Rounds-map (Exec-of_eliminate b) r)
    ExecStmt-of_eliminate_stmt (if_node h b) s s' g (if_true p d) =
        if_true p (Exec-of_eliminate b _ _ _ d)
    ExecStmt-of_eliminate_stmt (if_node h b) s s' g (if_false p) = if_false p
    ExecStmt-of_eliminate_stmt (if_else_node h b e) s s' g (then_branch p d) =
        then_branch p (Exec-of_eliminate b _ _ _ d)
    ExecStmt-of_eliminate_stmt (if_else_node h b e) s s' g (else_branch p d) =
        else_branch p (Exec-of_eliminate e _ _ _ d)
    ExecStmt-of_eliminate_stmt (def_node d) s s' g r = r
    ExecStmt-of_eliminate_stmt (asg_node a) s s' g r = r
    ExecStmt-of_eliminate_stmt (continue_node p l) s s' g r = r
    ExecStmt-of_eliminate_stmt (break_node p l) s s' g r = r
    ExecStmt-of_eliminate_stmt (return_node p e) s s' g r = r

    Exec-of_eliminate :
        (b : Stmts) (s s' : S) (g : Signal) → Exec m (eliminate_body b) s g s' → Exec m b s g s'
    Exec-of_eliminate end s s' g d = d
    Exec-of_eliminate (t ⨾ b) s s' g d = elim (Bool-cases (is_jump t)) [
      | inl jump ↦ Exec-behind_jump jump (rw jump at d)
      | inr stays ↦ Exec-cons (ExecStmt-of_eliminate_stmt t) (Exec-of_eliminate b) (rw stays at d)
    ]

-- On every machine a body and what eliminate_unreachable_code leaves of it have the same runs: from
-- the same state, with the same signal, to the same state.
pub eliminate_body-Exec_iff :
    {S : Type 0} (m : Machine S) (b : Stmts) (s s' : S) (g : Signal)
    → Exec m b s g s' ↔ Exec m (eliminate_body b) s g s'
eliminate_body-Exec_iff m b s s' g = (eliminate_body-Exec b s s' g, Exec-of_eliminate b s s' g)
