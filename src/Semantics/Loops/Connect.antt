-- ===== src/Semantics/Loops/Connect.antt =====
-- Which loop a `continue` or a `break` belongs to after the passes, and when there is none.
use d_gen.Prelude.{
  ℕ, ◌≡◌, ◌≢◌, refl, subst, ◌⊎◌, inl, inr, true, false, Option, none, some, List, [], ◌∷◌,
}
use d_gen.Errors.{Position, Err, ok, err, >>=-eq-ok, ok_injective}
use d_gen.Ast.{
  Stmt, if_node, if_else_node, for_node, def_node, continue_node, break_node, return_node, asg_node,
  Stmts, end, ◌⨾◌, FunctionNode, IfHead,
}
use d_gen.Errors.Ends.{Ends, returns, throws, Ends-bind, Ends-map, Ends-if, Ends-cases, of_ok}
use d_gen.Semantics.Loops.{
  is_loop_jump, is_jump, connect_stmt, connect_body, connect_loops, eliminate_stmt, eliminate_body,
  eliminate_unreachable_code,
}

-- Each `continue` and each `break` holds the address of the innermost loop around it. `loop` is the
-- loop around the statements.
abbrev mutual
  pub ConnectedStmt : Option ℕ → Stmt → Type 0
  ConnectedStmt loop (continue_node p l) = (l ≡ loop) × (loop ≢ none)
  ConnectedStmt loop (break_node p l) = (l ≡ loop) × (loop ≢ none)
  ConnectedStmt loop (for_node h body) = Connected (some h.addr) body
  ConnectedStmt loop (if_node h body) = Connected loop body
  ConnectedStmt loop (if_else_node h body els) = Connected loop body × Connected loop els
  ConnectedStmt loop _ = Unit

  pub Connected : Option ℕ → Stmts → Type 0
  Connected loop end = Unit
  Connected loop (s ⨾ b) = ConnectedStmt loop s × Connected loop b

-- There is a `continue` or a `break` at position `p`, and no loop of these statements around it.
mutual
  pub data LooseStmt (p : Position) : Stmt → Type 0 where
    loose_continue : {l : Option ℕ} → LooseStmt p (continue_node p l)
    loose_break : {l : Option ℕ} → LooseStmt p (break_node p l)
    loose_if : {h : IfHead} {b : Stmts} → Loose p b → LooseStmt p (if_node h b)
    loose_then : {h : IfHead} {b e : Stmts} → Loose p b → LooseStmt p (if_else_node h b e)
    loose_else : {h : IfHead} {b e : Stmts} → Loose p e → LooseStmt p (if_else_node h b e)

  pub data Loose (p : Position) : Stmts → Type 0 where
    here : {s : Stmt} {b : Stmts} → LooseStmt p s → Loose p (s ⨾ b)
    later : {s : Stmt} {b : Stmts} → Loose p b → Loose p (s ⨾ b)

-- What `connect_loops` throws: one error, at the position of a jump that has no loop.
abbrev ThrownStmt : Option ℕ → Stmt → List Err → Type 0
ThrownStmt loop s e = (loop ≡ none) × ((x : Err) × (e ≡ x ∷ []) × LooseStmt x.pos s)

abbrev pub Thrown : Option ℕ → Stmts → List Err → Type 0
Thrown loop b e = (loop ≡ none) × ((x : Err) × (e ≡ x ∷ []) × Loose x.pos b)

jump_of_loop_jump : (s : Stmt) → is_loop_jump s ≡ true → is_jump s ≡ true
jump_of_loop_jump (continue_node p l) h = refl
jump_of_loop_jump (break_node p l) h = refl
jump_of_loop_jump (return_node p e) h = refl
jump_of_loop_jump _ h = cc

-- A cut keeps what stands in front of it.
pub Connected-cut :
    (loop : Option ℕ) (s : Stmt) (b : Stmts)
    → ConnectedStmt loop (eliminate_stmt s)
    → (is_jump s ≡ false → Connected loop (eliminate_body b))
    → Connected loop (eliminate_body (s ⨾ b))
unfolding eliminate_body
Connected-cut loop (continue_node p l) b hs hb = (hs, tt)
Connected-cut loop (break_node p l) b hs hb = (hs, tt)
Connected-cut loop (return_node p e) b hs hb = (hs, tt)
Connected-cut loop (for_node h body) b hs hb = (hs, hb refl)
Connected-cut loop (if_node h body) b hs hb = (hs, hb refl)
Connected-cut loop (if_else_node h body els) b hs hb = (hs, hb refl)
Connected-cut loop (def_node d) b hs hb = (hs, hb refl)
Connected-cut loop (asg_node a) b hs hb = (hs, hb refl)

pub Connected-uncut :
    (loop : Option ℕ) (s : Stmt) (b : Stmts)
    → Connected loop (eliminate_body (s ⨾ b))
    → ConnectedStmt loop (eliminate_stmt s)
      × (is_jump s ≡ false → Connected loop (eliminate_body b))
unfolding eliminate_body
Connected-uncut loop (continue_node p l) b h = (h.0, λ e. cc)
Connected-uncut loop (break_node p l) b h = (h.0, λ e. cc)
Connected-uncut loop (return_node p e) b h = (h.0, λ e. cc)
Connected-uncut loop (for_node k body) b h = (h.0, λ _. h.1)
Connected-uncut loop (if_node k body) b h = (h.0, λ _. h.1)
Connected-uncut loop (if_else_node k body els) b h = (h.0, λ _. h.1)
Connected-uncut loop (def_node d) b h = (h.0, λ _. h.1)
Connected-uncut loop (asg_node a) b h = (h.0, λ _. h.1)

-- What `connect_stmt` returns is the same kind of statement, with its jumps connected.
abbrev Done : Option ℕ → Stmt → Stmt → Type 0
Done loop s s' = (is_jump s' ≡ is_jump s) × ConnectedStmt loop (eliminate_stmt s')

mutual
  unfolding connect_body eliminate_body

  connect_stmt-Ends :
      (loop : Option ℕ) (s : Stmt) → Ends (Done loop s) (ThrownStmt loop s) ⊥ (connect_stmt loop s)
  connect_stmt-Ends none (continue_node p l) = throws (refl, (_, refl, loose_continue))
  connect_stmt-Ends (some a) (continue_node p l) = returns (refl, (refl, cc))
  connect_stmt-Ends none (break_node p l) = throws (refl, (_, refl, loose_break))
  connect_stmt-Ends (some a) (break_node p l) = returns (refl, (refl, cc))
  connect_stmt-Ends loop (for_node h body) =
      Ends-bind
        (Ends-map (λ _ d. d) (λ e t. absurd (cc t.0)) (connect_body-Ends (some h.addr) body))
        λ b d. returns (refl, d)
  connect_stmt-Ends loop (if_node h body) =
      Ends-bind
        (Ends-map (λ _ d. d) (λ e (n, (x, q, l)). (n, (x, q, loose_if l)))
          (connect_body-Ends loop body))
        λ b d. returns (refl, d)
  connect_stmt-Ends loop (if_else_node h body els) =
      Ends-bind
        (Ends-map (λ _ d. d) (λ e (n, (x, q, l)). (n, (x, q, loose_then l)))
          (connect_body-Ends loop body))
        λ b d.
          Ends-bind
            (Ends-map (λ _ c. c) (λ e (n, (x, q, l)). (n, (x, q, loose_else l)))
              (connect_body-Ends loop els))
            λ c d'. returns (refl, (d, d'))
  connect_stmt-Ends loop (def_node d) = returns (refl, tt)
  connect_stmt-Ends loop (return_node p e) = returns (refl, tt)
  connect_stmt-Ends loop (asg_node a) = returns (refl, tt)

  pub connect_body-Ends :
      (loop : Option ℕ) (b : Stmts)
      → Ends (λ b'. Connected loop (eliminate_body b')) (Thrown loop b) ⊥ (connect_body loop b)
  connect_body-Ends loop end = returns tt
  connect_body-Ends loop (s ⨾ b) =
      Ends-bind
        (Ends-map (λ _ d. d) (λ e (n, (x, q, l)). (n, (x, q, here l))) (connect_stmt-Ends loop s))
        λ s' (same, d).
          Ends-bind {P = λ b'. is_jump s' ≡ false → Connected loop (eliminate_body b')}
            (Ends-if (is_loop_jump s)
              (λ jump. returns (λ isnt. cc (jump_of_loop_jump s jump, same, isnt)))
              (λ _.
                Ends-map (λ _ c _. c) (λ e (n, (x, q, l)). (n, (x, q, later l)))
                  (connect_body-Ends loop b)))
            λ b' c. returns (Connected-cut loop s' b' d c)

-- If `connect_loops` succeeds then, once the unreachable code is eliminated, each `continue` and
-- each `break` holds the address of the innermost loop around it.
pub connect_loops-Connected :
    (f g : FunctionNode)
    → connect_loops f ≡ ok g
    → Connected none (eliminate_unreachable_code g).body
unfolding connect_loops eliminate_unreachable_code
connect_loops-Connected f g h =
    let (b, made, e) = >>=-eq-ok (connect_body none f.body) (λ b. ok (record f { body = b })) h in
    subst (λ (o : FunctionNode). Connected none (eliminate_body o.body)) (ok_injective e)
      (of_ok (subst (Ends _ _ ⊥) made (connect_body-Ends none f.body)))

-- `connect_loops` throws only one error, at the position of a `continue` or `break` that no loop
-- surrounds; it succeeds if there is none such, and it never crashes.
pub connect_loops_total :
    (f : FunctionNode)
    → ((g : FunctionNode) × (connect_loops f ≡ ok g))
      ⊎ ((x : Err) × (connect_loops f ≡ err (x ∷ [])) × Loose x.pos f.body)
unfolding connect_loops
connect_loops_total f =
    elim (Ends-cases (connect_body none f.body) (connect_body-Ends none f.body)) [
      | inl (b, made, c) ↦ inl (record f { body = b }, rw made)
      | inr (inl (e, made, (n, (x, q, l)))) ↦ inr (x, rw (made, q), l)
      | inr (inr (c, made)) ↦ absurd c
    ]
