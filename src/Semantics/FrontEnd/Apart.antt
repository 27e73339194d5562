-- ===== src/Semantics/FrontEnd/Apart.antt =====
-- The passes of src/Semantics.cpp keep the loops and their addresses.
use d_gen.Prelude.{List, subst, ℕ, ◌≡◌, Option, none, some, [], inl, inr, Bool-cases}
use d_gen.Errors.Ends.{Ends, returns, throws, Ends-bind, Ends-if, anyhow, of_ok}
use d_gen.Errors.{ok}
use d_gen.Ast.{
  Stmt, if_node, if_else_node, for_node, def_node, continue_node, break_node, return_node, asg_node,
  Stmts, end, ◌⨾◌, Symbol, FunctionNode,
}
use d_gen.Ast.Loops.{LoopBelow, LoopsBelow, LoopApart, LoopsApart}
use d_gen.Scope.{nested}
use d_gen.Semantics.Loops.{
  is_jump, is_loop_jump, connect_stmt, connect_body, connect_loops, eliminate_unreachable_code,
  eliminate_stmt, eliminate_body,
}
use d_gen.Semantics.Resolve.{
  optional, resolve_expr, resolve_precond, resolve_asg, resolve_def, Names, resolve_stmt,
  resolve_stmts, type_ast, start_names, add_inputs,
}
use d_gen.Semantics.Check.{type_check}
use d_gen.Semantics.FrontEnd.{front_end}
use d_gen.Semantics.FrontEnd.Keeps.{Leaves}

-- `t` has the loops of `s`, or some of them.
abbrev Fits : Stmt → Stmt → Type 0
Fits s t = ((a : ℕ) → LoopBelow a s → LoopBelow a t) × (LoopApart s → LoopApart t)

abbrev pub AllFit : Stmts → Stmts → Type 0
AllFit s t = ((a : ℕ) → LoopsBelow a s → LoopsBelow a t) × (LoopsApart s → LoopsApart t)

pub AllFit-trans : (b c d : Stmts) → AllFit b c → AllFit c d → AllFit b d
AllFit-trans b c d (x, y) (z, w) = (λ a h. z a (x a h), λ h. w (y h))

mutual
  unfolding resolve_stmts

  resolve_stmt-Fits : (s : Stmt) (n : Names) → Leaves (λ (t, _). Fits s t) (resolve_stmt s n)
  resolve_stmt-Fits (def_node d) n =
      Ends-bind (anyhow (resolve_def d n)) λ _ _. returns (λ _ _. tt, λ _. tt)
  resolve_stmt-Fits (asg_node a) n =
      Ends-bind (anyhow (resolve_asg n.table a)) λ _ _. returns (λ _ _. tt, λ _. tt)
  resolve_stmt-Fits (return_node p e) n =
      Ends-bind (anyhow (resolve_expr n.table e)) λ _ _. returns (λ _ _. tt, λ _. tt)
  resolve_stmt-Fits (if_node h body) n =
      Ends-bind (anyhow (optional (resolve_precond n.table) h.precond)) λ _ _.
        Ends-bind (anyhow (resolve_expr n.table h.cond)) λ _ _.
          Ends-bind (resolve_stmts-Fit body (record { next = n.next; table = nested [] n.table }))
            λ _ k. returns k
  resolve_stmt-Fits (if_else_node h body els) n =
      Ends-bind (anyhow (optional (resolve_precond n.table) h.precond)) λ _ _.
        Ends-bind (anyhow (resolve_expr n.table h.cond)) λ _ _.
          Ends-bind (resolve_stmts-Fit body (record { next = n.next; table = nested [] n.table }))
            λ (_, m) (x, y).
              Ends-bind
                (resolve_stmts-Fit els (record { next = m.next; table = nested [] n.table }))
                λ _ (z, w). returns (λ a (b, c). (x a b, z a c), λ (b, c). (y b, w c))
  resolve_stmt-Fits (for_node h body) n =
      Ends-bind (anyhow (optional (resolve_precond n.table) h.precond)) λ _ _.
        Ends-bind (anyhow (optional (resolve_asg n.table) h.pre_asg)) λ _ _.
          Ends-bind (anyhow (resolve_expr n.table h.cond)) λ _ _.
            Ends-bind (anyhow (optional (resolve_asg n.table) h.inc_asg)) λ _ _.
              Ends-bind
                (resolve_stmts-Fit body (record { next = n.next; table = nested [] n.table }))
                λ _ (x, y). returns (λ a (lt, b). (lt, x a b), λ (b, c). (x h.addr b, y c))
  resolve_stmt-Fits (continue_node p l) n = returns (λ _ _. tt, λ _. tt)
  resolve_stmt-Fits (break_node p l) n = returns (λ _ _. tt, λ _. tt)

  pub resolve_stmts-Fit :
      (b : Stmts) (n : Names) → Leaves (λ (t, _). AllFit b t) (resolve_stmts b n)
  resolve_stmts-Fit end n = returns (λ _ _. tt, λ _. tt)
  resolve_stmts-Fit (s ⨾ b) n = Ends-bind (resolve_stmt-Fits s n) λ (_, n') (x, y).
      Ends-bind (resolve_stmts-Fit b n')
        λ _ (z, w). returns (λ a (b, c). (x a b, z a c), λ (b, c). (y b, w c))

mutual
  unfolding connect_body

  connect_stmt-Fits : (l : Option ℕ) (s : Stmt) → Leaves (Fits s) (connect_stmt l s)
  connect_stmt-Fits none (continue_node p _) = throws tt
  connect_stmt-Fits (some a) (continue_node p _) = returns (λ _ _. tt, λ _. tt)
  connect_stmt-Fits none (break_node p _) = throws tt
  connect_stmt-Fits (some a) (break_node p _) = returns (λ _ _. tt, λ _. tt)
  connect_stmt-Fits l (for_node h body) =
      Ends-bind (connect_body-Fit (some h.addr) body)
        λ _ (x, y). returns (λ a (lt, b). (lt, x a b), λ (b, c). (x h.addr b, y c))
  connect_stmt-Fits l (if_node h body) = Ends-bind (connect_body-Fit l body) λ _ k. returns k
  connect_stmt-Fits l (if_else_node h body els) = Ends-bind (connect_body-Fit l body) λ _ (x, y).
      Ends-bind (connect_body-Fit l els)
        λ _ (z, w). returns (λ a (b, c). (x a b, z a c), λ (b, c). (y b, w c))
  connect_stmt-Fits l (def_node d) = returns (λ _ _. tt, λ _. tt)
  connect_stmt-Fits l (return_node p e) = returns (λ _ _. tt, λ _. tt)
  connect_stmt-Fits l (asg_node a) = returns (λ _ _. tt, λ _. tt)

  pub connect_body-Fit : (l : Option ℕ) (b : Stmts) → Leaves (AllFit b) (connect_body l b)
  connect_body-Fit l end = returns (λ _ _. tt, λ _. tt)
  connect_body-Fit l (s ⨾ b) = Ends-bind (connect_stmt-Fits l s) λ _ (x, y).
      Ends-bind {P = AllFit b}
        (Ends-if (is_loop_jump s) (λ _. returns (λ _ h. h, λ h. h)) (λ _. connect_body-Fit l b))
        λ _ (z, w). returns (λ a (b, c). (x a b, z a c), λ (b, c). (y b, w c))

mutual
  unfolding eliminate_body

  eliminate_stmt-Fits : (s : Stmt) → Fits s (eliminate_stmt s)
  eliminate_stmt-Fits (for_node h body) =
      let (x, y) = eliminate_body-Fit body in
      (λ a (lt, b). (lt, x a b), λ (b, c). (x h.addr b, y c))
  eliminate_stmt-Fits (if_node h body) = eliminate_body-Fit body
  eliminate_stmt-Fits (if_else_node h body els) =
      let (x, y) = eliminate_body-Fit body in
      let (z, w) = eliminate_body-Fit els in (λ a (b, c). (x a b, z a c), λ (b, c). (y b, w c))
  eliminate_stmt-Fits (def_node d) = (λ _ _. tt, λ _. tt)
  eliminate_stmt-Fits (return_node p e) = (λ _ _. tt, λ _. tt)
  eliminate_stmt-Fits (asg_node a) = (λ _ _. tt, λ _. tt)
  eliminate_stmt-Fits (continue_node p l) = (λ _ _. tt, λ _. tt)
  eliminate_stmt-Fits (break_node p l) = (λ _ _. tt, λ _. tt)

  pub eliminate_body-Fit : (b : Stmts) → AllFit b (eliminate_body b)
  eliminate_body-Fit end = (λ _ _. tt, λ _. tt)
  eliminate_body-Fit (s ⨾ b) =
      let (x, y) = eliminate_stmt-Fits s in
      let (z, w) = eliminate_body-Fit b in
      elim (Bool-cases (is_jump s)) [
        | inl e ↦ rw e (λ a (u, v). (u, tt), λ (u, v). (u, tt))
        | inr e ↦ rw e (λ a (u, v). (x a u, z a v), λ (u, v). (y u, w v))
      ]

front_end-Apart :
    (f : FunctionNode) → Leaves (λ (g, _). LoopsApart f.body → LoopsApart g.body) (front_end f)
unfolding front_end connect_loops type_ast eliminate_unreachable_code
front_end-Apart f =
    Ends-bind {P = λ g. AllFit f.body g.body}
      (Ends-bind (connect_body-Fit none f.body) λ _ k. returns k)
      λ g x.
        Ends-bind {P = λ (k, _). AllFit g.body k.body}
          (Ends-bind (resolve_stmts-Fit g.body (add_inputs g.args start_names).1) λ _ k. returns k)
          λ (k, _) y.
            Ends-bind (anyhow (type_check k))
              λ _ _. returns λ h. (eliminate_body-Fit k.body).1 (y.1 (x.1 h))

-- The passes keep the addresses of the loops apart.
pub front_end-LoopsApart :
    (f : FunctionNode) (r : FunctionNode × List (Option Symbol))
    → front_end f ≡ ok r
    → LoopsApart f.body
    → LoopsApart r.0.body
front_end-LoopsApart f r made = of_ok (subst (Ends _ _ _) made (front_end-Apart f))
