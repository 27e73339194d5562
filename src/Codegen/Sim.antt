-- ===== src/Codegen/Sim.antt =====
-- The blocks that are emitted for a statement run as the statement does (src/CodegenVisitor.cpp).
use d_gen.Prelude.{ℕ, ◌+◌, ◌≡◌, subst, true, false, length, arith}
use d_gen.Ast.{
  IfHead, ForHead, Stmt, if_node, if_else_node, for_node, def_node, continue_node, break_node,
  return_node, asg_node, Stmts, end, ◌⨾◌,
}
use d_gen.Semantics.Reach.{
  Machine, Signal, normal, step, ExecStmt, defines, assigns, continues, breaks, returns, if_true,
  if_false, then_branch, else_branch, loops, Exec, falls, next, stop,
}
use d_gen.Codegen.{
  Label, Code, give_back, br, ret_void, Ir, emit, set_insert_point, three_blocks, close, close_for,
  open_if, open_for,
}
use d_gen.Codegen.Blocks.{
  Inside, Prefix-trans, emit-longer, Frame-emit, Frame-close, Frame-close_for,
}
use d_gen.Codegen.Lay.{lay_stmt, lay_body}
use d_gen.Codegen.Keeps.{lay_stmt-Frame, lay_body-Frame}
use d_gen.Codegen.Run.{at, Steps, stay, ◌then_steps◌, target}
use d_gen.Codegen.Moves.{
  Ext, Ext-of_Frame, spot, emit-define-Steps, emit-assign-Steps, emit-give_back-Steps,
  emit-ret_void-Steps, emit-br-Steps, emit-cond_br-Steps, close_for-Steps,
}
use d_gen.Codegen.Shape.{
  open_if-fresh, open_for-fresh, Inside-open_if, Inside-open_for, turned, then_Frame, turned_Frame,
  turned-Inside, turned-code, if-code, else_Frame, else-code, looped, looped_Frame, for_Frame,
  for-code,
}
use d_gen.Codegen.Goes.{
  Goes, Goes-end, Goes-start, Goes-branch, Goes-stop, Goes-round, open_for-Steps, Rounds-Steps,
}

module _ {S : Type 0} (m : Machine S) (c : Code) where
  module _ (ls : Label × Label) (i : IfHead) (t : Stmts) (b : Ir) {h : Label} {n : ℕ}
      (p : Inside h n b) where
    test-Steps :
        (s : S)
        → Ext (turned ls i t b) c
        → ((m.test i.precond i.cond s).0 ≡ true
            → Steps m c (spot b s) (at b.next 0 (m.test i.precond i.cond s).1))
          × ((m.test i.precond i.cond s).0 ≡ false
              → Steps m c (spot b s) (at (b.next + 1) 0 (m.test i.precond i.cond s).1))
    unfolding set_insert_point open_if three_blocks
    test-Steps s ext =
        emit-cond_br-Steps m c i.precond i.cond b.next (b.next + 1) (three_blocks b) s
          (Ext-of_Frame (turned_Frame ls i t b p) ext)

    then-Steps :
        (s s' : S) (g : Signal)
        → Ext (turned ls i t b) c
        → Exec m t s g s'
        → (Ext (lay_body ls t (open_if i b)) c
            → Goes m c
                (spot (open_if i b) s)
                g
                s'
                ls
                (lay_body ls t (open_if i b)).here
                (length ((lay_body ls t (open_if i b)).code (lay_body ls t (open_if i b)).here)))
        → Goes m c (at b.next 0 s) g s' ls (b.next + 2) 0
    unfolding set_insert_point open_if
    then-Steps s s' g ext d run =
        Goes-branch m c ls t (b.next + 2) (open_if i b) (lay_body ls t (open_if i b)) g s s'
          (open_if-fresh i b b.next p (omega arith)) ext d
          (run (Ext-of_Frame (Frame-close (b.next + 2) t (then_Frame ls i t b p).inside) ext))

  module _ (f : ForHead) (t : Stmts) (b : Ir) {h : Label} {n : ℕ} (p : Inside h n b) where
    round-Steps :
        Ext (close_for f b.next t (looped f t b)) c
        → (s s' : S) (g : Signal) → Exec m t s g s'
        → (Ext (looped f t b) c
            → Goes m c
                (spot (open_for f b) s)
                g
                s'
                (b.next, b.next + 2)
                (looped f t b).here
                (length ((looped f t b).code (looped f t b).here)))
        → Steps m c
            (at (b.next + 1) 0 s)
            (target b.next (b.next + 2) b.next 0 g (elim g [ normal ↦ step m f s' | _ ↦ s' ]))
    unfolding open_for set_insert_point
    round-Steps ext s s' g d run =
        let go_on =
          Goes-start m c g s s' (b.next, b.next + 2) _ _ (open_for f b)
            (open_for-fresh f b (b.next + 1) p (omega arith))
            (run (Ext-of_Frame (Frame-close_for f b.next t (looped_Frame f t b p).inside) ext)) in
        Goes-round m c _ g s' b.next (b.next + 2) _ _ f go_on λ q.
          close_for-Steps m c f b.next t (looped f t b) s s' ext
            (subst (λ (k : Signal). Exec m t s k s') q d)

  mutual
    unfolding lay_body set_insert_point

    lay_stmt-Steps :
        (ls : Label × Label) (t : Stmt) (b : Ir) {h : Label} {n : ℕ}
        → Inside h n b
        → Ext (lay_stmt ls t b) c
        → (s s' : S) (g : Signal) → ExecStmt m t s g s'
        → Goes m c
            (spot b s)
            g
            s'
            ls
            (lay_stmt ls t b).here
            (length ((lay_stmt ls t b).code (lay_stmt ls t b).here))
    lay_stmt-Steps ls (def_node d) b p ext s _ _ defines = emit-define-Steps m c d b s ext
    lay_stmt-Steps ls (asg_node a) b p ext s _ _ assigns = emit-assign-Steps m c a b s ext
    lay_stmt-Steps ls (continue_node q l) b p ext s _ _ continues = emit-br-Steps m c ls.0 b s ext
    lay_stmt-Steps ls (break_node q l) b p ext s _ _ breaks = emit-br-Steps m c ls.1 b s ext
    lay_stmt-Steps ls (return_node q e) b p ext s _ _ returns =
        emit-give_back-Steps m c e b s
          (λ l. Prefix-trans _ (emit-longer ret_void (emit (give_back e) b) l) (ext l))
        then_steps emit-ret_void-Steps m c (emit (give_back e) b) (m.give_back e s) ext
    lay_stmt-Steps ls (if_node i t) b p ext s s' g (if_true h d) =
        let ext' = Ext-of_Frame (Frame-emit (br (b.next + 2)) (turned-Inside ls i t b p)) ext in
        (test-Steps ls i t b p s ext').0 h
        then_steps Goes-end m c _ g s' ls (b.next + 2) (emit (br (b.next + 2)) (turned ls i t b))
            (if-code ls i t b p)
            (then-Steps ls i t b p _ s' g ext' d
              λ x. lay_body-Steps ls t (open_if i b) (Inside-open_if i b p) x _ s' g d)
    lay_stmt-Steps ls (if_node i t) b p ext s _ _ (if_false h) =
        let ext' = Ext-of_Frame (Frame-emit (br (b.next + 2)) (turned-Inside ls i t b p)) ext in
        let s' = (m.test i.precond i.cond s).1 in
        (test-Steps ls i t b p s ext').1 h
        then_steps Goes-end m c _ normal s' ls (b.next + 2)
            (emit (br (b.next + 2)) (turned ls i t b)) (if-code ls i t b p)
            (Goes-start m c normal s' s' ls (b.next + 2) 0 (turned ls i t b)
              (turned-code ls i t b p (b.next + 1) (omega arith) (omega arith))
              (emit-br-Steps m c (b.next + 2) (turned ls i t b) s' ext))
    lay_stmt-Steps ls (if_else_node i t e) b p ext s s' g (then_branch h d) =
        let ext' = Ext-of_Frame (else_Frame ls i t e b p) ext in
        (test-Steps ls i t b p s ext').0 h
        then_steps Goes-end m c _ g s' ls (b.next + 2)
            (close (b.next + 2) e (lay_body ls e (turned ls i t b))) (else-code ls i t e b p)
            (then-Steps ls i t b p _ s' g ext' d
              λ x. lay_body-Steps ls t (open_if i b) (Inside-open_if i b p) x _ s' g d)
    lay_stmt-Steps ls (if_else_node i t e) b p ext s s' g (else_branch h d) =
        let u = turned-Inside ls i t b p in
        let v = lay_body-Frame ls e _ _ (turned ls i t b) u in
        let s₁ = (m.test i.precond i.cond s).1 in
        (test-Steps ls i t b p s (Ext-of_Frame (else_Frame ls i t e b p) ext)).1 h
        then_steps Goes-end m c _ g s' ls (b.next + 2)
            (close (b.next + 2) e (lay_body ls e (turned ls i t b))) (else-code ls i t e b p)
            (Goes-branch m c ls e (b.next + 2) (turned ls i t b) (lay_body ls e (turned ls i t b)) g
              s₁ s' (turned-code ls i t b p (b.next + 1) (omega arith) (omega arith)) ext d
              (lay_body-Steps ls e (turned ls i t b) u
                (Ext-of_Frame (Frame-close (b.next + 2) e v.inside) ext) s₁ s' g d))
    lay_stmt-Steps ls (for_node f t) b p ext s s' g (loops r) =
        let w = for_Frame f t b p in
        let (enter, test) = open_for-Steps m c f b p s (Ext-of_Frame w ext) in
        enter
        then_steps Goes-end m c _ g s' ls (b.next + 2) (close_for f b.next t (looped f t b))
            (for-code f t b p)
            (Rounds-Steps m c b.next (b.next + 1) (b.next + 2) ls f t test
              (λ r r' k d. round-Steps f t b p ext r r' k d λ x.
                lay_body-Steps (b.next, b.next + 2) t (open_for f b) (Inside-open_for f b p) x r r'
                  k d)
              _ s' g r)

    pub lay_body-Steps :
        (ls : Label × Label) (t : Stmts) (b : Ir) {h : Label} {n : ℕ}
        → Inside h n b
        → Ext (lay_body ls t b) c
        → (s s' : S) (g : Signal) → Exec m t s g s'
        → Goes m c
            (spot b s)
            g
            s'
            ls
            (lay_body ls t b).here
            (length ((lay_body ls t b).code (lay_body ls t b).here))
    lay_body-Steps ls end b p ext s _ _ falls = stay
    lay_body-Steps ls (t ⨾ r) b p ext s s' g (next d e) =
        let q = lay_stmt-Frame ls t _ _ b p in
        let rest = lay_body-Frame ls r _ _ (lay_stmt ls t b) q.inside in
        lay_stmt-Steps ls t b p (Ext-of_Frame rest ext) s _ normal d
        then_steps lay_body-Steps ls r (lay_stmt ls t b) q.inside ext _ s' g e
    lay_body-Steps ls (t ⨾ r) b p ext s s' g (stop d ne) =
        let q = lay_stmt-Frame ls t _ _ b p in
        let rest = lay_body-Frame ls r _ _ (lay_stmt ls t b) q.inside in
        Goes-stop m c _ g s' ls _ _ _ _ ne
          (lay_stmt-Steps ls t b p (Ext-of_Frame rest ext) s s' g d)
