-- ===== src/Codegen/Moves.antt =====
-- How the blocks that are emitted for the parts of a statement run (src/CodegenVisitor.cpp).
use mathlib.Core.List.{append_assoc}
use d_gen.Prelude.{
  ℕ, suc, ◌≡◌, ◌≢◌, refl, sym, ◌∙◌, ap, subst, Bool, true, false, ◌&&◌, Option, none, some, inl,
  inr, List, [], ◌∷◌, ◌++◌, length, length-append, get_elem?, get_elem?-append_length, Bool-cases,
  arith,
}
use d_gen.Ast.{
  Expr, PrecondNode, AsgNode, DefNode, ForHead, Stmt, if_node, if_else_node, for_node, def_node,
  continue_node, break_node, return_node, asg_node, Stmts, end, ◌⨾◌,
}
use d_gen.Semantics.Reach.{
  Machine, Signal, normal, step, ExecStmt, continues, breaks, returns, then_branch, else_branch,
  Exec, next, stop,
}
use d_gen.Codegen.{
  Label, Code, Instr, define, assign, give_back, br, cond_br, ret_void, Ir, emit, set_insert_point,
  emit_asg, is_br, is_last_stmt_br, close, close_for,
}
use d_gen.Codegen.Blocks.{Prefix, Prefix-trans, Frame, emit-code_here, emit-longer}
use d_gen.Codegen.Run.{Config, at, halted, Step, Steps, stay, go, ◌then_steps◌, target}
use d_gen.Codegen.Run

-- The final blocks `c` start with those that are there.
abbrev pub Ext : Ir → Code → Type 0
Ext b c = (l : Label) → Prefix (b.code l) (c l)

pub Ext-of_Frame : {h : Label} {n : ℕ} {b b' : Ir} {c : Code} → Frame h n b b' → Ext b' c → Ext b c
Ext-of_Frame f ext l = Prefix-trans _ (f.longer l) (ext l)

-- The end of the current block.
abbrev pub spot : {S : Type 0} → Ir → S → Config S
spot b s = at b.here (length (b.code b.here)) s

pub emit-found :
    (i : Instr) (b : Ir) (c : Code)
    → Ext (emit i b) c
    → get_elem? (c b.here) (length (b.code b.here)) ≡ some i
emit-found i b c ext =
    let (rest, e) = ext b.here in
    subst (λ (l : List Instr). get_elem? l (length (b.code b.here)) ≡ some i) (sym here ∙ e)
      (get_elem?-append_length (b.code b.here) rest i)
  where
    here : (emit i b).code b.here ++ (ext b.here).0 ≡ b.code b.here ++ i ∷ (ext b.here).0
    here = rw (emit-code_here, append_assoc) refl

spot-emit :
    {S : Type 0} (i : Instr) (b : Ir) (s : S)
    → spot (emit i b) s ≡ at b.here (suc (length (b.code b.here))) s
unfolding emit
spot-emit i b s =
    ap (λ n. at b.here n s)
      (ap length (emit-code_here i b) ∙ length-append (b.code b.here) (i ∷ []) ∙ omega arith)

pub spot-set_insert_point :
    {S : Type 0} (k : Label) (b : Ir) (s : S)
    → b.code k ≡ []
    → at k 0 s ≡ spot (set_insert_point k b) s
unfolding set_insert_point
spot-set_insert_point k b s e = ap (λ (l : List Instr). at k (length l) s) (sym e)

and_parts : (x y : Bool) → (x && y) ≡ true → (x ≡ true) × (y ≡ true)
and_parts true true e = (refl, refl)
and_parts true false e = cc
and_parts false y e = cc

mutual
  unfolding is_last_stmt_br

  is_br_ne_normal :
      {S : Type 0} {m : Machine S} {g : Signal} (t : Stmt) (s s' : S)
      → is_br t ≡ true
      → ExecStmt m t s g s'
      → g ≢ normal
  is_br_ne_normal (if_else_node h b e) s s' j (then_branch p d) =
      is_last_stmt_br_ne_normal b _ s' (and_parts (is_last_stmt_br b) (is_last_stmt_br e) j).0 d
  is_br_ne_normal (if_else_node h b e) s s' j (else_branch p d) =
      is_last_stmt_br_ne_normal e _ s' (and_parts (is_last_stmt_br b) (is_last_stmt_br e) j).1 d
  is_br_ne_normal (if_node h b) s s' j d = cc
  is_br_ne_normal (for_node h b) s s' j d = cc
  is_br_ne_normal (def_node h) s s' j d = cc
  is_br_ne_normal (asg_node h) s s' j d = cc
  is_br_ne_normal (continue_node p l) s s' j continues = cc
  is_br_ne_normal (break_node p l) s s' j breaks = cc
  is_br_ne_normal (return_node p l) s s' j returns = cc

  -- A body that ends in a jump on every path does not reach its end.
  pub is_last_stmt_br_ne_normal :
      {S : Type 0} {m : Machine S} {g : Signal} (t : Stmts) (s s' : S)
      → is_last_stmt_br t ≡ true
      → Exec m t s g s'
      → g ≢ normal
  is_last_stmt_br_ne_normal end s s' j d = cc
  is_last_stmt_br_ne_normal (t ⨾ end) s s' j (next d e) = absurd (is_br_ne_normal t s _ j d refl)
  is_last_stmt_br_ne_normal (t ⨾ (u ⨾ b)) s s' j (next d e) =
      is_last_stmt_br_ne_normal (u ⨾ b) _ s' j e
  is_last_stmt_br_ne_normal (t ⨾ end) s s' j (stop d ne) = ne
  is_last_stmt_br_ne_normal (t ⨾ (u ⨾ b)) s s' j (stop d ne) = ne

module _ {S : Type 0} (m : Machine S) (c : Code) where
  -- An instruction that goes on to the next one.
  plain :
      (i : Instr) (b : Ir) (s s' : S)
      → ((l : Label) (n : ℕ) → get_elem? (c l) n ≡ some i → Step m c (at l n s) (at l (suc n) s'))
      → Ext (emit i b) c
      → Steps m c (spot b s) (spot (emit i b) s')
  plain i b s s' move ext =
      subst (λ (x : Config S). Steps m c (spot b s) x) (sym (spot-emit i b s'))
        (go (move _ _ (emit-found i b c ext)) stay)

  pub emit-define-Steps :
      (d : DefNode) (b : Ir) (s : S)
      → Ext (emit (define d) b) c
      → Steps m c (spot b s) (spot (emit (define d) b) (m.define d s))
  emit-define-Steps d b s = plain (define d) b s _ λ l n e. Run.defines e

  pub emit-assign-Steps :
      (a : AsgNode) (b : Ir) (s : S)
      → Ext (emit (assign a) b) c
      → Steps m c (spot b s) (spot (emit (assign a) b) (m.assign a s))
  emit-assign-Steps a b s = plain (assign a) b s _ λ l n e. Run.assigns e

  pub emit-give_back-Steps :
      (e : Expr) (b : Ir) (s : S)
      → Ext (emit (give_back e) b) c
      → Steps m c (spot b s) (spot (emit (give_back e) b) (m.give_back e s))
  emit-give_back-Steps e b s = plain (give_back e) b s _ λ l n q. Run.gives_back q

  pub emit-ret_void-Steps :
      (b : Ir) (s : S) → Ext (emit ret_void b) c → Steps m c (spot b s) (halted s)
  emit-ret_void-Steps b s ext = go (Run.returns (emit-found ret_void b c ext)) stay

  pub emit-br-Steps :
      (k : Label) (b : Ir) (s : S) → Ext (emit (br k) b) c → Steps m c (spot b s) (at k 0 s)
  emit-br-Steps k b s ext = go (Run.branches (emit-found (br k) b c ext)) stay

  pub emit-cond_br-Steps :
      (p : Option PrecondNode) (e : Expr) (t f : Label) (b : Ir) (s : S)
      → Ext (emit (cond_br p e t f) b) c
      → ((m.test p e s).0 ≡ true → Steps m c (spot b s) (at t 0 (m.test p e s).1))
        × ((m.test p e s).0 ≡ false → Steps m c (spot b s) (at f 0 (m.test p e s).1))
  emit-cond_br-Steps p e t f b s ext =
      let found = emit-found (cond_br p e t f) b c ext in
      (λ h. go (Run.takes found h) stay, λ h. go (Run.passes found h) stay)

  -- the assignment before a loop or after a round, if there is one
  pub emit_asg-Steps :
      (o : Option AsgNode) (b : Ir) (s : S)
      → Ext (emit_asg o b) c
      → Steps m c (spot b s) (spot (emit_asg o b) (elim o [ none ↦ s | some a ↦ m.assign a s ]))
  unfolding emit_asg
  emit_asg-Steps none b s ext = stay
  emit_asg-Steps (some a) b s ext = emit-assign-Steps a b s ext

  -- The end of a body is reached only where the branch at the end is emitted.
  pub close-Steps :
      (k : Label) (body : Stmts) (b : Ir) (s s' : S)
      → Ext (close k body b) c
      → Exec m body s normal s'
      → Steps m c (spot b s') (at k 0 s')
  unfolding close
  close-Steps k body b s s' ext d = elim (Bool-cases (is_last_stmt_br body)) [
    | inl e ↦ absurd (is_last_stmt_br_ne_normal body s s' e d refl)
    | inr e ↦ emit-br-Steps k b s' (rw e at ext)
  ]

  pub close_for-Steps :
      (h : ForHead) (k : Label) (body : Stmts) (b : Ir) (s s' : S)
      → Ext (close_for h k body b) c
      → Exec m body s normal s'
      → Steps m c (spot b s') (at k 0 (step m h s'))
  unfolding close_for
  close_for-Steps h k body b s s' ext d = elim (Bool-cases (is_last_stmt_br body)) [
    | inl e ↦ absurd (is_last_stmt_br_ne_normal body s s' e d refl)
    | inr e ↦
        let ext' = rw e at ext in
        emit_asg-Steps h.inc_asg b s'
          (λ l. Prefix-trans _ (emit-longer (br k) (emit_asg h.inc_asg b) l) (ext' l))
        then_steps emit-br-Steps k (emit_asg h.inc_asg b) (step m h s') ext'
  ]
