-- ===== src/Codegen/Lay.antt =====
-- code_gen of a statement (src/CodegenVisitor.cpp) with the blocks of the loop around it given: it
-- is what gen_stmt does where the jumps are connected to their loops, and it changes only the
-- current block and new ones.
use d_gen.Prelude.{
  ℕ, ◌+◌, ◌<◌, ◌≡◌, ◌≢◌, refl, ◌∙◌, ap, subst, inl, inr, false, Option, none, some, ◌==◌, ==_iff,
  if◌then◌else◌, arith, Bool-cases,
}
use d_gen.Errors.{ok}
use d_gen.Ast.{
  IfHead, ForHead, AsgNode, Stmt, if_node, if_else_node, for_node, def_node, continue_node,
  break_node, return_node, asg_node, Stmts, end, ◌⨾◌,
}
use d_gen.Ast.Loops.{LoopBelow, LoopsBelow, LoopApart, LoopsApart}
use d_gen.Semantics.Loops.Connect.{ConnectedStmt, Connected}
use d_gen.Codegen.{
  Label, define, assign, give_back, br, ret_void, Ir, emit, three_blocks, set_insert_point,
  set_loop, labels_of, emit_asg, is_last_stmt_br, open_if, close, open_for, close_for, gen_stmt,
  gen_body,
}

-- `ls` are the labels of the condition of the loop and of the block behind it.
unfoldable mutual
  pub lay_stmt : Label × Label → Stmt → Ir → Ir
  lay_stmt ls (def_node d) b = emit (define d) b
  lay_stmt ls (asg_node a) b = emit (assign a) b
  lay_stmt ls (return_node p e) b = emit ret_void (emit (give_back e) b)
  lay_stmt ls (continue_node p loop) b = emit (br ls.0) b
  lay_stmt ls (break_node p loop) b = emit (br ls.1) b
  lay_stmt ls (if_node h body) b = set_insert_point (b.next + 2) (
      emit (br (b.next + 2))
        (set_insert_point (b.next + 1) (close (b.next + 2) body (lay_body ls body (open_if h b)))))
  lay_stmt ls (if_else_node h body els) b = set_insert_point (b.next + 2) (
      close (b.next + 2) els (
        lay_body ls els (
          set_insert_point (b.next + 1)
            (close (b.next + 2) body (lay_body ls body (open_if h b))))))
  lay_stmt ls (for_node h body) b =
      set_insert_point (b.next + 2)
        (close_for h b.next body (lay_body (b.next, b.next + 2) body (open_for h b)))

  pub lay_body : Label × Label → Stmts → Ir → Ir
  lay_body ls end b = b
  lay_body ls (s ⨾ body) b = lay_body ls body (lay_stmt ls s b)

emit_asg-loops : (o : Option AsgNode) (b : Ir) → (emit_asg o b).loops ≡ b.loops
unfolding emit_asg emit
emit_asg-loops none b = refl
emit_asg-loops (some a) b = refl

pub emit_asg-next : (o : Option AsgNode) (b : Ir) → (emit_asg o b).next ≡ b.next
unfolding emit_asg emit
emit_asg-next none b = refl
emit_asg-next (some a) b = refl

close-loops : (k : Label) (t : Stmts) (b : Ir) → (close k t b).loops ≡ b.loops
unfolding close emit
close-loops k t b = elim (Bool-cases (is_last_stmt_br t)) [ inl e ↦ rw e refl | inr e ↦ rw e refl ]

turn-loops :
    (l k : Label) (t : Stmts) (b : Ir) (a : ℕ)
    → (set_insert_point l (close k t b)).loops a ≡ b.loops a
unfolding set_insert_point
turn-loops l k t b a = ap (λ (f : ℕ → Option (Label × Label)). f a) (close-loops k t b)

close_for-loops :
    (h : ForHead) (k : Label) (t : Stmts) (b : Ir) → (close_for h k t b).loops ≡ b.loops
unfolding close_for emit
close_for-loops h k t b = elim (Bool-cases (is_last_stmt_br t)) [
  | inl e ↦ rw e refl
  | inr e ↦ rw e (emit_asg-loops h.inc_asg b)
]

open_if-loops : (h : IfHead) (b : Ir) (a : ℕ) → (open_if h b).loops a ≡ b.loops a
unfolding open_if emit set_insert_point three_blocks
open_if-loops h b a = refl

open_for-loops :
    (h : ForHead) (b : Ir) (a : ℕ)
    → (open_for h b).loops a ≡ (if a == h.addr then some (b.next, b.next + 2) else b.loops a)
unfolding open_for emit set_insert_point three_blocks set_loop
open_for-loops h b a =
    ap (λ (f : ℕ → Option (Label × Label)). if a == h.addr then some (b.next, b.next + 2) else f a)
      (emit_asg-loops h.pre_asg b)

==-ne : (a c : ℕ) → c < a → (a == c) ≡ false
==-ne a c lt = ground arith

-- Loops with other addresses keep their blocks.
mutual
  unfolding lay_body emit set_insert_point

  lay_stmt-loops :
      (ls : Label × Label) (s : Stmt) (b : Ir) (a : ℕ)
      → LoopBelow a s
      → (lay_stmt ls s b).loops a ≡ b.loops a
  lay_stmt-loops ls (def_node d) b a below = refl
  lay_stmt-loops ls (asg_node d) b a below = refl
  lay_stmt-loops ls (return_node p e) b a below = refl
  lay_stmt-loops ls (continue_node p l) b a below = refl
  lay_stmt-loops ls (break_node p l) b a below = refl
  lay_stmt-loops ls (if_node h body) b a below =
      turn-loops (b.next + 1) (b.next + 2) body (lay_body ls body (open_if h b)) a
      ∙ lay_body-loops ls body (open_if h b) a below
      ∙ open_if-loops h b a
  lay_stmt-loops ls (if_else_node h body els) b a (below, below') =
      let b₁ =
        set_insert_point (b.next + 1) (close (b.next + 2) body (lay_body ls body (open_if h b))) in
      turn-loops (b.next + 2) (b.next + 2) els (lay_body ls els b₁) a
      ∙ lay_body-loops ls els b₁ a below'
      ∙ turn-loops (b.next + 1) (b.next + 2) body (lay_body ls body (open_if h b)) a
      ∙ lay_body-loops ls body (open_if h b) a below
      ∙ open_if-loops h b a
  lay_stmt-loops ls (for_node h body) b a (lt, below) =
      rw
        (
          close_for-loops,
          lay_body-loops (b.next, b.next + 2) body (open_for h b) a below,
          open_for-loops,
          ==-ne a h.addr (omega arith),
        )
        refl

  lay_body-loops :
      (ls : Label × Label) (body : Stmts) (b : Ir) (a : ℕ)
      → LoopsBelow a body
      → (lay_body ls body b).loops a ≡ b.loops a
  lay_body-loops ls end b a below = refl
  lay_body-loops ls (s ⨾ body) b a (below, below') =
      lay_body-loops ls body (lay_stmt ls s b) a below' ∙ lay_stmt-loops ls s b a below

-- The field `loop` of the jumps is null, or it is the ForNode that `ls` belongs to.
abbrev Around : Option ℕ → Label × Label → Ir → Type 0
Around none ls b = Unit
Around (some a) ls b = b.loops a ≡ some ls

Around-of_loops :
    (loop : Option ℕ) (ls : Label × Label) (b b' : Ir)
    → ((a : ℕ) → loop ≡ some a → b'.loops a ≡ b.loops a)
    → Around loop ls b
    → Around loop ls b'
Around-of_loops none ls b b' same around = tt
Around-of_loops (some a) ls b b' same around = same a refl ∙ around

labels_of-Around :
    (loop l : Option ℕ) (ls : Label × Label) (b : Ir)
    → l ≡ loop
    → loop ≢ none
    → Around loop ls b
    → labels_of l b ≡ ok ls
unfolding labels_of
labels_of-Around none l ls b e ne around = absurd (ne refl)
labels_of-Around (some a) l ls b e ne around = rw (e, around, labels_of) refl

some_injective : {a c : ℕ} → some a ≡ some c → a ≡ c
some_injective e = cc

mutual
  unfolding gen_body lay_body

  gen_stmt-lay :
      (loop : Option ℕ) (ls : Label × Label) (s : Stmt) (b : Ir)
      → ConnectedStmt loop s
      → LoopApart s
      → ((a : ℕ) → loop ≡ some a → LoopBelow a s)
      → Around loop ls b
      → gen_stmt s b ≡ ok (lay_stmt ls s b)
  gen_stmt-lay loop ls (def_node d) b c apart below around = refl
  gen_stmt-lay loop ls (asg_node d) b c apart below around = refl
  gen_stmt-lay loop ls (return_node p e) b c apart below around = refl
  gen_stmt-lay loop ls (continue_node p l) b c apart below around =
      rw (labels_of-Around loop l ls b c.0 c.1 around) refl
  gen_stmt-lay loop ls (break_node p l) b c apart below around =
      rw (labels_of-Around loop l ls b c.0 c.1 around) refl
  gen_stmt-lay loop ls (if_node h body) b c apart below around =
      rw
        (gen_body-lay loop ls body (open_if h b) c apart below
          (Around-of_loops loop ls b (open_if h b) (λ a _. open_if-loops h b a) around))
        refl
  gen_stmt-lay loop ls (if_else_node h body els) b c apart below around =
      rw
        (gen_body-lay loop ls body (open_if h b) c.0 apart.0 (λ a e. (below a e).0)
          (Around-of_loops loop ls b (open_if h b) (λ a _. open_if-loops h b a) around))
        (rw
          (gen_body-lay loop ls els
            (set_insert_point (b.next + 1)
              (close (b.next + 2) body (lay_body ls body (open_if h b))))
            c.1 apart.1 (λ a e. (below a e).1)
            (Around-of_loops loop ls b _
              (λ a e.
                turn-loops (b.next + 1) (b.next + 2) body (lay_body ls body (open_if h b)) a
                ∙ lay_body-loops ls body (open_if h b) a (below a e).0
                ∙ open_if-loops h b a)
              around))
          refl)
  gen_stmt-lay loop ls (for_node h body) b c apart below around =
      rw
        (gen_body-lay (some h.addr) (b.next, b.next + 2) body (open_for h b) c apart.1
          (λ a e. subst (λ (x : ℕ). LoopsBelow x body) (some_injective e) apart.0)
          (rw (open_for-loops, (==_iff h.addr h.addr).1 refl) refl))
        refl

  pub gen_body-lay :
      (loop : Option ℕ) (ls : Label × Label) (body : Stmts) (b : Ir)
      → Connected loop body
      → LoopsApart body
      → ((a : ℕ) → loop ≡ some a → LoopsBelow a body)
      → Around loop ls b
      → gen_body body b ≡ ok (lay_body ls body b)
  gen_body-lay loop ls end b c apart below around = refl
  gen_body-lay loop ls (s ⨾ body) b c apart below around =
      rw (gen_stmt-lay loop ls s b c.0 apart.0 (λ a e. (below a e).0) around) (
        gen_body-lay loop ls body (lay_stmt ls s b) c.1 apart.1 (λ a e. (below a e).1)
          (Around-of_loops loop ls b (lay_stmt ls s b)
            (λ a e. lay_stmt-loops ls s b a (below a e).0) around))
