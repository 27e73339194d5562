-- ===== src/Codegen/Tidy.antt =====
-- Where the terminators stand in the blocks that are emitted (src/CodegenVisitor.cpp).
pub mod Keep
use mathlib.Core.List.{append_assoc}
use d_gen.Prelude.{
  ℕ, suc, ◌+◌, ◌≤◌, ◌<◌, ◌≡◌, ◌≢◌, refl, sym, ◌∙◌, ap, subst, Bool, true, false, not, ◌&&◌, ◌||◌,
  Option, none, some, ◌⊎◌, inl, inr, List, [], ◌∷◌, ◌++◌, ◌==◌, ==_iff, if◌then◌else◌, arith,
  Bool-cases,
}
use d_gen.Ast.{
  AsgNode, IfHead, ForHead, Stmt, if_node, if_else_node, for_node, def_node, continue_node,
  break_node, return_node, asg_node, Stmts, end, ◌⨾◌, FunctionNode,
}
use d_gen.Semantics.Loops.{is_jump}
use d_gen.Semantics.Loops.Trim.{TrimmedStmt, Trimmed}
use d_gen.Codegen.{
  new_ir, gen_function, Label, Instr, define, assign, give_back, br, cond_br, ret_void, Ir, emit,
  three_blocks, set_insert_point, set_loop, emit_asg, is_br, is_last_stmt_br, open_if, close,
  open_for, close_for,
}
use d_gen.Errors.{ok}
use d_gen.Ast.Loops.{LoopsApart}
use d_gen.Semantics.Loops.Connect.{Connected}
use d_gen.Codegen.Correct.{new_ir-Inside, gen_function-lay}
use d_gen.Codegen.Lay.{lay_stmt, lay_body, emit_asg-next}
use d_gen.Codegen.Keeps.{lay_stmt-Frame, lay_body-Frame, Frame-open_if, Frame-open_for}
use d_gen.Codegen.Shape.{
  open_if-fresh, open_for-fresh, Inside-open_if, Inside-open_for, turned, turned_Frame,
  turned-Inside, turned-code, then_Frame, if-code, else_Frame, else-code, looped, looped_Frame,
  for-code,
}
use d_gen.Codegen.Blocks.{Inside, Frame, Frame-emit_asg, emit-code_here, emit-code_other}

abbrev pub is_terminator : Instr → Bool
is_terminator (br k) = true
is_terminator (cond_br p e t f) = true
is_terminator ret_void = true
is_terminator _ = false

-- No terminator is there yet.
abbrev pub is_open : List Instr → Bool
is_open [] = true
is_open (i ∷ is) = not (is_terminator i) && is_open is

-- Nothing stands behind a terminator.
abbrev pub is_tidy : List Instr → Bool
is_tidy [] = true
is_tidy (i ∷ []) = true
is_tidy (i ∷ (j ∷ is)) = not (is_terminator i) && is_tidy (j ∷ is)

abbrev pub Tidy : Ir → Type 0
Tidy b = (l : Label) → is_tidy (b.code l) ≡ true

abbrev pub Open : Ir → Type 0
Open b = is_open (b.code b.here) ≡ true

is_tidy-snoc : (is : List Instr) (i : Instr) → is_open is ≡ true → is_tidy (is ++ i ∷ []) ≡ true
is_tidy-snoc [] i o = refl
is_tidy-snoc (j ∷ []) i o = ground (arith, is_tidy-snoc [] i)
is_tidy-snoc (j ∷ (k ∷ is)) i o = ground (arith, is_tidy-snoc (k ∷ is) i)

is_open-snoc :
    (is : List Instr) (i : Instr)
    → is_open is ≡ true
    → is_terminator i ≡ false
    → is_open (is ++ i ∷ []) ≡ true
is_open-snoc [] i o t = ground arith
is_open-snoc (j ∷ is) i o t = ground (arith, is_open-snoc is i)

pub emit-Tidy : (i : Instr) (b : Ir) → Open b → Tidy b → Tidy (emit i b)
unfolding emit
emit-Tidy i b o t l = elim (Bool-cases (l == b.here)) [
  | inl e ↦
      rw ((==_iff l b.here).0 e)
        (rw ((==_iff b.here b.here).1 refl) (is_tidy-snoc (b.code b.here) i o))
  | inr e ↦ rw e (t l)
]

pub emit-Open : (i : Instr) (b : Ir) → is_terminator i ≡ false → Open b → Open (emit i b)
unfolding emit
emit-Open i b t o =
    subst (λ (is : List Instr). is_open is ≡ true) (sym (emit-code_here i b))
      (is_open-snoc (b.code b.here) i o t)

pub set_insert_point-Open : (k : Label) (b : Ir) → b.code k ≡ [] → Open (set_insert_point k b)
unfolding set_insert_point
set_insert_point-Open k b e = rw e refl

-- The insert point stands in an open block if the last statement is no jump.
abbrev pub OpenUnless : Bool → Ir → Type 0
OpenUnless jump b = jump ≡ false → Open b

emit_asg-Tidy :
    (o : Option AsgNode) (b : Ir) → Open b → Tidy b → Open (emit_asg o b) × Tidy (emit_asg o b)
unfolding emit_asg
emit_asg-Tidy none b o t = (o, t)
emit_asg-Tidy (some a) b o t = (emit-Open (assign a) b refl o, emit-Tidy (assign a) b o t)

pub close-Tidy :
    (k : Label) (t : Stmts) (b : Ir)
    → OpenUnless (is_last_stmt_br t) b
    → Tidy b
    → Tidy (close k t b)
unfolding close
close-Tidy k t b o h = elim (Bool-cases (is_last_stmt_br t)) [
  | inl e ↦ rw e h
  | inr e ↦ rw e (emit-Tidy (br k) b (o e) h)
]

pub close_for-Tidy :
    (f : ForHead) (k : Label) (t : Stmts) (b : Ir)
    → OpenUnless (is_last_stmt_br t) b
    → Tidy b
    → Tidy (close_for f k t b)
unfolding close_for
close_for-Tidy f k t b o h = elim (Bool-cases (is_last_stmt_br t)) [
  | inl e ↦ rw e h
  | inr e ↦
      let (o', h') = emit_asg-Tidy f.inc_asg b (o e) h in
      rw e (emit-Tidy (br k) (emit_asg f.inc_asg b) o' h')
]

Open-of_empty : (b : Ir) → b.code b.here ≡ [] → Open b
Open-of_empty b e = rw e refl

pub open_if-Tidy :
    (i : IfHead) (b : Ir) {h : Label} {n : ℕ}
    → Inside h n b
    → Open b
    → Tidy b
    → Open (open_if i b) × Tidy (open_if i b)
unfolding open_if three_blocks set_insert_point
open_if-Tidy i b p o t = (
  Open-of_empty (open_if i b) (open_if-fresh i b b.next p (omega arith)),
  emit-Tidy (cond_br i.precond i.cond b.next (b.next + 1)) (three_blocks b) o t,
)

pub open_for-Tidy :
    (f : ForHead) (b : Ir) {h : Label} {n : ℕ}
    → Inside h n b
    → Open b
    → Tidy b
    → Open (open_for f b) × Tidy (open_for f b)
unfolding open_for three_blocks set_insert_point set_loop
open_for-Tidy f b p o t =
    let q = Frame-emit_asg f.pre_asg p in
    let (o₀, t₀) = emit_asg-Tidy f.pre_asg b o t in
    let b₀ = set_loop f.addr b.next (b.next + 2) (three_blocks (emit_asg f.pre_asg b)) in
    let b₁ = set_insert_point b.next (emit (br b.next) b₀) in
    let empty : b₁.code b.next ≡ [] =
      emit-code_other (br b.next) b₀ b.next
        (λ e. omega (arith, e, q.inside.lt, emit_asg-next f.pre_asg b))
      ∙ q.inside.fresh b.next (omega (arith, emit_asg-next f.pre_asg b)) in
    (
      Open-of_empty (open_for f b) (open_for-fresh f b (b.next + 1) p (omega arith)),
      emit-Tidy (cond_br f.precond f.cond (b.next + 1) (b.next + 2)) b₁ (Open-of_empty b₁ empty)
          (emit-Tidy (br b.next) b₀ o₀ t₀),
    )

pub not_jump-of_br : (t : Stmt) → is_br t ≡ false → is_jump t ≡ false
unfolding is_br
not_jump-of_br (continue_node p l) e = e
not_jump-of_br (break_node p l) e = e
not_jump-of_br (return_node p l) e = e
not_jump-of_br (if_node h b) e = refl
not_jump-of_br (if_else_node h b d) e = refl
not_jump-of_br (for_node h b) e = refl
not_jump-of_br (def_node d) e = refl
not_jump-of_br (asg_node a) e = refl

pub cons_ne_end : (s : Stmt) (b : Stmts) → (s ⨾ b) ≢ end
cons_ne_end s b e = cc

pub turned-Tidy :
    (ls : Label × Label) (i : IfHead) (t : Stmts) (b : Ir) {h : Label} {n : ℕ}
    → Inside h n b
    → Tidy (lay_body ls t (open_if i b))
      × OpenUnless (is_last_stmt_br t) (lay_body ls t (open_if i b))
    → Open (turned ls i t b) × Tidy (turned ls i t b)
unfolding set_insert_point
turned-Tidy ls i t b p (tidy, o) = (
  Open-of_empty (turned ls i t b) (turned-code ls i t b p (b.next + 1) (omega arith) (omega arith)),
  close-Tidy (b.next + 2) t (lay_body ls t (open_if i b)) o tidy,
)
