-- ===== src/Codegen/Shape.antt =====
-- What is in the blocks of an `if` and of a loop while their bodies are emitted (src/CodegenVisitor.cpp).
use d_gen.Prelude.{ℕ, ◌+◌, ◌≤◌, ◌<◌, ◌≡◌, refl, ◌∙◌, inl, [], arith}
use d_gen.Ast.{IfHead, ForHead, Stmts}
use d_gen.Codegen.{
  Label, br, Ir, emit, set_insert_point, three_blocks, set_loop, close, close_for, open_if,
  open_for,
}
use d_gen.Codegen.Blocks.{
  Inside, Frame, ◌then_frame◌, emit-code_other, Frame-emit, Frame-close, Frame-close_for,
  Frame-emit_asg,
}
use d_gen.Codegen.Lay.{lay_body, emit_asg-next}
use d_gen.Codegen.Keeps.{Frame-open_if, Frame-open_for, lay_body-Frame}

-- The new blocks are empty.
pub open_if-fresh :
    (i : IfHead) {h : Label} {n : ℕ} (b : Ir) (l : Label)
    → Inside h n b
    → b.next ≤ l
    → (open_if i b).code l ≡ []
unfolding open_if set_insert_point three_blocks
open_if-fresh i b l p le =
    emit-code_other _ (three_blocks b) l (λ e. omega (arith, e, le, p.lt)) ∙ p.fresh l le

pub open_for-fresh :
    (f : ForHead) {h : Label} {n : ℕ} (b : Ir) (l : Label)
    → Inside h n b
    → b.next < l
    → (open_for f b).code l ≡ []
unfolding open_for set_insert_point three_blocks set_loop
open_for-fresh f b l p lt =
    let q = Frame-emit_asg f.pre_asg p in
    emit-code_other _ _ l (λ e. omega (arith, e, lt))
    ∙ emit-code_other _ _ l (λ e. omega (arith, e, q.inside.lt, emit_asg-next f.pre_asg b, lt))
    ∙ q.inside.fresh l (omega (arith, lt, emit_asg-next f.pre_asg b))

-- A block that only a part of the statement may change, from the side of another part.
pub Inside-open_if :
    (i : IfHead) {h : Label} {n : ℕ} (b : Ir)
    → Inside h n b
    → Inside b.next (b.next + 3) (open_if i b)
unfolding open_if emit three_blocks set_insert_point
Inside-open_if i b p = record {
  own = inl refl;
  low = omega arith;
  lt = omega arith;
  le = omega arith;
  fresh = (Frame-open_if i p).inside.fresh;
}

pub Inside-open_for :
    (f : ForHead) {h : Label} {n : ℕ} (b : Ir)
    → Inside h n b
    → Inside (b.next + 1) (b.next + 3) (open_for f b)
unfolding open_for emit three_blocks set_insert_point set_loop
Inside-open_for f b p =
    let e = emit_asg-next f.pre_asg b in
    record {
      own = inl refl;
      low = omega arith;
      lt = omega (arith, e);
      le = omega (arith, e);
      fresh = (Frame-open_for f p).inside.fresh;
    }

Inside-set_insert_point :
    (k : Label) {h : Label} {n : ℕ} (b : Ir)
    → Inside h n b
    → k < n
    → Inside k n (set_insert_point k b)
unfolding set_insert_point
Inside-set_insert_point k b p lt = record {
  own = inl refl;
  low = lt;
  lt = omega (arith, lt, p.le);
  le = p.le;
  fresh = p.fresh;
}

-- An `if` up to the end of its body, with the insert point in the block for the other case.
abbrev pub turned : Label × Label → IfHead → Stmts → Ir → Ir
turned ls i t b = set_insert_point (b.next + 1) (close (b.next + 2) t (lay_body ls t (open_if i b)))

module _ (ls : Label × Label) (i : IfHead) (t : Stmts) (b : Ir) {h : Label} {n : ℕ}
    (p : Inside h n b) where
  abbrev pub then_Frame : Frame b.next (b.next + 3) (open_if i b) (lay_body ls t (open_if i b))
  then_Frame = lay_body-Frame ls t b.next (b.next + 3) (open_if i b) (Inside-open_if i b p)

  abbrev pub turned_Frame :
      Frame b.next (b.next + 3) (open_if i b) (close (b.next + 2) t (lay_body ls t (open_if i b)))
  turned_Frame = then_Frame then_frame Frame-close (b.next + 2) t then_Frame.inside

  pub turned-Inside : Inside (b.next + 1) (b.next + 3) (turned ls i t b)
  turned-Inside = Inside-set_insert_point (b.next + 1) _ turned_Frame.inside (omega arith)

  pub turned-code : (l : Label) → b.next < l → l < b.next + 3 → (turned ls i t b).code l ≡ []
  unfolding set_insert_point
  turned-code l from to =
      turned_Frame.kept l to (λ e. omega (arith, e, from))
      ∙ open_if-fresh i b l p (omega (arith, from))

  pub if-code : (emit (br (b.next + 2)) (turned ls i t b)).code (b.next + 2) ≡ []
  if-code =
      (Frame-emit (br (b.next + 2)) turned-Inside).kept (b.next + 2) (omega arith)
        (λ e. omega (arith, e))
      ∙ turned-code (b.next + 2) (omega arith) (omega arith)

module _ (ls : Label × Label) (i : IfHead) (t e : Stmts) (b : Ir) {h : Label} {n : ℕ}
    (p : Inside h n b) where
  abbrev pub else_Frame :
      Frame
        (b.next + 1)
        (b.next + 3)
        (turned ls i t b)
        (close (b.next + 2) e (lay_body ls e (turned ls i t b)))
  else_Frame =
      let u =
        lay_body-Frame ls e (b.next + 1) (b.next + 3) (turned ls i t b)
          (turned-Inside ls i t b p) in
      u then_frame Frame-close (b.next + 2) e u.inside

  pub else-code : (close (b.next + 2) e (lay_body ls e (turned ls i t b))).code (b.next + 2) ≡ []
  else-code =
      else_Frame.kept (b.next + 2) (omega arith) (λ e. omega (arith, e))
      ∙ turned-code ls i t b p (b.next + 2) (omega arith) (omega arith)

-- the blocks of a loop up to the end of its body
abbrev pub looped : ForHead → Stmts → Ir → Ir
looped f t b = lay_body (b.next, b.next + 2) t (open_for f b)

module _ (f : ForHead) (t : Stmts) (b : Ir) {h : Label} {n : ℕ} (p : Inside h n b) where
  abbrev pub looped_Frame : Frame (b.next + 1) (b.next + 3) (open_for f b) (looped f t b)
  looped_Frame =
      lay_body-Frame (b.next, b.next + 2) t (b.next + 1) (b.next + 3) (open_for f b)
        (Inside-open_for f b p)

  abbrev pub for_Frame :
      Frame (b.next + 1) (b.next + 3) (open_for f b) (close_for f b.next t (looped f t b))
  for_Frame = looped_Frame then_frame Frame-close_for f b.next t looped_Frame.inside

  pub for-code : (close_for f b.next t (looped f t b)).code (b.next + 2) ≡ []
  for-code =
      for_Frame.kept (b.next + 2) (omega arith) (λ e. omega (arith, e))
      ∙ open_for-fresh f b (b.next + 2) p (omega arith)
