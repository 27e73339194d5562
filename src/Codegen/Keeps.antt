-- ===== src/Codegen/Keeps.antt =====
-- code_gen of a statement changes only the current block and new blocks (src/CodegenVisitor.cpp).
use d_gen.Prelude.{ℕ, ◌+◌, ◌≤◌, ◌<◌, ◌≡◌, refl, ap, arith}
use d_gen.Ast.{
  IfHead, ForHead, Stmt, if_node, if_else_node, for_node, def_node, continue_node, break_node,
  return_node, asg_node, Stmts, end, ◌⨾◌,
}
use d_gen.Codegen.{
  Label, define, assign, give_back, br, cond_br, ret_void, Ir, emit, three_blocks, set_insert_point,
  set_loop, open_if, close, open_for,
}
use d_gen.Codegen.Blocks.{
  Inside, Frame, Frame-stay, ◌then_frame◌, Frame-emit, Prefix-refl, Frame-set_insert_point,
  Frame-emit_asg, Frame-close, Frame-close_for,
}
use d_gen.Codegen.Lay.{lay_stmt, lay_body, emit_asg-next}

module _ {h : Label} {n : ℕ} where
  Frame-three_blocks : {b : Ir} → Inside h n b → Frame h n b (three_blocks b)
  unfolding three_blocks
  Frame-three_blocks {b} p = record {
    inside = record {
      own = p.own;
      low = p.low;
      lt = omega (arith, p.lt);
      le = omega (arith, p.le);
      fresh = λ l le. p.fresh l (omega (arith, le));
    };
    grows = omega arith;
    kept = λ l lt ne. refl;
    longer = λ l. Prefix-refl _;
  }

  Frame-set_loop : (a : ℕ) (c m : Label) {b : Ir} → Inside h n b → Frame h n b (set_loop a c m b)
  unfolding set_loop
  Frame-set_loop a c m {b} p = record {
    inside = record { own = p.own; low = p.low; lt = p.lt; le = p.le; fresh = p.fresh };
    grows = omega arith;
    kept = λ l lt ne. refl;
    longer = λ l. Prefix-refl _;
  }

  pub Frame-turn :
      (l k : Label) (t : Stmts) {b : Ir}
      → Inside h n b
      → n ≤ l
      → l < b.next
      → Frame h n b (set_insert_point l (close k t b))
  Frame-turn l k t p from to =
      let q = Frame-close k t p in
      q then_frame Frame-set_insert_point l q.inside from (omega (arith, to, q.grows))

  pub Frame-open_if : (i : IfHead) {b : Ir} → Inside h n b → Frame h n b (open_if i b)
  unfolding open_if emit three_blocks set_insert_point
  Frame-open_if i {b} p =
      let q = Frame-three_blocks p in
      let r = q then_frame Frame-emit (cond_br i.precond i.cond b.next (b.next + 1)) q.inside in
      r then_frame Frame-set_insert_point b.next r.inside p.le (omega arith)

  pub Frame-open_for : (f : ForHead) {b : Ir} → Inside h n b → Frame h n b (open_for f b)
  unfolding open_for emit three_blocks set_insert_point set_loop
  Frame-open_for f {b} p =
      let q = Frame-emit_asg f.pre_asg p in
      let r = q then_frame Frame-three_blocks q.inside in
      let s = r then_frame Frame-set_loop f.addr b.next (b.next + 2) r.inside in
      let t = s then_frame Frame-emit (br b.next) s.inside in
      let u =
        t
        then_frame Frame-set_insert_point b.next t.inside p.le
            (omega (arith, emit_asg-next f.pre_asg b)) in
      let v =
        u then_frame Frame-emit (cond_br f.precond f.cond (b.next + 1) (b.next + 2)) u.inside in
      v
      then_frame Frame-set_insert_point (b.next + 1) v.inside (omega (arith, p.le))
          (omega (arith, emit_asg-next f.pre_asg b))

pub open_if-here : (i : IfHead) (b : Ir) → (open_if i b).here ≡ b.next
unfolding open_if set_insert_point
open_if-here i b = refl

pub open_if-next : (i : IfHead) (b : Ir) → (open_if i b).next ≡ b.next + 3
unfolding open_if emit three_blocks set_insert_point
open_if-next i b = refl

pub open_for-here : (f : ForHead) (b : Ir) → (open_for f b).here ≡ b.next + 1
unfolding open_for set_insert_point
open_for-here f b = refl

pub open_for-next : (f : ForHead) (b : Ir) → (open_for f b).next ≡ b.next + 3
unfolding open_for emit three_blocks set_insert_point set_loop
open_for-next f b = ap (λ k. k + 3) (emit_asg-next f.pre_asg b)

mutual
  unfolding lay_body

  -- code_gen of a statement changes only the current block and new ones, and adds to their ends.
  pub lay_stmt-Frame :
      (ls : Label × Label) (s : Stmt) (h : Label) (n : ℕ) (b : Ir)
      → Inside h n b
      → Frame h n b (lay_stmt ls s b)
  lay_stmt-Frame ls (def_node d) h n b p = Frame-emit (define d) p
  lay_stmt-Frame ls (asg_node a) h n b p = Frame-emit (assign a) p
  lay_stmt-Frame ls (return_node q e) h n b p =
      let r = Frame-emit (give_back e) p in r then_frame Frame-emit ret_void r.inside
  lay_stmt-Frame ls (continue_node q l) h n b p = Frame-emit (br ls.0) p
  lay_stmt-Frame ls (break_node q l) h n b p = Frame-emit (br ls.1) p
  lay_stmt-Frame ls (if_node i body) h n b p =
      let q = Frame-open_if i p in
      let r = lay_body-Frame ls body h n (open_if i b) q.inside in
      let e = open_if-next i b in
      let s =
        r
        then_frame Frame-turn (b.next + 1) (b.next + 2) body r.inside (omega (arith, p.le))
            (omega (arith, e, r.grows)) in
      let t = s then_frame Frame-emit (br (b.next + 2)) s.inside in
      q
      then_frame t
      then_frame Frame-set_insert_point (b.next + 2) t.inside (omega (arith, p.le))
          (omega (arith, e, t.grows))
  lay_stmt-Frame ls (if_else_node i body els) h n b p =
      let q = Frame-open_if i p in
      let r = lay_body-Frame ls body h n (open_if i b) q.inside in
      let e = open_if-next i b in
      let s =
        r
        then_frame Frame-turn (b.next + 1) (b.next + 2) body r.inside (omega (arith, p.le))
            (omega (arith, e, r.grows)) in
      let t = s then_frame lay_body-Frame ls els h n _ s.inside in
      q
      then_frame t
      then_frame Frame-turn (b.next + 2) (b.next + 2) els t.inside (omega (arith, p.le))
          (omega (arith, e, t.grows))
  lay_stmt-Frame ls (for_node f body) h n b p =
      let q = Frame-open_for f p in
      let r = lay_body-Frame (b.next, b.next + 2) body h n (open_for f b) q.inside in
      let e = open_for-next f b in
      let s = r then_frame Frame-close_for f b.next body r.inside in
      q
      then_frame s
      then_frame Frame-set_insert_point (b.next + 2) s.inside (omega (arith, p.le))
          (omega (arith, e, s.grows))

  pub lay_body-Frame :
      (ls : Label × Label) (body : Stmts) (h : Label) (n : ℕ) (b : Ir)
      → Inside h n b
      → Frame h n b (lay_body ls body b)
  lay_body-Frame ls end h n b p = Frame-stay p
  lay_body-Frame ls (s ⨾ body) h n b p =
      let q = lay_stmt-Frame ls s h n b p in
      q then_frame lay_body-Frame ls body h n (lay_stmt ls s b) q.inside
