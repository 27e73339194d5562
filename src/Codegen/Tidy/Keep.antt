-- ===== src/Codegen/Tidy/Keep.antt =====
-- The blocks that are emitted for a body with nothing behind a jump have their terminators last
-- (src/CodegenVisitor.cpp).
use d_gen.Prelude.{ℕ, ◌+◌, ◌≡◌, refl, true, false, none, inl, inr, Bool-cases}
use d_gen.Ast.{
  Stmt, if_node, if_else_node, for_node, def_node, continue_node, break_node, return_node, asg_node,
  Stmts, end, ◌⨾◌, FunctionNode,
}
use d_gen.Semantics.Loops.{is_jump}
use d_gen.Semantics.Loops.Trim.{TrimmedStmt, Trimmed}
use d_gen.Codegen.{
  new_ir, gen_function, Label, define, assign, give_back, br, ret_void, Ir, emit, set_insert_point,
  is_last_stmt_br, open_if, close, open_for, close_for,
}
use d_gen.Errors.{ok}
use d_gen.Ast.Loops.{LoopsApart}
use d_gen.Semantics.Loops.Connect.{Connected}
use d_gen.Codegen.Correct.{new_ir-Inside, gen_function-lay}
use d_gen.Codegen.Lay.{lay_stmt, lay_body}
use d_gen.Codegen.Keeps.{lay_stmt-Frame}
use d_gen.Codegen.Shape.{
  Inside-open_if, Inside-open_for, turned, turned-Inside, if-code, else-code, looped, for-code,
}
use d_gen.Codegen.Blocks.{Inside}
use d_gen.Codegen.Tidy.{
  is_open, is_tidy, Tidy, Open, OpenUnless, emit-Tidy, emit-Open, set_insert_point-Open, close-Tidy,
  close_for-Tidy, open_if-Tidy, open_for-Tidy, not_jump-of_br, cons_ne_end, turned-Tidy,
}

mutual
  unfolding lay_body is_last_stmt_br set_insert_point

  lay_stmt-Tidy :
      (ls : Label × Label) (t : Stmt) (b : Ir) {h : Label} {n : ℕ}
      → Inside h n b
      → TrimmedStmt t
      → Open b
      → Tidy b
      → Tidy (lay_stmt ls t b) × OpenUnless (is_jump t) (lay_stmt ls t b)
  lay_stmt-Tidy ls (def_node d) b p tr o t =
      (emit-Tidy (define d) b o t, λ _. emit-Open (define d) b refl o)
  lay_stmt-Tidy ls (asg_node a) b p tr o t =
      (emit-Tidy (assign a) b o t, λ _. emit-Open (assign a) b refl o)
  lay_stmt-Tidy ls (return_node q e) b p tr o t =
      let o' = emit-Open (give_back e) b refl o in
      (emit-Tidy ret_void (emit (give_back e) b) o' (emit-Tidy (give_back e) b o t), λ j. cc)
  lay_stmt-Tidy ls (continue_node q l) b p tr o t = (emit-Tidy (br ls.0) b o t, λ j. cc)
  lay_stmt-Tidy ls (break_node q l) b p tr o t = (emit-Tidy (br ls.1) b o t, λ j. cc)
  lay_stmt-Tidy ls (if_node i body) b p tr o t =
      let (o₁, t₁) = open_if-Tidy i b p o t in
      let (o₂, t₂) =
        turned-Tidy ls i body b p
          (lay_body-Tidy ls body (open_if i b) (Inside-open_if i b p) tr o₁ t₁) in
      (
        emit-Tidy (br (b.next + 2)) (turned ls i body b) o₂ t₂,
        λ _.
            set_insert_point-Open (b.next + 2) (emit (br (b.next + 2)) (turned ls i body b))
              (if-code ls i body b p),
      )
  lay_stmt-Tidy ls (if_else_node i body els) b p tr o t =
      let (o₁, t₁) = open_if-Tidy i b p o t in
      let (o₂, t₂) =
        turned-Tidy ls i body b p
          (lay_body-Tidy ls body (open_if i b) (Inside-open_if i b p) tr.0 o₁ t₁) in
      let (t₃, o₃) =
        lay_body-Tidy ls els (turned ls i body b) (turned-Inside ls i body b p) tr.1 o₂ t₂ in
      (
        close-Tidy (b.next + 2) els (lay_body ls els (turned ls i body b)) o₃ t₃,
        λ _.
            set_insert_point-Open (b.next + 2)
              (close (b.next + 2) els (lay_body ls els (turned ls i body b)))
              (else-code ls i body els b p),
      )
  lay_stmt-Tidy ls (for_node f body) b p tr o t =
      let (o₁, t₁) = open_for-Tidy f b p o t in
      let (t₂, o₂) =
        lay_body-Tidy (b.next, b.next + 2) body (open_for f b) (Inside-open_for f b p) tr o₁ t₁ in
      (
        close_for-Tidy f b.next body (looped f body b) o₂ t₂,
        λ _.
            set_insert_point-Open (b.next + 2) (close_for f b.next body (looped f body b))
              (for-code f body b p),
      )

  lay_body-Tidy :
      (ls : Label × Label) (t : Stmts) (b : Ir) {h : Label} {n : ℕ}
      → Inside h n b
      → Trimmed t
      → Open b
      → Tidy b
      → Tidy (lay_body ls t b) × OpenUnless (is_last_stmt_br t) (lay_body ls t b)
  lay_body-Tidy ls end b p tr o t = (t, λ _. o)
  lay_body-Tidy ls (s ⨾ end) b p tr o t =
      let (t', o') = lay_stmt-Tidy ls s b p tr.0 o t in (t', λ j. o' (not_jump-of_br s j))
  lay_body-Tidy ls (s ⨾ (u ⨾ r)) b p (ts, tr, cut) o t =
      let (t', o') = lay_stmt-Tidy ls s b p ts o t in
      let stays : is_jump s ≡ false = elim (Bool-cases (is_jump s)) [
        | inl j ↦ absurd (cons_ne_end u r (cut j))
        | inr j ↦ j
      ] in
      lay_body-Tidy ls (u ⨾ r) (lay_stmt ls s b) (lay_stmt-Frame ls s _ _ b p).inside tr (o' stays)
        t'

-- If the jumps of a function are connected, the addresses of its loops are apart and nothing stands
-- behind a jump in its body, then the blocks are emitted, and in none of them an instruction stands
-- behind a branch or a `ret`.
pub gen_function-Tidy :
    (f : FunctionNode)
    → Connected none f.body
    → LoopsApart f.body
    → Trimmed f.body
    → (b : Ir) × (gen_function f ≡ ok b) × ((l : Label) → is_tidy (b.code l) ≡ true)
gen_function-Tidy f c apart tr = (
  lay_body (0, 0) f.body new_ir,
  gen_function-lay f c apart,
  (lay_body-Tidy (0, 0) f.body new_ir new_ir-Inside tr refl (λ l. refl)).0,
)

-- If the jumps of a function are connected, the addresses of its loops are apart, nothing stands
-- behind a jump in its body, and the body does not end in a jump on every path, as is_last_stmt_br
-- tells, then the blocks are emitted and the block where the visitor stands last has no branch and
-- no `ret`.
pub gen_function_open_end :
    (f : FunctionNode)
    → Connected none f.body
    → LoopsApart f.body
    → Trimmed f.body
    → is_last_stmt_br f.body ≡ false
    → (b : Ir) × (gen_function f ≡ ok b) × (is_open (b.code b.here) ≡ true)
gen_function_open_end f c apart tr last = (
  lay_body (0, 0) f.body new_ir,
  gen_function-lay f c apart,
  (lay_body-Tidy (0, 0) f.body new_ir new_ir-Inside tr refl (λ l. refl)).1 last,
)
