-- ===== src/Codegen/Compile.antt =====
-- From the parse tree to the blocks (DGen::generate_json in src/DGen.cpp up to `visitor.code_gen`).
use d_gen.Prelude.{◌≡◌, refl, sym, ◌∙◌, subst, ◌⊎◌, inl, inr, true, Option, none, List, String, ℤ}
use d_gen.Errors.{Err, Outcome, ok, err, ◌>>=◌, ok_injective}
use d_gen.Ast.{Symbol, FunctionNode}
use d_gen.Ast.Loops.{LoopsApart}
use d_gen.Grammar.{Function}
use d_gen.Builder.Program.Total.{have_conds, visit_function-Built}
use d_gen.Builder.Program.Ready.{analyse}
use d_gen.Semantics.Loops.Connect.{Connected}
use d_gen.Semantics.Loops.Trim.{Trimmed}
use d_gen.Codegen.Tidy.{is_tidy}
use d_gen.Codegen.Tidy.Keep.{gen_function-Tidy}
use d_gen.Semantics.Reach.{Machine, Signal, Exec}
use d_gen.Semantics.FrontEnd.Ready.{front_end-Ready}
use d_gen.Semantics.FrontEnd.Apart.{front_end-LoopsApart}
use d_gen.Codegen.{Label, Ir, new_ir, gen_function}
use d_gen.Codegen.Lay.{lay_body}
use d_gen.Codegen.Run.{at, Steps}
use d_gen.Codegen.Correct.{outcome, gen_function-Steps, gen_function-lay}

-- The analysis, and the blocks and branches of the function. The instructions of an expression, a
-- definition, an assignment or a return are one instruction here, which is always emitted
-- (Codegen/Operands.antt has those of the first three), and run_optimizations is left out.
unfoldable pub compile : (String → ℤ) → Function → Outcome (Ir × List (Option Symbol))
compile atoi f = do (g, inputs) ← analyse atoi f; b ← gen_function g; ok (b, inputs)

-- What the analysis hands on fits the code generator.
analyse-Fits :
    (atoi : String → ℤ) (f : Function)
    → have_conds f.body ≡ true
    → ((r : FunctionNode × List (Option Symbol)) × (analyse atoi f ≡ ok r)
        × Connected none r.0.body
        × LoopsApart r.0.body
        × Trimmed r.0.body)
      ⊎ ((e : List Err) × (analyse atoi f ≡ err e))
unfolding analyse
analyse-Fits atoi f conds =
    let (g, h, bare, apart) = (visit_function-Built atoi f).0 conds in
    elim (front_end-Ready g bare) [
      | inl (r, made, ready) ↦
          inl (r, rw h made, ready.1, front_end-LoopsApart g r made apart, ready.4)
      | inr (e, made) ↦ inr (e, rw h made)
    ]

-- If each `for` has a condition then the blocks and branches of every program that passes the
-- analysis are emitted: each jump and each loop finds the labels of its loop. A program that does not
-- pass is refused with the errors of the analysis. The leaves of the code generation (the
-- instructions of an expression, a definition, an assignment or a return) and the optimizations are no
-- part of this.
pub compile_total :
    (atoi : String → ℤ) (f : Function)
    → have_conds f.body ≡ true
    → ((r : FunctionNode × List (Option Symbol)) × (b : Ir) × (analyse atoi f ≡ ok r)
        × (compile atoi f ≡ ok (b, r.1)))
      ⊎ ((e : List Err) × (analyse atoi f ≡ err e) × (compile atoi f ≡ err e))
unfolding compile
compile_total atoi f conds = elim (analyse-Fits atoi f conds) [
  | inl (r, made, c, apart, _) ↦
      inl (r, lay_body (0, 0) r.0.body new_ir, made, rw (made, gen_function-lay r.0 c apart) refl)
  | inr (e, made) ↦ inr (e, made, rw made refl)
]

-- If each `for` has a condition and the program passes the analysis, then its blocks are emitted,
-- and on every machine they run as the analysed body does, from the start of the entry block: to a
-- `ret` in the same final state if the body returns, and otherwise to the end of the block where
-- the visitor stands last.
pub compile-Steps :
    (atoi : String → ℤ) (f : Function)
    → have_conds f.body ≡ true
    → (r : FunctionNode × List (Option Symbol)) → analyse atoi f ≡ ok r
    → {S : Type 0} (m : Machine S) (s s' : S) (g : Signal) → Exec m r.0.body s g s'
    → (b : Ir) × (compile atoi f ≡ ok (b, r.1)) × Steps m b.code (at 0 0 s) (outcome b g s')
unfolding compile
compile-Steps atoi f conds r made m s s' g d = elim (analyse-Fits atoi f conds) [
  | inl (q, made', c, apart, _) ↦
      let same : q ≡ r = ok_injective (sym made' ∙ made) in
      let (b, emitted, steps) =
        gen_function-Steps r.0
          (subst (λ (x : FunctionNode × List (Option Symbol)). Connected none x.0.body) same c)
          (subst (λ (x : FunctionNode × List (Option Symbol)). LoopsApart x.0.body) same apart) m s
          s' g d in
      let e : compile atoi f ≡ ok (b, r.1) = rw (made, emitted) refl in (b, e, steps)
  | inr (e, made') ↦ cc
]

-- If each `for` has a condition, then in the blocks that are emitted for a program no instruction
-- stands behind a branch or a `ret` of its block.
pub compile-Tidy :
    (atoi : String → ℤ) (f : Function)
    → have_conds f.body ≡ true
    → (r : Ir × List (Option Symbol)) → compile atoi f ≡ ok r
    → (l : Label) → is_tidy (r.0.code l) ≡ true
unfolding compile
compile-Tidy atoi f conds r made = elim (analyse-Fits atoi f conds) [
  | inl (q, made', c, apart, trimmed) ↦
      let (b, emitted, tidy) = gen_function-Tidy q.0 c apart trimmed in
      let e : compile atoi f ≡ ok (b, q.1) = rw (made', emitted) refl in
      subst (λ (x : Ir × List (Option Symbol)). (l : Label) → is_tidy (x.0.code l) ≡ true)
        (ok_injective (sym e ∙ made)) tidy
  | inr (e, made') ↦ absurd (cc (rw made' at made))
]
