-- ===== src/Builder/Program/Ready.antt =====
-- From the parse tree to the function that the code generator reads (the start of DGen::generate_json in
-- src/DGen.cpp).
use d_gen.Prelude.{◌≡◌, ◌⊎◌, inl, inr, true, Option, List, String, ℤ}
use d_gen.Errors.{Err, Outcome, ok, err, ◌>>=◌}
use d_gen.Ast.{Symbol, FunctionNode}
use d_gen.Grammar.{Function}
use d_gen.Builder.Program.{visit_function}
use d_gen.Builder.Program.Total.{have_conds, visit_function-Built}
use d_gen.Semantics.FrontEnd.{front_end}
use d_gen.Semantics.FrontEnd.Ready.{Ready, front_end-Ready}

-- The visit of the tree that the parser returned, and the passes.
unfoldable pub analyse : (String → ℤ) → Function → Outcome (FunctionNode × List (Option Symbol))
analyse atoi f = do g ← visit_function atoi f; front_end g

-- If each `for` has a condition, a program of the grammar is either refused by a BuildError or ends as a
-- function that is ready for the code generator: with jumps connected, names resolved by lexical scope,
-- the typing rules kept and nothing behind a jump.
pub analyse-Ready :
    (atoi : String → ℤ) (f : Function)
    → have_conds f.body ≡ true
    → (g : FunctionNode) × (visit_function atoi f ≡ ok g)
      × (((r : FunctionNode × List (Option Symbol)) × (analyse atoi f ≡ ok r) × Ready g r)
          ⊎ ((e : List Err) × (analyse atoi f ≡ err e)))
unfolding analyse
analyse-Ready atoi f conds =
    let (g, h, bare, apart) = (visit_function-Built atoi f).0 conds in
    (
      g,
      h,
      elim (front_end-Ready g bare) [
        | inl (r, made, ready) ↦ inl (r, rw h made, ready)
        | inr (e, made) ↦ inr (e, rw h made)
      ],
    )
