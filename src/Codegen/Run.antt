-- ===== src/Codegen/Run.antt =====
-- How the emitted blocks run (src/CodegenVisitor.cpp), over a machine that stands for the instructions of
-- expressions and assignments.
use d_gen.Prelude.{ℕ, suc, ◌≡◌, true, false, Option, some, get_elem?}
use d_gen.Ast.{Expr, PrecondNode, AsgNode, DefNode}
use d_gen.Semantics.Reach.{Machine, Signal, normal, broke, continued, returned}
use d_gen.Codegen.{Label, Code, define, assign, give_back, br, cond_br, ret_void}

-- In block `l` before its instruction `i`, or returned.
pub data Config (S : Type 0) : Type 0 where
  at : Label → ℕ → S → Config S
  halted : S → Config S

pub data Step {S : Type 0} (m : Machine S) (c : Code) : Config S → Config S → Type 0 where
  defines :
      {l : Label} {i : ℕ} {s : S} {d : DefNode}
      → get_elem? (c l) i ≡ some (define d)
      → Step m c (at l i s) (at l (suc i) (m.define d s))
  assigns :
      {l : Label} {i : ℕ} {s : S} {a : AsgNode}
      → get_elem? (c l) i ≡ some (assign a)
      → Step m c (at l i s) (at l (suc i) (m.assign a s))
  gives_back :
      {l : Label} {i : ℕ} {s : S} {e : Expr}
      → get_elem? (c l) i ≡ some (give_back e)
      → Step m c (at l i s) (at l (suc i) (m.give_back e s))
  branches :
      {l k : Label} {i : ℕ} {s : S}
      → get_elem? (c l) i ≡ some (br k)
      → Step m c (at l i s) (at k 0 s)
  takes :
      {l t f : Label} {i : ℕ} {s : S} {p : Option PrecondNode} {e : Expr}
      → get_elem? (c l) i ≡ some (cond_br p e t f)
      → (m.test p e s).0 ≡ true
      → Step m c (at l i s) (at t 0 (m.test p e s).1)
  passes :
      {l t f : Label} {i : ℕ} {s : S} {p : Option PrecondNode} {e : Expr}
      → get_elem? (c l) i ≡ some (cond_br p e t f)
      → (m.test p e s).0 ≡ false
      → Step m c (at l i s) (at f 0 (m.test p e s).1)
  returns :
      {l : Label} {i : ℕ} {s : S}
      → get_elem? (c l) i ≡ some ret_void
      → Step m c (at l i s) (halted s)

pub data Steps {S : Type 0} (m : Machine S) (c : Code) : Config S → Config S → Type 0 where
  stay : {x : Config S} → Steps m c x x
  go : {x y z : Config S} → Step m c x y → Steps m c y z → Steps m c x z

infixr 30 ◌then_steps◌
pub ◌then_steps◌ :
    {S : Type 0} {m : Machine S} {c : Code} {x y z : Config S}
    → Steps m c x y
    → Steps m c y z
    → Steps m c x z
stay then_steps q = q
go p ps then_steps q = go p (ps then_steps q)

-- Where a statement goes that ends with a signal: behind its code, or to the blocks of its loop.
abbrev pub target : {S : Type 0} → Label → Label → Label → ℕ → Signal → S → Config S
target cond merge l i normal s = at l i s
target cond merge l i broke s = at merge 0 s
target cond merge l i continued s = at cond 0 s
target cond merge l i returned s = halted s
