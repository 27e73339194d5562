-- ===== src/Codegen/Halts.antt =====
-- The blocks that are emitted lead to one end only (src/CodegenVisitor.cpp).
use d_gen.Prelude.{
  ℕ, suc, ◌≡◌, refl, sym, ◌∙◌, ap, subst, true, Option, none, some, List, get_elem?, if◌then◌else◌,
  String, ℤ,
}
use d_gen.Errors.{ok, ok_injective}
use d_gen.Ast.{Symbol, FunctionNode}
use d_gen.Grammar.{Function}
use d_gen.Builder.Program.Total.{have_conds}
use d_gen.Builder.Program.Ready.{analyse}
use d_gen.Semantics.Reach.{Machine, returned, Exec}
use d_gen.Codegen.{Label, Instr, Code, Ir, define, assign, give_back, br, cond_br, ret_void}
use d_gen.Codegen.Run.{
  Config, at, halted, Step, defines, assigns, gives_back, branches, takes, passes, returns, Steps,
  stay, go,
}
use d_gen.Codegen.Compile.{compile, compile-Steps}

module _ {S : Type 0} (m : Machine S) where
  unfoldable obey : Label → ℕ → S → Instr → Config S
  obey l i s (define d) = at l (suc i) (m.define d s)
  obey l i s (assign a) = at l (suc i) (m.assign a s)
  obey l i s (give_back e) = at l (suc i) (m.give_back e s)
  obey l i s (br k) = at k 0 s
  obey l i s (cond_br p e t f) = at (if (m.test p e s).0 then t else f) 0 (m.test p e s).1
  obey l i s ret_void = halted s

  unfoldable next_of : Code → Config S → Option (Config S)
  next_of c (halted s) = none
  next_of c (at l i s) = elim (get_elem? (c l) i) [
    | none ↦ none
    | some instr ↦ some (obey l i s instr)
  ]

  Step-next_of : {c : Code} {x y : Config S} → Step m c x y → next_of c x ≡ some y
  unfolding next_of obey
  Step-next_of (defines e) = rw (e, next_of) refl
  Step-next_of (assigns e) = rw (e, next_of) refl
  Step-next_of (gives_back e) = rw (e, next_of) refl
  Step-next_of (branches e) = rw (e, next_of) refl
  Step-next_of (takes e t) = rw (e, next_of) (rw t refl)
  Step-next_of (passes e t) = rw (e, next_of) (rw t refl)
  Step-next_of (returns e) = rw (e, next_of) refl

  some_injective : {x y : Config S} → some x ≡ some y → x ≡ y
  some_injective e = cc

  halted_is_last : {c : Code} {x y : Config S} (s : S) → x ≡ halted s → Step m c x y → ⊥
  unfolding next_of
  halted_is_last {c} s e p = cc (ap (next_of c) e, Step-next_of p)

  Steps-unique :
      {c : Code} {x y z : Config S} (s t : S)
      → y ≡ halted s
      → z ≡ halted t
      → Steps m c x y
      → Steps m c x z
      → y ≡ z
  Steps-unique s t ey ez stay stay = refl
  Steps-unique s t ey ez stay (go p q) = absurd (halted_is_last s ey p)
  Steps-unique s t ey ez (go p q) stay = absurd (halted_is_last t ez p)
  Steps-unique {c} {x} {y} {z} s t ey ez (go p q) (go p' q') = Steps-unique s t ey ez q (
      subst (λ (w : Config S). Steps m c w z)
        (some_injective (sym (Step-next_of p') ∙ Step-next_of p)) q')

halted_injective : {S : Type 0} {s t : S} → halted s ≡ halted t → s ≡ t
halted_injective e = cc

-- If the analysed body of a program in which each `for` has a condition returns from a state, then
-- wherever the blocks that are emitted for it halt, it is in the final state of the body.
pub compile_halts :
    (atoi : String → ℤ) (f : Function)
    → have_conds f.body ≡ true
    → (r : FunctionNode × List (Option Symbol)) → analyse atoi f ≡ ok r
    → {S : Type 0} (m : Machine S) (s s' : S) → Exec m r.0.body s returned s'
    → (b : Ir) → compile atoi f ≡ ok (b, r.1)
    → (t : S) → Steps m b.code (at 0 0 s) (halted t)
    → t ≡ s'
compile_halts atoi f conds r made {S} m s s' d b emitted t steps =
    let (b', emitted', steps') = compile-Steps atoi f conds r made m s s' returned d in
    let same : (b', r.1) ≡ (b, r.1) = ok_injective (sym emitted' ∙ emitted) in
    halted_injective (
      Steps-unique m t s' refl refl steps (
        subst (λ (x : Ir × List (Option Symbol)). Steps m x.0.code (at 0 0 s) (halted s')) same
          steps'))
