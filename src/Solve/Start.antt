-- ===== src/Solve/Start.antt =====
-- The whole of start_z3_gen (src/CodegenZ3Visitor.cpp): what holds of the inputs after it.
use d_gen.Prelude.{
  if◌then◌else◌, ℕ, ◌+◌, ◌≡◌, ◌≢◌, refl, ◌∙◌, ap, subst, Bool, not, none, some, List, [], ◌∷◌, ℤ,
  String,
}
use d_gen.Ast.{Expr, PrecondNode}
use d_gen.Values.{Val, Numeral, truth}
use d_gen.Solve.{gen_expr}
use d_gen.Solve.Setting.{Z3, Running, Ref, State, done, or_throw}
use d_gen.Solve.Run.{fill_syms, decide, gather, solve, start_z3_gen}
use d_gen.Solve.Sight.{Kind, unset, known}
use d_gen.Solve.Meaning.{Model, Sound, AllTrue, value}
use d_gen.Solve.Gather.{IsTable, Ends, sees, AllGrow, AllGrow-refl, const_of, Goes, Goes-trans}
use d_gen.Solve.Gather.Table.{Has}
use d_gen.Solve.Gather.Steps.{Named, grow-IsTable, Ends-back, Gathered}
use d_gen.Solve.Gather.Expressions.{gen_expr-Gathered}
use d_gen.Solve.Fill.{Represented}
use d_gen.Solve.Fill.Loop.{fill_syms-Outcome}
use d_gen.Solve.Holds.{
  Lists, NamedPre, first_state, PreTrue, PreGathered, decided, gather_inv, gen_pre-PreGathered,
  first-IsTable, Outcome-Ends, Ready-entry,
}

module _ {E : Type 0} (z : Z3 E) (rand : ℕ → ℕ) (number : ℤ → String) (env : Running)
    (names : ℕ → String) where
  solve_fills :
      (order : List (Ref × ℕ) → List (Ref × ℕ)) (fs : List E) (seed : ℕ) (s : State E)
      (exprs : List E) (eval : E → Numeral) (st : ℕ → Val)
      → exprs ≢ []
      → z.check seed fs ≡ some eval
      → fill_syms rand eval exprs (order s.syms) s.store ≡ done st
      → solve z rand number env order fs seed s exprs ≡ done (st, s.calls)
  unfolding solve
  solve_fills order fs seed s [] eval st ne c f = absurd (ne refl)
  solve_fills order fs seed s (t ∷ ts) eval st ne c f = rw (c, solve) (rw f refl)

  solve-none :
      (order : List (Ref × ℕ) → List (Ref × ℕ)) (fs : List E) (seed : ℕ) (s : State E)
      (exprs : List E)
      → z.check seed fs ≡ none
      → solve z rand number env order fs seed s exprs ≡ done (s.store, s.calls)
  unfolding solve
  solve-none order fs seed s [] c = refl
  solve-none order fs seed s (t ∷ ts) c = rw (c, solve) refl

  starts :
      (order : List (Ref × ℕ) → List (Ref × ℕ)) (cond : Expr) (pre : PrecondNode) (st : ℕ → Val)
      (n : ℕ) (fs : List E) (seed : ℕ) (s : State E)
      → gather z rand number env cond pre st n ≡ done (fs, seed, s)
      → start_z3_gen z rand number env order cond pre st n
        ≡ solve z rand number env order fs seed s s.exprs
  unfolding start_z3_gen
  starts order cond pre st n fs seed s h = rw h refl

  -- The condition and the precondition, once the translation is known.
  meanings :
      (cond : Expr) (pre : PrecondNode) (st : ℕ → Val) (n : ℕ) (t c : E) (s1 : State E)
      (gs : List E) (s : State E) (b : Bool) (m : ℕ) (eval : E → Numeral) (st' : ℕ → Val)
      (model : Model z eval)
      → Gathered z number names (λ by_zero st. value by_zero env st cond) (first_state st n) t s1
      → PreGathered z rand number env names pre.expr (record s1 { calls = m }) gs s
      → (if b then or_throw (z.negated t) else done t) ≡ done c
      → AllTrue eval (c ∷ gs)
      → Ends z number names eval st' s
      → (value model.by_zero env st' cond ≡ some (truth (not b)))
        × PreTrue z rand number env names model.by_zero st' pre.expr
        × AllGrow st s.store
  meanings cond pre st n t c s1 gs s b m eval st' model g p ec all ends =
      let mid : State E = record s1 { calls = m } in
      let skip : Goes s1 mid = record { grows = AllGrow-refl s1.store; keys = λ r i h. (i, h) } in
      let table : IsTable z number names mid =
        grow-IsTable z number names s1 s1.store m g.table (AllGrow-refl s1.store) in
      let ends1 : Ends z number names eval st' s1 =
        Ends-back z number names eval st' s1 s g.table (Goes-trans s1 mid s skip p.goes) ends in
      (
        g.means eval st' model ends1
            ∙ ap some (decided z rand number env names b t c eval model ec all.0),
        p.means eval st' model ends all.1,
        (Goes-trans (first_state st n) s1 s g.goes (Goes-trans s1 mid s skip p.goes)).grows,
      )

  -- If the answer is sat, some symbol was registered, each of them has no value when the loop starts, the
  -- model's numerals fit into the symbols, and the nodes of an input agree about its name, then
  -- start_z3_gen returns. In the store that it leaves the condition is true, or false if it was decided
  -- to negate it, the expression of the precondition is true, and what was known of an input before is
  -- as it was.
  pub value-start_z3_gen :
      (order : List (Ref × ℕ) → List (Ref × ℕ)) (sound : Sound z) (cond : Expr) (pre : PrecondNode)
      (st : ℕ → Val) (n : ℕ) (fs : List E) (seed : ℕ) (s : State E) (eval : E → Numeral)
      (sat : z.check seed fs ≡ some eval)
      → Named names cond
      → NamedPre names pre.expr
      → gather z rand number env cond pre st n ≡ done (fs, seed, s)
      → s.exprs ≢ []
      → Lists (order s.syms) s.syms
      → ((r : Ref) (i : ℕ) → Has r i s.syms → (k : Kind) × (sees s.store r ≡ some (unset k)))
      → ((r : Ref) (i : ℕ) (k : Kind)
          → Has r i s.syms
          → sees s.store r ≡ some (unset k)
          → Represented k (eval (const_of z number names r k)))
      → (st' : ℕ → Val) × (t : E) × (s1 : State E) × (start_z3_gen z rand number env order cond pre
            st n
          ≡ done (st', s.calls))
        × (gen_expr z rand number env cond (first_state st n) ≡ done (t, s1))
        × (value (sound.model seed fs eval sat).by_zero env st' cond
            ≡ some (truth (not (decide z rand number env pre.prob (s1.calls + 1)).0)))
        × PreTrue z rand number env names (sound.model seed fs eval sat).by_zero st' pre.expr
        × ((r : Ref) (x : Numeral) → sees st r ≡ some (known x) → sees st' r ≡ some (known x))
  value-start_z3_gen order sound cond pre st n fs seed s eval sat nc np g ne lists open_at fits =
      let (t, s1, c, gs, e1, ec, eg, efs) =
        gather_inv z rand number env names cond pre st n fs seed s g in
      let first = first-IsTable z rand number env names st n in
      let gt = gen_expr-Gathered z rand number env names cond (first_state st n) t s1 nc first e1 in
      let m = (decide z rand number env pre.prob (s1.calls + 1)).1 in
      let mid : State E = record s1 { calls = m } in
      let table = grow-IsTable z number names s1 s1.store m gt.table (AllGrow-refl s1.store) in
      let gp = gen_pre-PreGathered z rand number env names pre.expr mid gs s np table eg in
      let (st', run, out) =
        fill_syms-Outcome z rand number names eval s.exprs (order s.syms) s.store
          (lists.2 gp.table.distinct)
          (Ready-entry z rand number env names eval s (order s.syms) gp.table lists open_at fits) in
      let ends = Outcome-Ends z rand number env names eval s (order s.syms) st' lists open_at out in
      let all = subst (AllTrue eval) efs (sound.holds seed fs eval sat) in
      let (true_cond, true_pre, grows) =
        meanings cond pre st n t c s1 gs s (decide z rand number env pre.prob (s1.calls + 1)).0 m
          eval st' (sound.model seed fs eval sat) gt gp ec all ends in
      (
        st',
        t,
        s1,
        starts order cond pre st n fs seed s g
            ∙ solve_fills order fs seed s s.exprs eval st' ne sat run,
        e1,
        true_cond,
        true_pre,
        λ r x e. let (o, eo, same) = grows r (known x) e in ends.stays r x (eo ∙ ap some same),
      )

  -- If the nodes of an input agree about its name, the translation of the condition and of the
  -- precondition returns, and the answer is not sat, then start_z3_gen returns, with the inputs as the
  -- translation leaves them: each value and each size is as before, each scalar without a value has
  -- still none and has its type, and an array without a size has still none or has got one.
  pub start_z3_gen-AllGrow :
      (order : List (Ref × ℕ) → List (Ref × ℕ)) (cond : Expr) (pre : PrecondNode) (st : ℕ → Val)
      (n : ℕ) (fs : List E) (seed : ℕ) (s : State E)
      → Named names cond
      → NamedPre names pre.expr
      → gather z rand number env cond pre st n ≡ done (fs, seed, s)
      → z.check seed fs ≡ none
      → (start_z3_gen z rand number env order cond pre st n ≡ done (s.store, s.calls))
        × AllGrow st s.store
  start_z3_gen-AllGrow order cond pre st n fs seed s nc np g unsat =
      let (t, s1, c, gs, e1, ec, eg, efs) =
        gather_inv z rand number env names cond pre st n fs seed s g in
      let first = first-IsTable z rand number env names st n in
      let gt = gen_expr-Gathered z rand number env names cond (first_state st n) t s1 nc first e1 in
      let m = (decide z rand number env pre.prob (s1.calls + 1)).1 in
      let mid : State E = record s1 { calls = m } in
      let table = grow-IsTable z number names s1 s1.store m gt.table (AllGrow-refl s1.store) in
      let gp = gen_pre-PreGathered z rand number env names pre.expr mid gs s np table eg in
      let skip : Goes s1 mid = record { grows = AllGrow-refl s1.store; keys = λ r i h. (i, h) } in
      (
        starts order cond pre st n fs seed s g ∙ solve-none order fs seed s s.exprs unsat,
        (Goes-trans (first_state st n) s1 s gt.goes (Goes-trans s1 mid s skip gp.goes)).grows,
      )
