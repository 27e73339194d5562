-- ===== src/Solve/Holds.antt =====
-- The parts of start_z3_gen (src/CodegenZ3Visitor.cpp) and what they come to together.
use d_gen.Prelude.{
  ℕ, ◌+◌, ◌≡◌, ◌∙◌, sym, ap, Bool, true, false, not, Option, none, some, List, [], ◌∷◌, ℤ, String,
  if◌then◌else◌,
}
use d_gen.Ast.{Expr, PrecondNode}
use d_gen.Values.{Val, Numeral, truth}
use d_gen.Solve.{gen_expr}
use d_gen.Solve.Setting.{Z3, Running, Ref, State, done, thrown, or_throw}
use d_gen.Solve.Run.{decide, add_formula, gen_pre, gather}
use d_gen.Solve.Sight.{Kind, unset, known}
use d_gen.Solve.Meaning.{Model, AllTrue, value}
use d_gen.Solve.Gather.{sees, const_of, IsTable, Ends, Goes, Goes-refl}
use d_gen.Solve.Gather.Table.{Has, Distinct}
use d_gen.Solve.Gather.Steps.{bind_inv, or_throw_inv, Named, Gathered}
use d_gen.Solve.Gather.Expressions.{gen_expr-Gathered}
use d_gen.Solve.Fill.{Represented}
use d_gen.Solve.Fill.Loop.{Ready, Outcome}

-- The order in which the entries are met: each entry once.
abbrev pub Lists : List (Ref × ℕ) → List (Ref × ℕ) → Type 0
Lists items l =
    ((r : Ref) (i : ℕ) → Has r i items → Has r i l)
    × ((r : Ref) (i : ℕ) → Has r i l → Has r i items)
    × (Distinct l → Distinct items)

abbrev pub NamedPre : (ℕ → String) → Option Expr → Type 0
NamedPre names none = Unit
NamedPre names (some e) = Named names e

abbrev pub first_state : {E : Type 0} → (ℕ → Val) → ℕ → State E
first_state st n = record { store = st; calls = n; exprs = []; syms = [] }

done_injective : {A : Type 0} {a b : A} → done a ≡ done b → a ≡ b
done_injective h = cc

module _ {E : Type 0} (z : Z3 E) (rand : ℕ → ℕ) (number : ℤ → String) (env : Running)
    (names : ℕ → String) where
  -- The parts of a run of `gather`.
  abbrev pub Parts : Expr → PrecondNode → (ℕ → Val) → ℕ → List E → ℕ → State E → Type 0
  Parts cond pre st n fs seed s =
      (t : E) × (s1 : State E) × (c : E) × (gs : List E) × (gen_expr z rand number env cond
          (first_state st n)
        ≡ done (t, s1))
      × ((if (decide z rand number env pre.prob (s1.calls + 1)).0
            then or_throw (z.negated t)
            else done t)
          ≡ done c)
      × (gen_pre z rand number env pre.expr
            (record s1 { calls = (decide z rand number env pre.prob (s1.calls + 1)).1 })
          ≡ done (gs, s))
      × (fs ≡ c ∷ gs)

  add_inv : (c f : E) → add_formula z rand number env c ≡ done f → c ≡ f
  unfolding add_formula
  add_inv c f h = add_if (z.is_bool c) h
    where
      add_if : (b : Bool) → (if b then done c else thrown) ≡ done f → c ≡ f
      add_if true e = cc
      add_if false e = cc

  pub gather_inv :
      (cond : Expr) (pre : PrecondNode) (st : ℕ → Val) (n : ℕ) (fs : List E) (seed : ℕ)
      (s : State E)
      → gather z rand number env cond pre st n ≡ done (fs, seed, s)
      → Parts cond pre st n fs seed s
  unfolding gather
  gather_inv cond pre st n fs seed s h =
      let (r1, e1, h1) = bind_inv (gen_expr z rand number env cond (first_state st n)) _ h in
      let (t, s1) = r1 in
      let (c, ec, h2) =
        bind_inv
          (if (decide z rand number env pre.prob (s1.calls + 1)).0
            then or_throw (z.negated t)
            else done t)
          _ h1 in
      let (f, ef, h3) = bind_inv (add_formula z rand number env c) _ h2 in
      let (r2, eg, h4) =
        bind_inv
          (gen_pre z rand number env pre.expr
            (record s1 { calls = (decide z rand number env pre.prob (s1.calls + 1)).1 }))
          _ h3 in
      let (gs, s2) = r2 in
      let ends = done_injective h4 in
      let same : s2 ≡ s = ap (λ (u : List E × ℕ × State E). u.2) ends in
      let listed : f ∷ gs ≡ fs = ap (λ (u : List E × ℕ × State E). u.0) ends in
      (
        t,
        s1,
        c,
        gs,
        e1,
        ec,
        eg ∙ ap (λ u. done (gs, u)) same,
        sym listed ∙ ap (λ u. u ∷ gs) (sym (add_inv c f ef)),
      )

  pub decided :
      (b : Bool) (t c : E) (eval : E → Numeral)
      → Model z eval
      → (if b then or_throw (z.negated t) else done t) ≡ done c
      → eval c ≡ truth true
      → eval t ≡ truth (not b)
  decided true t c eval m h e = m.negations t c true (or_throw_inv (z.negated t) h) e
  decided false t c eval m h e = let same : t ≡ c = cc in ap eval same ∙ e

  -- The precondition's expression is true, if there is one.
  abbrev pub PreTrue : (ℤ → ℤ) → (ℕ → Val) → Option Expr → Type 0
  PreTrue by_zero st none = Unit
  PreTrue by_zero st (some e) = value by_zero env st e ≡ some (truth true)

  pub record PreGathered (o : Option Expr) (s : State E) (gs : List E) (s' : State E) : Type 0 where
    pub table : IsTable z number names s'
    pub goes : Goes s s'
    pub means :
        (eval : E → Numeral) (st : ℕ → Val) (m : Model z eval)
        → Ends z number names eval st s'
        → AllTrue eval gs
        → PreTrue m.by_zero st o

  pre_of :
      (e : Expr) (s : State E) (t f : E) (s' : State E)
      → Gathered z number names (λ by_zero st. value by_zero env st e) s t s'
      → t ≡ f
      → PreGathered (some e) s (f ∷ []) s'
  pre_of e s t f s' g same = record {
    table = g.table;
    goes = g.goes;
    means = λ eval st m ends all. g.means eval st m ends ∙ ap some (ap eval same ∙ all.0);
  }

  pub gen_pre-PreGathered :
      (o : Option Expr) (s : State E) (gs : List E) (s' : State E)
      → NamedPre names o
      → IsTable z number names s
      → gen_pre z rand number env o s ≡ done (gs, s')
      → PreGathered o s gs s'
  unfolding gen_pre
  gen_pre-PreGathered none s gs s' named table h =
      let ends = done_injective h in
      let same : s ≡ s' = ap (λ (u : List E × State E). u.1) ends in
      rw (← same) (record { table = table; goes = Goes-refl s; means = λ eval st m e all. tt })
  gen_pre-PreGathered (some e) s gs s' named table h =
      let (r, eg, h1) = bind_inv (gen_expr z rand number env e s) _ h in
      let (t, s1) = r in
      let (f, ef, h2) = bind_inv (add_formula z rand number env t) _ h1 in
      let ends = done_injective h2 in
      let same : s1 ≡ s' = ap (λ (u : List E × State E). u.1) ends in
      let listed : f ∷ [] ≡ gs = ap (λ (u : List E × State E). u.0) ends in
      rw (← listed) (
        pre_of e s t f s'
          (gen_expr-Gathered z rand number env names e s t s' named table
            (eg ∙ ap (λ u. done (t, u)) same))
          (add_inv t f ef))

  pub first-IsTable : (st : ℕ → Val) (n : ℕ) → IsTable z number names (first_state st n)
  first-IsTable st n = record { entries = λ r i h. elim h [ ]; distinct = tt }

  -- The state after the loop is an outcome of the state before it.
  pub Outcome-Ends :
      (eval : E → Numeral) (s : State E) (items : List (Ref × ℕ)) (st' : ℕ → Val)
      → Lists items s.syms
      → ((r : Ref) (i : ℕ) → Has r i s.syms → (k : Kind) × (sees s.store r ≡ some (unset k)))
      → Outcome z rand number names eval s.exprs s.store items st'
      → Ends z number names eval st' s
  Outcome-Ends eval s items st' lists open_at out = record {
    stays = λ r x e.
        out.stays r (known x)
          (λ i h. let (k, ek) = open_at r i (lists.0 r i h) in let no = sym e ∙ ek in cc) e;
    still = open_at;
    filled = λ r i k h e. out.filled r i k (lists.1 r i h) e;
  }

  pub Ready-entry :
      (eval : E → Numeral) (s : State E) (items : List (Ref × ℕ))
      → IsTable z number names s
      → Lists items s.syms
      → ((r : Ref) (i : ℕ) → Has r i s.syms → (k : Kind) × (sees s.store r ≡ some (unset k)))
      → ((r : Ref) (i : ℕ) (k : Kind)
          → Has r i s.syms
          → sees s.store r ≡ some (unset k)
          → Represented k (eval (const_of z number names r k)))
      → (r : Ref) (i : ℕ) → Has r i items
      → Ready z rand number names eval s.exprs s.store r i
  Ready-entry eval s items table lists open_at fits r i h =
      let at = lists.0 r i h in
      let (k, ek) = open_at r i at in
      let (k', et, o, eo, later) = table.entries r i at in
      let q : o ≡ unset k = cc in
      let same : k' ≡ k = rw q at later in
      (k, et ∙ ap (λ c. some (const_of z number names r c)) same, ek, fits r i k at ek)
