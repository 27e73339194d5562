-- ===== src/Solve/Run.antt =====
-- The filling of the symbols and the whole of start_z3_gen (src/CodegenZ3Visitor.cpp).
use d_gen.Prelude.{
  ℕ, ◌+◌, ◌%◌, Bool, true, false, Option, none, some, List, [], ◌∷◌, String, ℤ, pos, negsuc, ltb_ℤ,
  eqb_ℤ, ◌==◌, if◌then◌else◌, get_elem?,
}
use d_gen.Errors.{ok, err, crash}
use d_gen.Ast.{Expr, PrecondNode}
use d_gen.Values.{Val, Numeral, int64, truth, fits_int64, fill_val}
use d_gen.Values.Access.{Accessed, at_idxs}
use d_gen.Solve.{gen_expr}
use d_gen.Solve.Setting.{
  Z3, Running, Result, done, thrown, crashed, ◌>>=◌, or_throw, Ref, State, write,
}

-- The exception of get_numeral_int64 in `fill_val`, told apart from a crash.
unfoldable pub get_numeral : Numeral → Result Numeral
get_numeral (int64 v) = if fits_int64 v then done (int64 v) else thrown
get_numeral (truth b) = done (truth b)

abbrev pub fill_symbol : Numeral → Val → ℕ → Accessed (Unit {0}) Val
fill_symbol num v n = elim (fill_val v num) [
  | ok w ↦ ok (some (tt, w, n))
  | err _ ↦ crash
  | crash ↦ crash
]

-- `sym->fill_val(eval)`, where `sym` is reached by its indices. Every array on the way has its size.
unfoldable pub fill_at : (ℕ → ℕ) → Ref → Numeral → (ℕ → Val) → Result (ℕ → Val)
fill_at rand r num st = elim (at_idxs rand (fill_symbol num) r.idxs (st r.input) 0) [
  | ok o ↦ elim o [ none ↦ crashed | some p ↦ done (write r.input p.1 st) ]
  | err _ ↦ crashed
  | crash ↦ crashed
]

-- The second symbol is a part of the first, and is freed when the first is initialised.
abbrev pub is_part : List ℤ → List ℤ → Bool
is_part [] [] = false
is_part [] (j ∷ js) = true
is_part (i ∷ is) [] = false
is_part (i ∷ is) (j ∷ js) = if eqb_ℤ i j then is_part is js else false

abbrev pub has_part : Ref → List (Ref × ℕ) → Bool
has_part r [] = false
has_part r ((q, _) ∷ l) =
    if (if r.input == q.input then is_part r.idxs q.idxs else false) then true else has_part r l

module _ {E : Type 0} (rand : ℕ → ℕ) (eval : E → Numeral) (exprs : List E) where
  -- The loop over `syms_to_expr_id`. It uses a freed symbol if a part of a filled array comes later.
  unfoldable pub fill_syms : List (Ref × ℕ) → (ℕ → Val) → Result (ℕ → Val)
  fill_syms [] st = done st
  fill_syms ((r, i) ∷ items) st = elim (get_elem? exprs i) [
    | none ↦ crashed
    | some t ↦ do
      num ← get_numeral (eval t)
      st' ← fill_at rand r num st
      if has_part r items then crashed else fill_syms items st'
  ]

module _ {E : Type 0} (z : Z3 E) (rand : ℕ → ℕ) (number : ℤ → String) (env : Running) where
  -- Whether the condition is negated; std::rand is called if the precondition has a probability.
  unfoldable pub decide : ℤ → ℕ → Bool × ℕ
  decide prob n =
      if eqb_ℤ prob (negsuc 0) then (false, n) else (ltb_ℤ prob (pos (rand n % 100)), n + 1)

  -- solver.add
  unfoldable pub add_formula : E → Result E
  add_formula f = if z.is_bool f then done f else thrown

  unfoldable pub gen_pre : Option Expr → State E → Result (List E × State E)
  gen_pre none s = done ([], s)
  gen_pre (some e) s = do
    (t, s') ← gen_expr z rand number env e s
    f ← add_formula t
    done (f ∷ [], s')

  -- start_z3_gen up to the test of `exprs`: the asserted formulas, the seed and the state
  unfoldable pub gather : Expr → PrecondNode → (ℕ → Val) → ℕ → Result (List E × ℕ × State E)
  gather cond pre st n = do
    (t, s) ←
        gen_expr z rand number env cond (record { store = st; calls = n; exprs = []; syms = [] })
    let (negate, m) = decide pre.prob (s.calls + 1)
    c ← if negate then or_throw (z.negated t) else done t
    f ← add_formula c
    (fs, s') ← gen_pre pre.expr (record s { calls = m })
    done (f ∷ fs, rand s.calls, s')

  -- What comes after it, with `exprs` last. `order` is the order in which the loop meets the entries of
  -- the map.
  unfoldable pub solve :
      (List (Ref × ℕ) → List (Ref × ℕ)) → List E → ℕ → State E → List E → Result ((ℕ → Val) × ℕ)
  solve order fs seed s [] = done (s.store, s.calls)
  solve order fs seed s (t ∷ ts) = elim (z.check seed fs) [
    | none ↦ done (s.store, s.calls)
    | some eval ↦ do st ← fill_syms rand eval (t ∷ ts) (order s.syms) s.store; done (st, s.calls)
  ]

  unfoldable pub start_z3_gen :
      (List (Ref × ℕ) → List (Ref × ℕ))
      → Expr
      → PrecondNode
      → (ℕ → Val)
      → ℕ
      → Result ((ℕ → Val) × ℕ)
  start_z3_gen order cond pre st n = do
    (fs, seed, s) ← gather cond pre st n
    solve order fs seed s s.exprs
