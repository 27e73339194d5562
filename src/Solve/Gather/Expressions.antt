-- ===== src/Solve/Gather/Expressions.antt =====
-- The translation of whole expressions (gen_expr in src/CodegenZ3Visitor.cpp).
use d_gen.Prelude.{ℕ, ◌^◌, ◌≡◌, ◌∙◌, sym, ap, ap₂, Option, none, some, String, ℤ, pos}
use d_gen.Errors.{Position}
use d_gen.Ast.{
  Symbol, Expr, char_node, string_node, number_node, bool_node, ident_node, bin_op_node,
  arr_lookup_node, arr_create_node, property_lookup_node, BinOpType, sum, sub, or, lt, le, gt, ge,
  eq, neq, mul, div, and,
}
use d_gen.Values.{Val, Numeral, to_signed, int64}
use d_gen.Solve.{operation, gen_symbol, gen_arr_lookup, gen_property, gen_expr}
use d_gen.Solve.Setting.{Z3, Running, State, Result, done, crashed, or_throw}
use d_gen.Solve.Meaning.{Model, apply, apply?, value_ident, value_element, value_len, value}
use d_gen.Solve.Gather.{IsTable, Goes-trans}
use d_gen.Solve.Gather.Steps.{
  bind_inv, or_throw_inv, Named, NamedSymbol, Ends-back, Gathered, const-Gathered,
}
use d_gen.Solve.Gather.Nodes.{ident-Gathered, arr_lookup-Gathered}
use d_gen.Solve.Gather.Lengths.{property-Gathered}

operation_lem :
    {E : Type 0} (z : Z3 E) (eval : E → Numeral) (m : Model z eval) (o : BinOpType) (a b c : E)
    → operation z o a b ≡ some c
    → apply m.by_zero o (eval a) (eval b) ≡ some (eval c)
unfolding operation
operation_lem z eval m sum = m.sums
operation_lem z eval m sub = m.differences
operation_lem z eval m or = m.either
operation_lem z eval m lt = m.less
operation_lem z eval m le = m.less_eq
operation_lem z eval m gt = m.greater
operation_lem z eval m ge = m.greater_eq
operation_lem z eval m eq = m.equal
operation_lem z eval m neq = m.distinct
operation_lem z eval m mul = m.products
operation_lem z eval m div = m.quotients
operation_lem z eval m and = m.both

module _ {E : Type 0} (z : Z3 E) (rand : ℕ → ℕ) (number : ℤ → String) (env : Running)
    (names : ℕ → String) where
  symbol-Gathered :
      (o : Option Symbol) (f : Symbol → State E → Result (E × State E))
      (V : (ℤ → ℤ) → (ℕ → Val) → Symbol → Option Numeral) (s : State E) (t : E) (s' : State E)
      → NamedSymbol names o
      → ((sm : Symbol)
          → sm.name ≡ names sm.addr
          → f sm s ≡ done (t, s')
          → Gathered z number names (λ by_zero st. V by_zero st sm) s t s')
      → ◌≡◌ {A = Result (E × State E)} (elim o [ none ↦ crashed | some sm ↦ f sm s ]) (done (t, s'))
      → Gathered z number names
          (λ by_zero st. elim o [ none ↦ none | some sm ↦ V by_zero st sm ])
          s
          t
          s'
  symbol-Gathered none f V s t s' name each h = cc
  symbol-Gathered (some sm) f V s t s' name each h = each sm name h

  moved :
      (V : (ℤ → ℤ) → (ℕ → Val) → Option Numeral) (s : State E) (u : E) (s2 : State E) (t : E)
      (s' : State E)
      → Gathered z number names V s u s2
      → ◌≡◌ {A = Result (E × State E)} (done (u, s2)) (done (t, s'))
      → Gathered z number names V s t s'
  moved V s u s2 t s' g h =
      let same : u ≡ t = cc in let same' : s2 ≡ s' = cc in rw (← same, ← same') g

  bin_op-Gathered :
      (p : Position) (o : BinOpType) (a b : Expr) (s : State E) (lhs : E) (s1 : State E) (rhs : E)
      (s2 : State E) (u : E)
      → Gathered z number names (λ by_zero st. value by_zero env st a) s lhs s1
      → Gathered z number names (λ by_zero st. value by_zero env st b) s1 rhs s2
      → operation z o lhs rhs ≡ some u
      → Gathered z number names (λ by_zero st. value by_zero env st (bin_op_node p o a b)) s u s2
  bin_op-Gathered p o a b s lhs s1 rhs s2 u ga gb e = record {
    table = gb.table;
    goes = Goes-trans s s1 s2 ga.goes gb.goes;
    means = λ eval st m ends.
        ap₂ (apply? m.by_zero o)
          (ga.means eval st m (Ends-back z number names eval st s1 s2 ga.table gb.goes ends))
          (gb.means eval st m ends)
        ∙ operation_lem z eval m o lhs rhs u e;
  }

  constant :
      (n : ℤ) (s : State E) (t : E) (s' : State E)
      → IsTable z number names s
      → ◌≡◌ {A = Result (E × State E)} (done (z.int_val n, s)) (done (t, s'))
      → Gathered z number names (λ by_zero st. some (int64 n)) s t s'
  constant n s t s' table h =
      let same : z.int_val n ≡ t = cc in
      let same' : s ≡ s' = cc in
      rw (← same, ← same')
        (const-Gathered z number names _ s (z.int_val n) table
          (λ eval st m. ap some (sym (m.int_vals n))))

  -- The expression that a condition is translated to means its value, once the symbols that were
  -- registered have theirs.
  pub gen_expr-Gathered :
      (e : Expr) (s : State E) (t : E) (s' : State E)
      → Named names e
      → IsTable z number names s
      → gen_expr z rand number env e s ≡ done (t, s')
      → Gathered z number names (λ by_zero st. value by_zero env st e) s t s'
  unfolding gen_expr
  gen_expr-Gathered (char_node p c) s t s' named table h =
      constant (to_signed (2 ^ 8) (pos c)) s t s' table h
  gen_expr-Gathered (string_node p c) s t s' named table h = cc
  gen_expr-Gathered (number_node p n) s t s' named table h = constant n s t s' table h
  gen_expr-Gathered (bool_node p b) s t s' named table h =
      let same : z.bool_val b ≡ t = cc in
      let same' : s ≡ s' = cc in
      rw (← same, ← same')
        (const-Gathered z number names _ s (z.bool_val b) table
          (λ eval st m. ap some (sym (m.bool_vals b))))
  gen_expr-Gathered (ident_node i) s t s' named table h =
      symbol-Gathered i.symbol (gen_symbol z rand number env)
        (λ by_zero st. value_ident by_zero env st) s t s' named
        (λ sm name g. ident-Gathered z rand number env names sm s t s' table name g) h
  gen_expr-Gathered (arr_lookup_node p i es) s t s' named table h =
      symbol-Gathered i.symbol (gen_arr_lookup z rand number env p i es)
        (λ by_zero st. value_element by_zero env st p i es) s t s' named
        (λ sm name g. arr_lookup-Gathered z rand number env names p i es sm s t s' table name g) h
  gen_expr-Gathered (arr_create_node p ty n) s t s' named table h = cc
  gen_expr-Gathered (property_lookup_node p i n) s t s' named table h =
      symbol-Gathered i.symbol (gen_property z rand number env)
        (λ by_zero st. value_len by_zero env st) s t s' named
        (λ sm name g. property-Gathered z rand number env names sm s t s' table name g) h
  gen_expr-Gathered (bin_op_node p o a b) s t s' (na, nb) table h =
      let (r1, e1, h1) = bind_inv (gen_expr z rand number env a s) _ h in
      let (lhs, s1) = r1 in
      let (r2, e2, h2) = bind_inv (gen_expr z rand number env b s1) _ h1 in
      let (rhs, s2) = r2 in
      let (u, eu, q) = bind_inv (or_throw (operation z o lhs rhs)) (λ v. done (v, s2)) h2 in
      let ga = gen_expr-Gathered a s lhs s1 na table e1 in
      let gb = gen_expr-Gathered b s1 rhs s2 nb ga.table e2 in
      moved (λ by_zero st. value by_zero env st (bin_op_node p o a b)) s u s2 t s'
        (bin_op-Gathered p o a b s lhs s1 rhs s2 u ga gb (or_throw_inv (operation z o lhs rhs) eu))
        q
