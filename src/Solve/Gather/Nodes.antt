-- ===== src/Solve/Gather/Nodes.antt =====
-- The nodes of a condition (gen_expr in src/CodegenZ3Visitor.cpp).
use d_gen.Prelude.{
  ℕ, ◌≡◌, inl, inr, refl, ◌∙◌, sym, ap, Bool, true, false, not, some, List, [], ◌∷◌, String, ℤ, pos,
  eqb_ℤ, if◌then◌else◌,
}
use d_gen.Errors.{Position, Outcome, ok, err, crash}
use d_gen.Types.{Ty, TypeKind, int, string, char, bool, arr, invalid, get_current_type}
use d_gen.Ast.{Symbol, IdentNode, Exprs}
use d_gen.Ast.Typing.{arr_lookup_type}
use d_gen.Values.{truth, has_val}
use d_gen.Values.Access.{at_idxs}
use d_gen.Solve.{
  read, get_expr, keep_expr, get_expr_from_void, element_name, gen_symbol, gen_element,
  gen_arr_lookup, gen_typed,
}
use d_gen.Solve.Setting.{Z3, Running, Ref, State, done, of_access, write}
use d_gen.Solve.Sight.{see}
use d_gen.Solve.Sight.Walk.{read-Grows}
use d_gen.Solve.Meaning.{known_of, cell, value_ident, value_element, value_typed}
use d_gen.Solve.Gather.{AllGrow, write_at, write-Grows, IsTable}
use d_gen.Solve.Gather.Leaves.{get_expr-Leaf}
use d_gen.Solve.Gather.Steps.{
  bind_inv, if_inv, if_true, if_false, of_access_inv, grow-IsTable, Gathered, const-Gathered,
  Leaf-Gathered, before-Gathered, same-Gathered,
}

not_if : (b : Bool) → not b ≡ (if b then false else true)
not_if true = refl
not_if false = refl

module _ {E : Type 0} (z : Z3 E) (rand : ℕ → ℕ) (number : ℤ → String) (env : Running)
    (names : ℕ → String) where
  cell-Gathered :
      (p : ℕ) (k : TypeKind) (s : State E) (t : E)
      → IsTable z number names s
      → get_expr_from_void z env p k ≡ done t
      → Gathered z number names (λ by_zero st. cell by_zero env st p k) s t s
  unfolding get_expr_from_void
  cell-Gathered p int s t table h =
      let e : z.int_val (env.int32_at p) ≡ t = cc in
      const-Gathered z number names _ s t table
        (λ eval st m. ap some (sym (m.int_vals (env.int32_at p)) ∙ ap eval e))
  cell-Gathered p char s t table h =
      let e : z.int_val (env.int8_at p) ≡ t = cc in
      const-Gathered z number names _ s t table
        (λ eval st m. ap some (sym (m.int_vals (env.int8_at p)) ∙ ap eval e))
  cell-Gathered p bool s t table h =
      let b = if eqb_ℤ (env.int8_at p) (pos 0) then false else true in
      let e : z.bool_val b ≡ t = cc in
      const-Gathered z number names _ s t table (λ eval st m.
        ap some
          (ap truth (not_if (eqb_ℤ (env.int8_at p) (pos 0))) ∙ sym (m.bool_vals b) ∙ ap eval e))
  cell-Gathered p string s t table h = cc
  cell-Gathered p arr s t table h = cc
  cell-Gathered p invalid s t table h = cc

  pub ident-Gathered :
      (sm : Symbol) (s : State E) (t : E) (s' : State E)
      → IsTable z number names s
      → sm.name ≡ names sm.addr
      → gen_symbol z rand number env sm s ≡ done (t, s')
      → Gathered z number names (λ by_zero st. value_ident by_zero env st sm) s t s'
  unfolding gen_symbol
  ident-Gathered sm s t s' table name h = elim (if_inv sm.is_input h) [
    | inl (e, h') ↦
        let r : Ref = record { input = sm.addr; idxs = [] } in
        let v = s.store sm.addr in
        let (t0, et, q) =
          bind_inv (get_expr z sm.name v) (λ u. done (u, keep_expr z r (has_val v) u s)) h' in
        let same : t0 ≡ t = cc in
        let same' : keep_expr z r (has_val v) t0 s ≡ s' = cc in
        rw (← same, ← same')
          (Leaf-Gathered z number names _ r s t0 (keep_expr z r (has_val v) t0 s)
            (get_expr-Leaf z number names r v t0 s table refl
              (ap (λ n. get_expr z n v) (sym name) ∙ et))
            (λ by_zero st. if_true sm.is_input _ _ e))
    | inr (e, h') ↦
        let k = get_current_type sm.type in
        let (t0, et, q) =
          bind_inv (get_expr_from_void z env (env.alloca sm.addr) k) (λ u. done (u, s)) h' in
        let same : t0 ≡ t = cc in
        let same' : s ≡ s' = cc in
        rw (← same, ← same')
          (same-Gathered z number names _ _ s t0 s (λ by_zero st. if_false sm.is_input _ _ e)
            (cell-Gathered (env.alloca sm.addr) k s t0 table et))
  ]

  element-Gathered :
      (sm : Symbol) (is : List ℤ) (s : State E) (t : E) (s' : State E)
      → IsTable z number names s
      → sm.name ≡ names sm.addr
      → gen_element z rand number env sm is s ≡ done (t, s')
      → Gathered z number names (λ by_zero st. known_of (see is (st sm.addr))) s t s'
  unfolding gen_element
  element-Gathered sm [] s t s' table name h = cc
  element-Gathered sm (i ∷ is) s t s' table name h =
      let r : Ref = record { input = sm.addr; idxs = i ∷ is } in
      let (found, ef, h1) =
        bind_inv (of_access (at_idxs rand read (i ∷ is) (s.store sm.addr) s.calls)) _ h in
      let (v, w, n) = found in
      let s1 : State E = record s { store = write sm.addr w s.store; calls = n } in
      let (t0, et, q) =
        bind_inv (get_expr z (element_name number sm.name (i ∷ is)) v)
          (λ u. done (u, keep_expr z r (has_val v) u s1)) h1 in
      let (seen, grows) =
        read-Grows rand (i ∷ is) (s.store sm.addr) s.calls v w n (of_access_inv _ ef) in
      let later : AllGrow s.store s1.store = write-Grows sm.addr w s.store grows in
      let leaf =
        get_expr-Leaf z number names r v t0 s1
          (grow-IsTable z number names s s1.store n table later)
          (ap (see (i ∷ is)) (write_at sm.addr w s.store) ∙ seen)
          (ap (λ a. get_expr z (element_name number a (i ∷ is)) v) (sym name) ∙ et) in
      let same : t0 ≡ t = cc in
      let same' : keep_expr z r (has_val v) t0 s1 ≡ s' = cc in
      rw (← same, ← same')
        (before-Gathered z number names _ s s1 t0 (keep_expr z r (has_val v) t0 s1)
          (record { grows = later; keys = λ q j at. (j, at) })
          (Leaf-Gathered z number names _ r s1 t0 (keep_expr z r (has_val v) t0 s1) leaf
            (λ by_zero st. refl)))

  type-Gathered :
      (o : Outcome Ty) (p : ℕ) (s : State E) (t : E) (s' : State E)
      → IsTable z number names s
      → gen_typed z rand number env p o s ≡ done (t, s')
      → Gathered z number names (λ by_zero st. value_typed by_zero env st p o) s t s'
  unfolding gen_typed
  type-Gathered (ok ty) p s t s' table h =
      let (t0, et, q) =
        bind_inv (get_expr_from_void z env p (get_current_type ty)) (λ u. done (u, s)) h in
      let same : t0 ≡ t = cc in
      let same' : s ≡ s' = cc in
      rw (← same, ← same') (cell-Gathered p (get_current_type ty) s t0 table et)
  type-Gathered (err _) p s t s' table h = cc
  type-Gathered crash p s t s' table h = cc

  pub arr_lookup-Gathered :
      (p : Position) (i : IdentNode) (es : Exprs) (sm : Symbol) (s : State E) (t : E) (s' : State E)
      → IsTable z number names s
      → sm.name ≡ names sm.addr
      → gen_arr_lookup z rand number env p i es sm s ≡ done (t, s')
      → Gathered z number names (λ by_zero st. value_element by_zero env st p i es sm) s t s'
  unfolding gen_arr_lookup
  arr_lookup-Gathered p i es sm s t s' table name h = elim (if_inv sm.is_input h) [
    | inl (e, h') ↦
        same-Gathered z number names _ _ s t s' (λ by_zero st. if_true sm.is_input _ _ e)
          (element-Gathered sm (env.current_idxs p i es) s t s' table name h')
    | inr (e, h') ↦
        same-Gathered z number names _ _ s t s' (λ by_zero st. if_false sm.is_input _ _ e)
          (type-Gathered (arr_lookup_type p i es) (env.current_ptr p i es) s t s' table h')
  ]
