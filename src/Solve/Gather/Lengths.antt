-- ===== src/Solve/Gather/Lengths.antt =====
-- The lengths of arrays and texts in a condition (gen_expr(PropertyLookupNode *) in src/CodegenZ3Visitor.cpp).
use d_gen.Prelude.{ℕ, ◌≡◌, inl, inr, refl, sym, ap, none, some, [], String, ℤ, pos, text_append}
use d_gen.Types.{TypeKind, int, string, char, bool, arr, invalid, get_current_type}
use d_gen.Ast.{Symbol}
use d_gen.Values.{Val, int64, null_sym, number_sym, char_sym, bool_sym, array_sym, string_sym}
use d_gen.Solve.{push_expr, gen_len, local_len, gen_property}
use d_gen.Solve.Setting.{Z3, Running, Ref, State, Result, done}
use d_gen.Solve.Sight.{measure, unset, sight}
use d_gen.Solve.Meaning.{local_size, value_len}
use d_gen.Solve.Gather.{IsTable}
use d_gen.Solve.Gather.Leaves.{Leaf, push_expr-Leaf, known-Leaf}
use d_gen.Solve.Gather.Steps.{
  if_inv, if_true, if_false, Gathered, const-Gathered, Leaf-Gathered, same-Gathered,
}

module _ {E : Type 0} (z : Z3 E) (rand : ℕ → ℕ) (number : ℤ → String) (env : Running)
    (names : ℕ → String) where
  unset_len-Gathered :
      (sm : Symbol) (s : State E) (t : E) (s' : State E)
      → IsTable z number names s
      → sm.name ≡ names sm.addr
      → sight (s.store sm.addr) ≡ some (unset measure)
      → ◌≡◌ {A = Result (E × State E)}
          (done (
            z.int_const (text_append sm.name ".len"),
            push_expr z
                (record { input = sm.addr; idxs = [] })
                (z.int_const (text_append sm.name ".len"))
                s,
          ))
          (done (t, s'))
      → Leaf z number names (record { input = sm.addr; idxs = [] }) s t s'
  unset_len-Gathered sm s t s' table name e h =
      let r : Ref = record { input = sm.addr; idxs = [] } in
      let u = z.int_const (text_append sm.name ".len") in
      let same : u ≡ t = cc in
      let same' : push_expr z r u s ≡ s' = cc in
      rw (← same, ← same')
        (push_expr-Leaf z number names r u measure s table
          (ap (λ n. z.int_const (text_append n ".len")) name) e)

  size-Gathered :
      (sm : Symbol) (s : State E) (t : E) (s' : State E)
      → IsTable z number names s
      → ◌≡◌ {A = Result (E × State E)}
          (done (z.int_val (pos (env.size_at (env.alloca sm.addr))), s))
          (done (t, s'))
      → Gathered z number names
          (λ by_zero st. some (int64 (pos (env.size_at (env.alloca sm.addr)))))
          s
          t
          s'
  size-Gathered sm s t s' table h =
      let n = pos (env.size_at (env.alloca sm.addr)) in
      let same : z.int_val n ≡ t = cc in
      let same' : s ≡ s' = cc in
      rw (← same, ← same')
        (const-Gathered z number names _ s (z.int_val n) table
          (λ eval st m. ap some (sym (m.int_vals n))))

  len-Gathered :
      (sm : Symbol) (v : Val) (s : State E) (t : E) (s' : State E)
      → IsTable z number names s
      → sm.name ≡ names sm.addr
      → s.store sm.addr ≡ v
      → gen_len z rand number env sm v s ≡ done (t, s')
      → Leaf z number names (record { input = sm.addr; idxs = [] }) s t s'
  unfolding gen_len
  len-Gathered sm (array_sym ty (some n) vs) s t s' table name ev h =
      let same : z.int_val (pos n) ≡ t = cc in
      let same' : s ≡ s' = cc in
      rw (← same, ← same')
        (known-Leaf z number names _ (z.int_val (pos n)) (int64 (pos n)) s table
          (λ eval m. m.int_vals (pos n)) (ap sight ev))
  len-Gathered sm (string_sym ty (some n) vs) s t s' table name ev h =
      let same : z.int_val (pos n) ≡ t = cc in
      let same' : s ≡ s' = cc in
      rw (← same, ← same')
        (known-Leaf z number names _ (z.int_val (pos n)) (int64 (pos n)) s table
          (λ eval m. m.int_vals (pos n)) (ap sight ev))
  len-Gathered sm (array_sym ty none vs) s t s' table name ev h =
      unset_len-Gathered sm s t s' table name (ap sight ev) h
  len-Gathered sm (string_sym ty none vs) s t s' table name ev h =
      unset_len-Gathered sm s t s' table name (ap sight ev) h
  len-Gathered sm null_sym s t s' table name ev h = cc
  len-Gathered sm (number_sym _) s t s' table name ev h = cc
  len-Gathered sm (char_sym _) s t s' table name ev h = cc
  len-Gathered sm (bool_sym _) s t s' table name ev h = cc

  local_len-Gathered :
      (sm : Symbol) (k : TypeKind) (s : State E) (t : E) (s' : State E)
      → IsTable z number names s
      → local_len z rand number env sm k s ≡ done (t, s')
      → Gathered z number names
          (λ by_zero st. local_size by_zero env st (env.alloca sm.addr) k)
          s
          t
          s'
  unfolding local_len
  local_len-Gathered sm arr s t s' table h = size-Gathered sm s t s' table h
  local_len-Gathered sm string s t s' table h = size-Gathered sm s t s' table h
  local_len-Gathered sm int s t s' table h = cc
  local_len-Gathered sm char s t s' table h = cc
  local_len-Gathered sm bool s t s' table h = cc
  local_len-Gathered sm invalid s t s' table h = cc

  pub property-Gathered :
      (sm : Symbol) (s : State E) (t : E) (s' : State E)
      → IsTable z number names s
      → sm.name ≡ names sm.addr
      → gen_property z rand number env sm s ≡ done (t, s')
      → Gathered z number names (λ by_zero st. value_len by_zero env st sm) s t s'
  unfolding gen_property
  property-Gathered sm s t s' table name h = elim (if_inv sm.is_input h) [
    | inl (e, h') ↦
        Leaf-Gathered z number names _ _ s t s'
          (len-Gathered sm (s.store sm.addr) s t s' table name refl h')
          (λ by_zero st. if_true sm.is_input _ _ e)
    | inr (e, h') ↦
        same-Gathered z number names _ _ s t s' (λ by_zero st. if_false sm.is_input _ _ e)
          (local_len-Gathered sm (get_current_type sm.type) s t s' table h')
  ]
