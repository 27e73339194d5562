-- ===== src/Solve/Gather/Leaves.antt =====
-- The symbols at the leaves of a condition (gen_expr of IdentNode, ArrLookupNode and PropertyLookupNode in
-- src/CodegenZ3Visitor.cpp): each gives a constant, which is registered if the symbol has no value.
use d_gen.Prelude.{
  ℕ, ◌≡◌, ◌⊎◌, inl, inr, refl, ◌∙◌, sym, ap, none, some, List, [], ◌∷◌, ◌++◌, String, ℤ,
  get_elem?-append_length, length,
}
use d_gen.Values.{
  Val, Numeral, int64, truth, null_sym, number_sym, char_sym, bool_sym, array_sym, string_sym,
  has_val,
}
use d_gen.Solve.{get_expr, push_expr, keep_expr}
use d_gen.Solve.Setting.{Z3, Ref, State, done}
use d_gen.Solve.Sight.{Kind, whole, character, boolean, unset, known, sight}
use d_gen.Solve.Meaning.{Model, known_of}
use d_gen.Solve.Gather.{
  sees, AllGrow-refl, const_of, name_of, Entry, IsTable, Ends, Goes, Goes-refl,
}
use d_gen.Solve.Gather.Table.{
  Has, Has-insert_sym, insert_sym-Has, insert_sym-keeps, Distinct-insert_sym, get_elem?-append_left,
}

module _ {E : Type 0} (z : Z3 E) (number : ℤ → String) (names : ℕ → String) where
  Entry-grows :
      (exprs : List E) (t : E) (st : ℕ → Val) (r : Ref) (i : ℕ)
      → Entry z number names exprs st r i
      → Entry z number names (exprs ++ t ∷ []) st r i
  Entry-grows exprs t st r i (k, e, o, eo, l) =
      (k, get_elem?-append_left exprs (t ∷ []) i (const_of z number names r k) e, o, eo, l)

  Entry-new :
      (r q : Ref) (t : E) (k : Kind) (s : State E) (j : ℕ)
      → IsTable z number names s
      → t ≡ const_of z number names r k
      → sees s.store r ≡ some (unset k)
      → ((q ≡ r) × (j ≡ length s.exprs)) ⊎ Has q j s.syms
      → Entry z number names (s.exprs ++ t ∷ []) s.store q j
  Entry-new r q t k s j table et e (inl (eq, ej)) =
      rw (eq, ej) (k, get_elem?-append_length s.exprs [] t ∙ ap some et, unset k, e, refl)
  Entry-new r q t k s j table et e (inr old) =
      Entry-grows s.exprs t s.store q j (table.entries q j old)

  push_expr-IsTable :
      (r : Ref) (t : E) (k : Kind) (s : State E)
      → IsTable z number names s
      → t ≡ const_of z number names r k
      → sees s.store r ≡ some (unset k)
      → IsTable z number names (push_expr z r t s)
  unfolding push_expr
  push_expr-IsTable r t k s table et e = record {
    entries =
        λ q j h. Entry-new r q t k s j table et e (Has-insert_sym r q (length s.exprs) j s.syms h);
    distinct = Distinct-insert_sym r (length s.exprs) s.syms table.distinct;
  }

  push_expr-Goes : (r : Ref) (t : E) (s : State E) → Goes s (push_expr z r t s)
  unfolding push_expr
  push_expr-Goes r t s = record {
    grows = AllGrow-refl s.store;
    keys = λ q j h. insert_sym-keeps r q (length s.exprs) j s.syms h;
  }

  -- What a step of the translation at the symbol `r` leaves: the expression of it means its value.
  pub record Leaf (r : Ref) (s : State E) (t : E) (s' : State E) : Type 0 where
    pub table : IsTable z number names s'
    pub goes : Goes s s'
    pub means :
        (eval : E → Numeral) (st : ℕ → Val)
        → Model z eval
        → Ends z number names eval st s'
        → known_of (sees st r) ≡ some (eval t)

  pub push_expr-Leaf :
      (r : Ref) (t : E) (k : Kind) (s : State E)
      → IsTable z number names s
      → t ≡ const_of z number names r k
      → sees s.store r ≡ some (unset k)
      → Leaf r s t (push_expr z r t s)
  unfolding push_expr
  push_expr-Leaf r t k s table et e = record {
    table = push_expr-IsTable r t k s table et e;
    goes = push_expr-Goes r t s;
    means = λ eval st m ends.
        ap known_of (ends.filled r (length s.exprs) k (insert_sym-Has r (length s.exprs) s.syms) e)
        ∙ ap (λ x. some (eval x)) (sym et);
  }

  pub known-Leaf :
      (r : Ref) (t : E) (x : Numeral) (s : State E)
      → IsTable z number names s
      → ((eval : E → Numeral) → Model z eval → eval t ≡ x)
      → sees s.store r ≡ some (known x)
      → Leaf r s t s
  known-Leaf r t x s table et e = record {
    table = table;
    goes = Goes-refl s;
    means = λ eval st m ends. ap known_of (ends.stays r x e) ∙ ap some (sym (et eval m));
  }

  -- get_expr and the test of has_val, at a symbol with this value and this name
  pub get_expr-Leaf :
      (r : Ref) (v : Val) (t : E) (s : State E)
      → IsTable z number names s
      → sees s.store r ≡ sight v
      → get_expr z (name_of z number names r) v ≡ done t
      → Leaf r s t (keep_expr z r (has_val v) t s)
  unfolding get_expr has_val
  get_expr-Leaf r null_sym t s table e g = cc
  get_expr-Leaf r (number_sym none) t s table e g = push_expr-Leaf r t whole s table (cc) e
  get_expr-Leaf r (number_sym (some v)) t s table e g =
      let et : z.int_val v ≡ t = cc in
      known-Leaf r t (int64 v) s table (λ eval m. ap eval (sym et) ∙ m.int_vals v) e
  get_expr-Leaf r (char_sym none) t s table e g = push_expr-Leaf r t character s table (cc) e
  get_expr-Leaf r (char_sym (some v)) t s table e g =
      let et : z.int_val v ≡ t = cc in
      known-Leaf r t (int64 v) s table (λ eval m. ap eval (sym et) ∙ m.int_vals v) e
  get_expr-Leaf r (bool_sym none) t s table e g = push_expr-Leaf r t boolean s table (cc) e
  get_expr-Leaf r (bool_sym (some b)) t s table e g =
      let et : z.bool_val b ≡ t = cc in
      known-Leaf r t (truth b) s table (λ eval m. ap eval (sym et) ∙ m.bool_vals b) e
  get_expr-Leaf r (array_sym _ _ _) t s table e g = cc
  get_expr-Leaf r (string_sym _ _ _) t s table e g = cc
