-- ===== src/Solve/Sight/Access.antt =====
-- What the access to an element of an input sees and leaves (ArraySym::get_symbol_by_idxs, src/Symbol.cpp).
use d_gen.Prelude.{
  ℕ, ◌+◌, ◌%◌, ◌≡◌, ◌≢◌, inl, inr, refl, ◌∙◌, ap, false, Option, none, some, ℤ, pos, negsuc, leb,
  if◌then◌else◌, Bool-cases,
}
use d_gen.Errors.{ok}
use d_gen.Types.{Ty}
use d_gen.Values.{
  Val, Vals, null_sym, number_sym, char_sym, bool_sym, array_sym, string_sym, int64, get_size,
  init_arr,
}
use d_gen.Values.Access.{Accessed, at_elem, at_idx, at_array}
use d_gen.Solve.Sight.{known, sight, elem, child, wrap_inv, Replaced, at_elem_inv, at_elem_runs}

at_idx_inv :
    {A : Type 0} (f : Val → Accessed A Val) (i : ℤ) (s : ℕ) (us : Vals) (make : Vals → Val) (a : A)
    (w : Val) (m : ℕ)
    → at_idx f i s us make ≡ ok (some (a, w, m))
    → (j : ℕ) × (ws : Vals) × (i ≡ pos j)
      × (leb s j ≡ false)
      × (at_elem f j us ≡ ok (some (a, ws, m)))
      × (w ≡ make ws)
unfolding at_idx
at_idx_inv f (negsuc j) s us make a w m h = cc
at_idx_inv f (pos j) s us make a w m h = elim (Bool-cases (leb s j)) [
  | inl e ↦ let h' = rw e at h in cc
  | inr e ↦
      let h' = rw e at h in
      let (ws, q, same) = wrap_inv (at_elem f j us) make h' in (j, ws, refl, e, q, same)
]

-- The array after its size has been drawn.
abbrev pub sized : (ℕ → ℕ) → Val → ℕ → Val
sized rand (array_sym t none vs) n = array_sym t (some (rand n % 10)) (init_arr t (rand n % 10))
sized rand (string_sym t none vs) n = string_sym t (some (rand n % 10)) (init_arr t (rand n % 10))
sized rand v n = v

-- The array `v` has a size, and in `w` the element with index `i`, which was `u`, is `u'`.
pub record Changed (i : ℤ) (v w u u' : Val) : Type 0 where
  pub size : ℕ
  pub sight_before : sight v ≡ some (known (int64 (pos size)))
  pub sight_after : sight w ≡ some (known (int64 (pos size)))
  pub before : child i v ≡ some u
  pub after : child i w ≡ some u'
  pub others : (j : ℤ) → j ≢ i → child j w ≡ child j v

others_array :
    (t : Ty) (s j : ℕ) (u : Val) (vs ws : Vals)
    → Replaced j u vs ws
    → (k : ℤ) → k ≢ pos j
    → child k (array_sym t (some s) ws) ≡ child k (array_sym t (some s) vs)
others_array t s j u vs ws r (pos i) ne =
    ap (λ (o : Option Val). if leb s i then none else o) (r.1 i (λ q. ne (ap pos q)))
others_array t s j u vs ws r (negsuc i) ne = refl

Changed-array :
    (t : Ty) (s j : ℕ) (vs ws : Vals) (u u' : Val)
    → leb s j ≡ false
    → elem j vs ≡ some u
    → Replaced j u' vs ws
    → Changed (pos j) (array_sym t (some s) vs) (array_sym t (some s) ws) u u'
Changed-array t s j vs ws u u' lt e r = record {
  size = s;
  sight_before = refl;
  sight_after = refl;
  before = rw lt e;
  after = rw lt r.0;
  others = others_array t s j u' vs ws r;
}

others_string :
    (t : Ty) (s j : ℕ) (u : Val) (vs ws : Vals)
    → Replaced j u vs ws
    → (k : ℤ) → k ≢ pos j
    → child k (string_sym t (some s) ws) ≡ child k (string_sym t (some s) vs)
others_string t s j u vs ws r (pos i) ne =
    ap (λ (o : Option Val). if leb s i then none else o) (r.1 i (λ q. ne (ap pos q)))
others_string t s j u vs ws r (negsuc i) ne = refl

Changed-string :
    (t : Ty) (s j : ℕ) (vs ws : Vals) (u u' : Val)
    → leb s j ≡ false
    → elem j vs ≡ some u
    → Replaced j u' vs ws
    → Changed (pos j) (string_sym t (some s) vs) (string_sym t (some s) ws) u u'
Changed-string t s j vs ws u u' lt e r = record {
  size = s;
  sight_before = refl;
  sight_after = refl;
  before = rw lt e;
  after = rw lt r.0;
  others = others_string t s j u' vs ws r;
}

module _ {A : Type 0} (rand : ℕ → ℕ) (f : Val → ℕ → Accessed A Val) where
  array_inv :
      (i : ℤ) (t : Ty) (s : ℕ) (vs : Vals) (n : ℕ) (a : A) (w : Val) (m : ℕ)
      → at_idx (λ v. f v n) i s vs (array_sym t (some s)) ≡ ok (some (a, w, m))
      → (u u' : Val) × (f u n ≡ ok (some (a, u', m))) × Changed i (array_sym t (some s) vs) w u u'
  array_inv i t s vs n a w m h =
      let (j, ws, ei, lt, q, ew) = at_idx_inv (λ v. f v n) i s vs (array_sym t (some s)) a w m h in
      let (u, u', e, r, c) = at_elem_inv (λ v. f v n) j vs a ws m q in
      (u, u', r, rw (ei, ew) (Changed-array t s j vs ws u u' lt e c))

  string_inv :
      (i : ℤ) (t : Ty) (s : ℕ) (vs : Vals) (n : ℕ) (a : A) (w : Val) (m : ℕ)
      → at_idx (λ v. f v n) i s vs (string_sym t (some s)) ≡ ok (some (a, w, m))
      → (u u' : Val) × (f u n ≡ ok (some (a, u', m))) × Changed i (string_sym t (some s) vs) w u u'
  string_inv i t s vs n a w m h =
      let (j, ws, ei, lt, q, ew) = at_idx_inv (λ v. f v n) i s vs (string_sym t (some s)) a w m h in
      let (u, u', e, r, c) = at_elem_inv (λ v. f v n) j vs a ws m q in
      (u, u', r, rw (ei, ew) (Changed-string t s j vs ws u u' lt e c))

  -- An access goes on at an element of the array, whose size it has drawn if there was none.
  pub at_array_inv :
      (i : ℤ) (v : Val) (n : ℕ) (a : A) (w : Val) (m : ℕ)
      → at_array rand f i v n ≡ ok (some (a, w, m))
      → (u u' : Val) × (k : ℕ) × (f u k ≡ ok (some (a, u', m))) × Changed i (sized rand v n) w u u'
  unfolding at_array get_size
  at_array_inv i (array_sym t none vs) n a w m h =
      let (u, u', r, c) = array_inv i t (rand n % 10) (init_arr t (rand n % 10)) (n + 1) a w m h in
      (u, u', n + 1, r, c)
  at_array_inv i (array_sym t (some s) vs) n a w m h =
      let (u, u', r, c) = array_inv i t s vs n a w m h in (u, u', n, r, c)
  at_array_inv i (string_sym t none vs) n a w m h =
      let (u, u', r, c) = string_inv i t (rand n % 10) (init_arr t (rand n % 10)) (n + 1) a w m h in
      (u, u', n + 1, r, c)
  at_array_inv i (string_sym t (some s) vs) n a w m h =
      let (u, u', r, c) = string_inv i t s vs n a w m h in (u, u', n, r, c)
  at_array_inv i null_sym n a w m h = cc
  at_array_inv i (number_sym _) n a w m h = cc
  at_array_inv i (char_sym _) n a w m h = cc
  at_array_inv i (bool_sym _) n a w m h = cc

  -- Where there is an element, an access that returns there returns.
  idx_runs :
      (i s : ℕ) (vs : Vals) (n : ℕ) (a : A) (u u' : Val) (m : ℕ)
      → (make : Vals → Val) → leb s i ≡ false
      → elem i vs ≡ some u
      → f u n ≡ ok (some (a, u', m))
      → (ws : Vals) × (at_idx (λ v. f v n) (pos i) s vs make ≡ ok (some (a, make ws, m)))
        × Replaced i u' vs ws
  unfolding at_idx
  idx_runs i s vs n a u u' m make lt e r =
      let (ws, q) = at_elem_runs (λ v. f v n) i vs u u' a m e r in
      let (x, y, ex, ey, c) = at_elem_inv (λ v. f v n) i vs a ws m q in
      let same : x ≡ u = cc in
      let same' : y ≡ u' = let r' = ap (λ v. f v n) same ∙ r in cc in
      (ws, rw (lt, q) refl, (c.0 ∙ ap some same', c.1))

  pub at_array_runs :
      (i : ℤ) (v : Val) (n : ℕ) (a : A) (u u' : Val) (m : ℕ)
      → child i v ≡ some u
      → f u n ≡ ok (some (a, u', m))
      → (w : Val) × (at_array rand f i v n ≡ ok (some (a, w, m))) × Changed i v w u u'
  unfolding at_array get_size
  at_array_runs (pos i) (array_sym t (some s) vs) n a u u' m e r = elim (Bool-cases (leb s i)) [
    | inl out ↦ let e' = rw out at e in cc
    | inr isin ↦
        let e' = rw isin at e in
        let (ws, q, c) = idx_runs i s vs n a u u' m (array_sym t (some s)) isin e' r in
        (array_sym t (some s) ws, q, Changed-array t s i vs ws u u' isin e' c)
  ]
  at_array_runs (pos i) (string_sym t (some s) vs) n a u u' m e r = elim (Bool-cases (leb s i)) [
    | inl out ↦ let e' = rw out at e in cc
    | inr isin ↦
        let e' = rw isin at e in
        let (ws, q, c) = idx_runs i s vs n a u u' m (string_sym t (some s)) isin e' r in
        (string_sym t (some s) ws, q, Changed-string t s i vs ws u u' isin e' c)
  ]
  at_array_runs (pos i) (array_sym t none vs) n a u u' m e r = cc
  at_array_runs (pos i) (string_sym t none vs) n a u u' m e r = cc
  at_array_runs (pos i) null_sym n a u u' m e r = cc
  at_array_runs (pos i) (number_sym _) n a u u' m e r = cc
  at_array_runs (pos i) (char_sym _) n a u u' m e r = cc
  at_array_runs (pos i) (bool_sym _) n a u u' m e r = cc
  at_array_runs (negsuc i) v n a u u' m e r = cc
