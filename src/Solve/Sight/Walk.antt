-- ===== src/Solve/Sight/Walk.antt =====
-- What a read and a write by a list of indices do to all that is known (ArraySym::get_symbol_by_idxs,
-- src/Symbol.cpp).
use d_gen.Prelude.{
  ℕ, ◌%◌, ◌≡◌, ◌≢◌, ◌⊎◌, inl, inr, refl, ◌∙◌, sym, ap, none, some, List, [], ◌∷◌, ℤ, pos, negsuc,
  eqb_ℤ, eqb_ℤ_iff, Bool-cases, Option-cases,
}
use d_gen.Errors.{ok}
use d_gen.Types.{Ty}
use d_gen.Values.{Val, Vals, null_sym, number_sym, char_sym, bool_sym, array_sym, string_sym, int64}
use d_gen.Values.Access.{Accessed, at_idxs}
use d_gen.Solve.{read}
use d_gen.Solve.Sight.{
  Sight, unset, known, measure, sight, child, look, see, Grows, Grows-refl, Grows-trans, Later-refl,
}
use d_gen.Solve.Sight.Access.{sized, Changed, at_array_inv, at_array_runs}

new_array-Grows :
    (n : ℕ) (t : Ty) (vs : Vals) (w : Val)
    → sight w ≡ some (known (int64 (pos n)))
    → Grows (array_sym t none vs) w
new_array-Grows n t vs w e [] (unset k) h =
    let q : k ≡ measure = cc in (known (int64 (pos n)), e, (q, n, refl))
new_array-Grows n t vs w e [] (known y) h = cc
new_array-Grows n t vs w e (pos i ∷ is) o h = cc
new_array-Grows n t vs w e (negsuc i ∷ is) o h = cc

new_string-Grows :
    (n : ℕ) (t : Ty) (vs : Vals) (w : Val)
    → sight w ≡ some (known (int64 (pos n)))
    → Grows (string_sym t none vs) w
new_string-Grows n t vs w e [] (unset k) h =
    let q : k ≡ measure = cc in (known (int64 (pos n)), e, (q, n, refl))
new_string-Grows n t vs w e [] (known y) h = cc
new_string-Grows n t vs w e (pos i ∷ is) o h = cc
new_string-Grows n t vs w e (negsuc i ∷ is) o h = cc

sized-Grows : (rand : ℕ → ℕ) (v : Val) (n : ℕ) → Grows v (sized rand v n)
sized-Grows rand (array_sym t none vs) n =
    new_array-Grows (rand n % 10) t vs (sized rand (array_sym t none vs) n) refl
sized-Grows rand (string_sym t none vs) n =
    new_string-Grows (rand n % 10) t vs (sized rand (string_sym t none vs) n) refl
sized-Grows rand (array_sym t (some s) vs) n = Grows-refl (array_sym t (some s) vs)
sized-Grows rand (string_sym t (some s) vs) n = Grows-refl (string_sym t (some s) vs)
sized-Grows rand null_sym n = Grows-refl null_sym
sized-Grows rand (number_sym v) n = Grows-refl (number_sym v)
sized-Grows rand (char_sym v) n = Grows-refl (char_sym v)
sized-Grows rand (bool_sym v) n = Grows-refl (bool_sym v)

see_at : (i : ℤ) (is : List ℤ) (v u : Val) → child i v ≡ some u → see (i ∷ is) v ≡ see is u
see_at i is v u e = rw (e, see, look) refl

see_same :
    (i : ℤ) (is : List ℤ) (v w : Val) → child i w ≡ child i v → see (i ∷ is) w ≡ see (i ∷ is) v
see_same i is v w e = rw (e, see, look) refl

look_at : (i : ℤ) (is : List ℤ) (v u : Val) → child i v ≡ some u → look (i ∷ is) v ≡ look is u
look_at i is v u e = rw (e, look) refl

same_or_not : (i j : ℤ) → (j ≡ i) ⊎ (j ≢ i)
same_or_not i j = elim (Bool-cases (eqb_ℤ j i)) [
  | inl e ↦ inl ((eqb_ℤ_iff j i).0 e)
  | inr e ↦ inr (λ q. let e' = (eqb_ℤ_iff j i).1 q in cc)
]

Changed-Grows : (i : ℤ) (v w u u' : Val) → Changed i v w u u' → Grows u u' → Grows v w
Changed-Grows i v w u u' c g [] o h = (o, c.sight_after ∙ sym c.sight_before ∙ h, Later-refl o)
Changed-Grows i v w u u' c g (j ∷ is) o h = elim (same_or_not i j) [
  | inl e ↦
      let eb : child j v ≡ some u = ap (λ k. child k v) e ∙ c.before in
      let ea : child j w ≡ some u' = ap (λ k. child k w) e ∙ c.after in
      let (o', e', l) = g is o (sym (see_at j is v u eb) ∙ h) in (o', see_at j is w u' ea ∙ e', l)
  | inr ne ↦ (o, see_same j is v w (c.others j ne) ∙ h, Later-refl o)
]

-- A read makes the value larger, and what it hands back is what is seen there.
pub read-Grows :
    (rand : ℕ → ℕ) (is : List ℤ) (v : Val) (n : ℕ) (u w : Val) (m : ℕ)
    → at_idxs rand read is v n ≡ ok (some (u, w, m))
    → (see is w ≡ sight u) × Grows v w
unfolding at_idxs
read-Grows rand [] v n u w m h =
    let ew : v ≡ w = cc in let eu : v ≡ u = cc in (ap sight (sym ew ∙ eu), rw ew (Grows-refl w))
read-Grows rand (i ∷ is) v n u w m h =
    let (x, y, k, e, c) = at_array_inv rand (at_idxs rand read is) i v n u w m h in
    let (es, g) = read-Grows rand is x k u y m e in
    (
      see_at i is w y c.after ∙ es,
      Grows-trans v (sized rand v n) w (sized-Grows rand v n)
          (Changed-Grows i (sized rand v n) w x y c g),
    )

-- All that is known elsewhere is still known.
abbrev pub Elsewhere : List ℤ → Val → Val → Type 0
Elsewhere is v w = (js : List ℤ) (o : Sight) → js ≢ is → see js v ≡ some o → see js w ≡ some o

Changed-Elsewhere :
    (i : ℤ) (is : List ℤ) (v w u u' : Val)
    → Changed i v w u u'
    → Elsewhere is u u'
    → Elsewhere (i ∷ is) v w
Changed-Elsewhere i is v w u u' c g [] o ne h = c.sight_after ∙ sym c.sight_before ∙ h
Changed-Elsewhere i is v w u u' c g (j ∷ js) o ne h = elim (same_or_not i j) [
  | inl e ↦
      let eb : child j v ≡ some u = ap (λ k. child k v) e ∙ c.before in
      let ea : child j w ≡ some u' = ap (λ k. child k w) e ∙ c.after in
      see_at j js w u' ea ∙ g js o (λ q. ne (cc)) (sym (see_at j js v u eb) ∙ h)
  | inr ne' ↦ see_same j js v w (c.others j ne') ∙ h
]

Elsewhere-here : (v w : Val) → ((i : ℤ) → child i v ≡ none) → Elsewhere [] v w
Elsewhere-here v w leaf [] o ne h = absurd (ne refl)
Elsewhere-here v w leaf (i ∷ is) o ne h = let h' = rw (see, look, leaf i) at h in cc

-- A write at a symbol with no elements.
pub write-Elsewhere :
    {A : Type 0} (rand : ℕ → ℕ) (op : Val → ℕ → Accessed A Val) (is : List ℤ) (v : Val) (n : ℕ)
    (a : A) (u u' : Val) (m : ℕ)
    → look is v ≡ some u
    → op u n ≡ ok (some (a, u', m))
    → ((i : ℤ) → child i u ≡ none)
    → (w : Val) × (at_idxs rand op is v n ≡ ok (some (a, w, m)))
      × (look is w ≡ some u')
      × Elsewhere is v w
unfolding at_idxs
write-Elsewhere rand op [] v n a u u' m e r leaf =
    let same : v ≡ u = cc in
    (u', ap (λ x. op x n) same ∙ r, refl, rw same (Elsewhere-here u u' leaf))
write-Elsewhere rand op (i ∷ is) v n a u u' m e r leaf = elim (Option-cases (child i v)) [
  | inl out ↦ let e' = rw (look, out) at e in cc
  | inr (x, isin) ↦
      let e' : look is x ≡ some u = sym (look_at i is v x isin) ∙ e in
      let (y, q, ey, g) = write-Elsewhere rand op is x n a u u' m e' r leaf in
      let (w, q', c) = at_array_runs rand (at_idxs rand op is) i v n a x y m isin q in
      (w, q', look_at i is w y c.after ∙ ey, Changed-Elsewhere i is v w x y c g)
]
