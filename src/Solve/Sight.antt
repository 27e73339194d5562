-- ===== src/Solve/Sight.antt =====
-- What is known of an input or of an element of one (src/Symbol.cpp): the value of a scalar, the size of
-- an array, and the elements through arrays whose size is known.
pub mod Access
pub mod Walk
use d_gen.Prelude.{
  ℕ, zero, suc, ◌≡◌, ◌≢◌, ◌⊎◌, inl, inr, refl, ◌∙◌, sym, ap, Bool, true, false, Option, none, some,
  List, [], ◌∷◌, ℤ, pos, negsuc, leb, eqb_ℤ, eqb_ℤ_iff, if◌then◌else◌, Bool-cases, arith,
}
use d_gen.Errors.{Outcome, ok, err, crash, ◌>>=◌}
use d_gen.Values.{
  Val, Vals, null_sym, number_sym, char_sym, bool_sym, array_sym, string_sym, nil, cons, Numeral,
  int64, truth, get_size,
}
use d_gen.Values.Access.{Accessed, at_elem, at_idx, at_array, at_idxs}
use d_gen.Solve.{read}

-- The type of a symbol that has no value; `measure` is an array without a size.
pub data Kind : Type 0 where
  whole character boolean measure : Kind

pub data Sight : Type 0 where
  unset : Kind → Sight
  known : Numeral → Sight

abbrev pub sight : Val → Option Sight
sight null_sym = none
sight (number_sym none) = some (unset whole)
sight (number_sym (some v)) = some (known (int64 v))
sight (char_sym none) = some (unset character)
sight (char_sym (some v)) = some (known (int64 v))
sight (bool_sym none) = some (unset boolean)
sight (bool_sym (some b)) = some (known (truth b))
sight (array_sym _ none _) = some (unset measure)
sight (array_sym _ (some n) _) = some (known (int64 (pos n)))
sight (string_sym _ none _) = some (unset measure)
sight (string_sym _ (some n) _) = some (known (int64 (pos n)))

abbrev pub elem : ℕ → Vals → Option Val
elem j nil = none
elem zero (cons v vs) = some v
elem (suc j) (cons v vs) = elem j vs

abbrev pub child : ℤ → Val → Option Val
child (pos i) (array_sym _ (some n) vs) = if leb n i then none else elem i vs
child (pos i) (string_sym _ (some n) vs) = if leb n i then none else elem i vs
child _ _ = none

-- The element with these indices.
abbrev pub look : List ℤ → Val → Option Val
look [] v = some v
look (i ∷ is) v = elim (child i v) [ none ↦ none | some u ↦ look is u ]

abbrev pub see : List ℤ → Val → Option Sight
see is v = elim (look is v) [ none ↦ none | some u ↦ sight u ]

-- What is known stays so, and a type does not change. A scalar without a value stays without one, and
-- only the size of an array may become known.
abbrev pub Later : Sight → Sight → Type 0
Later (unset k) (unset j) = k ≡ j
Later (unset k) (known x) = (k ≡ measure) × (n : ℕ) × (x ≡ int64 (pos n))
Later (known x) o = o ≡ known x

pub Later-refl : (o : Sight) → Later o o
Later-refl (unset k) = refl
Later-refl (known x) = refl

pub Later-trans : (a b c : Sight) → Later a b → Later b c → Later a c
Later-trans (unset k) (unset j) (unset l) p q = p ∙ q
Later-trans (unset k) (unset j) (known x) p (q, n, e) = (p ∙ q, n, e)
Later-trans (unset k) (known x) (unset l) p q = cc
Later-trans (unset k) (known x) (known y) (p, n, e) q = (p, n, (let same : y ≡ x = cc in same) ∙ e)
Later-trans (known x) (unset k) c p q = cc
Later-trans (known x) (known y) c p q = q ∙ p

abbrev pub Grows : Val → Val → Type 0
Grows v w =
    (is : List ℤ) (o : Sight) → see is v ≡ some o → (o' : Sight) × (see is w ≡ some o') × Later o o'

pub Grows-refl : (v : Val) → Grows v v
Grows-refl v is o h = (o, h, Later-refl o)

pub Grows-trans : (u v w : Val) → Grows u v → Grows v w → Grows u w
Grows-trans u v w g h is a e =
    let (b, eb, l) = g is a e in let (c, ec, m) = h is b eb in (c, ec, Later-trans a b c l m)

-- What an access hands back is what the rest of it handed back, in a larger value.
pub wrap_inv :
    {A X Y : Type 0} (r : Accessed A X) (g : X → Y) {a : A} {y : Y} {m : ℕ}
    → (◌>>=◌ {B = Option (A × Y × ℕ)} r
        (λ o. ok (elim o [ none ↦ none | some (b, x, k) ↦ some (b, g x, k) ])))
      ≡ ok (some (a, y, m))
    → (x : X) × (r ≡ ok (some (a, x, m))) × (y ≡ g x)
wrap_inv (ok none) g h = cc
wrap_inv (ok (some (b, x, k))) g h = (x, cc, cc)
wrap_inv (err _) g h = cc
wrap_inv crash g h = cc

-- One element is replaced, and the others stay.
abbrev pub Replaced : ℕ → Val → Vals → Vals → Type 0
Replaced j u vs ws = (elem j ws ≡ some u) × ((i : ℕ) → i ≢ j → elem i ws ≡ elem i vs)

Replaced-suc :
    (j : ℕ) (u v : Val) (vs ws : Vals)
    → Replaced j u vs ws
    → (i : ℕ) → i ≢ suc j
    → elem i (cons v ws) ≡ elem i (cons v vs)
Replaced-suc j u v vs ws (at, others) zero ne = refl
Replaced-suc j u v vs ws (at, others) (suc i) ne = others i (λ e. ne (ap suc e))

Replaced-zero : (v w : Val) (vs : Vals) (i : ℕ) → i ≢ zero → elem i (cons w vs) ≡ elem i (cons v vs)
Replaced-zero v w vs zero ne = absurd (ne refl)
Replaced-zero v w vs (suc i) ne = refl

module _ {A : Type 0} (f : Val → Accessed A Val) where
  pub at_elem_inv :
      (j : ℕ) (vs : Vals) (a : A) (ws : Vals) (m : ℕ)
      → at_elem f j vs ≡ ok (some (a, ws, m))
      → (v w : Val) × (elem j vs ≡ some v) × (f v ≡ ok (some (a, w, m))) × Replaced j w vs ws
  unfolding at_elem
  at_elem_inv j nil a ws m h = cc
  at_elem_inv zero (cons v vs) a ws m h =
      let (w, e, same) = wrap_inv (f v) (λ x. cons x vs) h in
      (v, w, refl, e, rw same (refl, Replaced-zero v w vs))
  at_elem_inv (suc j) (cons v vs) a ws m h =
      let (ws', e, same) = wrap_inv (at_elem f j vs) (cons v) h in
      let (u, w, eu, ew, r) = at_elem_inv j vs a ws' m e in
      (u, w, eu, ew, rw same (r.0, Replaced-suc j w v vs ws' r))

  pub at_elem_runs :
      (j : ℕ) (vs : Vals) (v w : Val) (a : A) (m : ℕ)
      → elem j vs ≡ some v
      → f v ≡ ok (some (a, w, m))
      → (ws : Vals) × (at_elem f j vs ≡ ok (some (a, ws, m)))
  unfolding at_elem
  at_elem_runs j nil v w a m e r = cc
  at_elem_runs zero (cons u vs) v w a m e r = let e' : u ≡ v = cc in (cons w vs, rw (e', r) refl)
  at_elem_runs (suc j) (cons u vs) v w a m e r =
      let (ws, q) = at_elem_runs j vs v w a m e r in (cons u ws, rw q refl)
