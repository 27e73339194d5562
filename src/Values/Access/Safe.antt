-- ===== src/Values/Access/Safe.antt =====
-- Access to an element by as many indices as the type has (get_val_arr in src/Symbol.cpp).
use d_gen.Prelude.{
  ℕ, zero, suc, ◌+◌, ◌-◌, ◌≤◌, ◌<◌, ◌≡◌, refl, ◌∙◌, ap, ◌⊎◌, inl, inr, none, some, List, [], ◌∷◌,
  map, length, pos, leb, arith, Bool-cases,
}
use d_gen.Errors.{ok, ◌>>=◌}
use d_gen.Types.{TypeKind, int, string, char, bool, arr, invalid}
use d_gen.Types.View.{kinds_drop}
use d_gen.Ast.Rank.{IsDeclared, rank, kinds_drop-rank}
use d_gen.Values.{Val, Vals, array_sym, string_sym, cons, Texts}
use d_gen.Values.Access.{
  Accessed, at_elem, at_idx, at_array, at_idxs, get_symbol_by_idxs, get_val_arr,
}
use d_gen.Values.Memory.{fill_dest}
use d_gen.Values.Memory.Copy.{fill_dest-Copied}
use d_gen.Values.Size.{get_size-Filled}
use d_gen.Values.Shape.{
  Fits, FitsAll, int_value, char_value, bool_value, string_value, array_value, no_values,
  and_values, Extends, ExtendsAll, more_int, more_char, more_bool, new_array, more_array,
  new_string, more_string, no_more, and_more, count, elem-Fits,
}

mutual
  Extends-refl : {ks : List TypeKind} {v : Val} → Fits ks v → Extends v v
  Extends-refl (int_value {num = none}) = more_int tt
  Extends-refl (int_value {num = some z}) = more_int refl
  Extends-refl (char_value {ch = none}) = more_char tt
  Extends-refl (char_value {ch = some z}) = more_char refl
  Extends-refl (bool_value {val = none}) = more_bool tt
  Extends-refl (bool_value {val = some z}) = more_bool refl
  Extends-refl (string_value {size = none} e filled fits) = new_string
  Extends-refl (string_value {size = some s} e filled fits) = more_string (ExtendsAll-refl fits)
  Extends-refl (array_value {size = none} e filled fits) = new_array
  Extends-refl (array_value {size = some s} e filled fits) = more_array (ExtendsAll-refl fits)

  ExtendsAll-refl : {ks : List TypeKind} {vs : Vals} → FitsAll ks vs → ExtendsAll vs vs
  ExtendsAll-refl no_values = no_more
  ExtendsAll-refl (and_values fit fits) = and_more (Extends-refl fit) (ExtendsAll-refl fits)

-- The access ends with the std::runtime_error of an index that is out of bounds, or with a result and
-- a value of the same type, which has all that was generated before.
abbrev pub Safe : {A : Type 0} → List TypeKind → Val → Accessed A Val → Type 0
Safe {A = A} ks v r =
    (r ≡ ok none)
    ⊎ ((a : A) × (w : Val) × (m : ℕ) × (r ≡ ok (some (a, w, m))) × Fits ks w × Extends v w)

abbrev SafeAll : {A : Type 0} → List TypeKind → Vals → Accessed A Vals → Type 0
SafeAll {A = A} ks vs r =
    (r ≡ ok none)
    ⊎ ((a : A) × (ws : Vals) × (m : ℕ) × (r ≡ ok (some (a, ws, m)))
        × FitsAll ks ws
        × ExtendsAll vs ws
        × (count ws ≡ count vs))

at_elem-Safe :
    {A : Type 0} (f : Val → Accessed A Val) (ks : List TypeKind)
    → ((v : Val) → Fits ks v → Safe ks v (f v))
    → (j : ℕ) (vs : Vals) → FitsAll ks vs
    → j < count vs
    → SafeAll ks vs (at_elem f j vs)
unfolding at_elem
at_elem-Safe f ks each j _ no_values lt = absurd (omega arith)
at_elem-Safe f ks each zero _ (and_values {v = v} {vs = vs} fit fits) lt = elim (each v fit) [
  | inl e ↦ inl (rw e refl)
  | inr (a, w, m, e, fw, xw) ↦
      inr (a, cons w vs, m, rw e refl, and_values fw fits, and_more xw (ExtendsAll-refl fits), refl)
]
at_elem-Safe f ks each (suc j) _ (and_values {v = v} {vs = vs} fit fits) lt =
    elim (at_elem-Safe f ks each j vs fits (omega arith)) [
      | inl e ↦ inl (rw e refl)
      | inr (a, ws, m, e, fws, xws, same) ↦ inr (
        a,
        cons v ws,
        m,
        rw e refl,
        and_values fit fws,
        and_more (Extends-refl fit) xws,
        ap suc same,
      )
    ]

length-kinds_drop : (ks : List TypeKind) → length (kinds_drop ks) ≤ length ks
unfolding kinds_drop
length-kinds_drop [] = omega arith
length-kinds_drop (string ∷ []) = omega arith
length-kinds_drop (string ∷ k ∷ ks) = omega arith
length-kinds_drop (arr ∷ ks) = omega arith
length-kinds_drop (int ∷ ks) = omega arith
length-kinds_drop (char ∷ ks) = omega arith
length-kinds_drop (bool ∷ ks) = omega arith
length-kinds_drop (invalid ∷ ks) = omega arith

-- One index: the array with its size `s` and its elements `us`, which `make` builds.
at_idx-Safe :
    {A : Type 0} (f : Val → Accessed A Val) (ks js : List TypeKind) (v : Val) (i s : ℕ) (us : Vals)
    (make : Vals → Val)
    → ((u : Val) → Fits ks u → Safe ks u (f u))
    → FitsAll ks us
    → count us ≡ s
    → ((ws : Vals)
        → FitsAll ks ws
        → count ws ≡ s
        → ExtendsAll us ws
        → Fits js (make ws) × Extends v (make ws))
    → Safe js v (at_idx f (pos i) s us make)
unfolding at_idx
at_idx-Safe f ks js v i s us make each fits cs made = elim (Bool-cases (leb s i)) [
  | inl out ↦ inl (rw out refl)
  | inr isin ↦ elim (at_elem-Safe f ks each i us fits (ground arith)) [
    | inl e ↦ inl (rw (isin, e) refl)
    | inr (a, ws, m, e, fws, xws, same) ↦
        let (fw, xw) = made ws fws (same ∙ cs) xws in inr (a, make ws, m, rw (isin, e) refl, fw, xw)
  ]
]

module _ {A : Type 0} (rand : ℕ → ℕ) where
  at_array-Safe :
      (f : Val → ℕ → Accessed A Val) (ks : List TypeKind) (r : ℕ)
      → IsDeclared ks
      → rank ks ≡ suc r
      → ((u : Val) (m : ℕ) → Fits (kinds_drop ks) u → Safe (kinds_drop ks) u (f u m))
      → (v : Val) (n i : ℕ) → Fits ks v
      → Safe ks v (at_array rand f (pos i) v n)
  unfolding at_array rank kinds_drop
  at_array-Safe f _ r d e each _ n i int_value = absurd (omega arith)
  at_array-Safe f _ r d e each _ n i char_value = absurd (omega arith)
  at_array-Safe f _ r d e each _ n i bool_value = absurd (omega arith)
  at_array-Safe f _ r d e each _ n i (string_value {t = t} {size = size} {vs = vs} et filled fits) =
      let fresh_elem = elem-Fits t (char ∷ []) (ap kinds_drop et) tt in
      let (s, us, m, es, cs, fus, xus, qus) =
        get_size-Filled rand (char ∷ []) t size vs n filled fits fresh_elem in
      rw es (
        at_idx-Safe (λ u. f u m) (char ∷ []) (string ∷ []) (string_sym t size vs) i s us
          (string_sym t (some s)) (λ u. each u m) fus cs
          (λ ws fws same xws. (string_value et same fws, (xus ws xws).1)))
  at_array-Safe f _ r d e each _ n i
        (array_value {t = t} {ks = ks} {size = size} {vs = vs} et filled fits) =
      let fresh_elem = elem-Fits t ks (ap kinds_drop et) d in
      let (s, us, m, es, cs, fus, xus, qus) =
        get_size-Filled rand ks t size vs n filled fits fresh_elem in
      rw es (
        at_idx-Safe (λ u. f u m) ks (arr ∷ ks) (array_sym t size vs) i s us (array_sym t (some s))
          (λ u. each u m) fus cs (λ ws fws same xws. (array_value et same fws, (xus ws xws).0)))

  -- At most as many indices as the type has lead to a value of a declared type.
  at_idxs-Safe :
      (op : Val → ℕ → Accessed A Val) (k : ℕ)
      → ((ks : List TypeKind) (u : Val) (m : ℕ)
          → IsDeclared ks
          → length ks < k
          → Fits ks u
          → Safe ks u (op u m))
      → (is : List ℕ) (ks : List TypeKind) (v : Val) (n r : ℕ) → IsDeclared ks
      → rank ks ≡ length is + r
      → length ks < k
      → Fits ks v
      → Safe ks v (at_idxs rand op (map pos is) v n)
  unfolding at_idxs
  at_idxs-Safe op k each [] ks v n r d e lt fit = each ks v n d lt fit
  at_idxs-Safe op k each (i ∷ is) ks v n r d e lt fit =
      let e : rank ks ≡ suc (length is + r) = omega arith in
      let (d', e') = kinds_drop-rank ks (length is + r) d e in
      let lt' : length (kinds_drop ks) < k = omega (arith, length-kinds_drop ks) in
      at_array-Safe (at_idxs rand op (map pos is)) ks (length is + r) d e
        (λ u m f. at_idxs-Safe op k each is (kinds_drop ks) u m r d' e' lt' f) v n i fit

fill_dest-Safe :
    (rand : ℕ → ℕ) (texts : Texts) (k : ℕ) (ks : List TypeKind) (v : Val) (n : ℕ)
    → IsDeclared ks
    → length ks < k
    → Fits ks v
    → Safe ks v (do r ← fill_dest rand k v n; ok (some r))
fill_dest-Safe rand texts k ks v n d lt fit =
    let (x, w, m, e, fw, cw, xw, width_eq, g) = fill_dest-Copied rand texts k ks v n fit d lt in
    inr (x, w, m, rw e refl, fw, xw)

-- With at most as many indices as the type of the variable has, none of them negative, and more fuel than
-- the type has kinds, get_val_arr throws the std::runtime_error of an index that is out of bounds, or
-- returns what it has copied and leaves a value of the type in which nothing has changed that was there
-- before.
pub get_val_arr-Safe :
    (rand : ℕ → ℕ) (k : ℕ) (ks : List TypeKind) (v : Val) (i : ℕ) (is : List ℕ) (n : ℕ)
    → IsDeclared ks
    → length (i ∷ is) ≤ rank ks
    → length ks < k
    → Fits ks v
    → Safe ks v (get_val_arr rand k (pos i) (map pos is) v n)
unfolding get_val_arr get_symbol_by_idxs
get_val_arr-Safe rand k ks v i is n d le lt fit =
    let texts : Texts = record { number = λ z. ""; character = λ z. "" } in
    at_idxs-Safe rand (λ u m. do r ← fill_dest rand k u m; ok (some r)) k
      (λ js u m d' lt' f. fill_dest-Safe rand texts k js u m d' lt' f) (i ∷ is) ks v n
      (rank ks - length (i ∷ is)) d (omega arith) lt fit
