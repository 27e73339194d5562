-- ===== src/Types/Convert.antt =====
-- Comparison and conversion of types (src/type.cpp), against the kinds that are left of them.
use d_gen.Prelude.{
  ◌≡◌, refl, ◌↔◌, Bool, true, false, not, ◌&&◌, ◌||◌, List, [], ◌∷◌, length, get_or, pos, eqb_ℤ,
  arith, Bool-cases, inl, inr,
}
use d_gen.Types.{
  TypeKind, int, string, char, bool, arr, invalid, kind_eq, Ty, eq_type, drop_type,
  type_is_numerical, is_scalar, is_numerical, is_string, is_convertable_to,
}
use d_gen.Types.View.{
  view, IsWithin, kinds_eq, kinds_eq_iff, kinds_are, kinds_drop, length-view_within, current-view,
  eq_kind-view, eq_from-view, view-drop_type,
}

kinds_eq_lengths :
    (ks js : List TypeKind)
    → eqb_ℤ (pos (length ks)) (pos (length js)) ≡ false
    → kinds_eq ks js ≡ false
kinds_eq_lengths [] [] h = cc
kinds_eq_lengths [] (j ∷ js) h = refl
kinds_eq_lengths (k ∷ ks) [] h = refl
kinds_eq_lengths (k ∷ ks) (j ∷ js) h = ground (arith, kinds_eq_lengths ks js (ground arith))

eq_type-view : (s t : Ty) → IsWithin s → IsWithin t → eq_type s t ≡ kinds_eq (view s) (view t)
unfolding eq_type
eq_type-view s t hs ht =
    rw (length-view_within s hs, length-view_within t ht)
      (elim (Bool-cases (eqb_ℤ (pos (length (view s))) (pos (length (view t))))) [
        | inl same ↦ rw same (eq_from-view (length (view s)) 0 s t refl (ground arith))
        | inr differ ↦ rw differ (rw (kinds_eq_lengths (view s) (view t) differ))
      ])

-- Two types whose positions lie within their kinds are equal exactly when the kinds left of them are.
pub eq_type_iff : (s t : Ty) → IsWithin s → IsWithin t → (eq_type s t ≡ true) ↔ (view s ≡ view t)
eq_type_iff s t hs ht = rw (eq_type-view s t hs ht) (kinds_eq_iff (view s) (view t))

kinds_numerical : List TypeKind → Bool
kinds_numerical (int ∷ []) = true
kinds_numerical (char ∷ []) = true
kinds_numerical _ = false

kinds_string : List TypeKind → Bool
kinds_string (string ∷ []) = true
kinds_string (arr ∷ char ∷ []) = true
kinds_string _ = false

numerical_kinds :
    (ks : List TypeKind)
    → (eqb_ℤ (pos (length ks)) (pos 1)
        && not (kinds_are ks string)
        && type_is_numerical (get_or ks 0 invalid))
      ≡ kinds_numerical ks
unfolding kinds_numerical type_is_numerical
numerical_kinds [] = refl
numerical_kinds (int ∷ []) = refl
numerical_kinds (char ∷ []) = refl
numerical_kinds (_ ∷ []) = refl
numerical_kinds (_ ∷ k ∷ ks) = ground arith

is_numerical-view : (t : Ty) → IsWithin t → is_numerical t ≡ kinds_numerical (view t)
unfolding is_numerical is_scalar
is_numerical-view t h =
    rw (length-view_within t h, eq_kind-view t string, current-view t) (numerical_kinds (view t))

string_kinds :
    (ks : List TypeKind)
    → (eqb_ℤ (pos (length ks)) (pos 1) && kind_eq (get_or ks 0 invalid) string
        || eqb_ℤ (pos (length ks)) (pos 2)
          && kind_eq (get_or ks 0 invalid) arr
          && kinds_are (kinds_drop ks) char)
      ≡ kinds_string ks
unfolding kinds_string kinds_drop
string_kinds [] = refl
string_kinds (string ∷ []) = refl
string_kinds (int ∷ []) = refl
string_kinds (char ∷ []) = refl
string_kinds (bool ∷ []) = refl
string_kinds (arr ∷ []) = refl
string_kinds (invalid ∷ []) = refl
string_kinds (arr ∷ char ∷ []) = refl
string_kinds (arr ∷ k ∷ []) = ground arith
string_kinds (k ∷ i ∷ []) = ground arith
string_kinds (i ∷ j ∷ k ∷ ks) = ground arith

is_string-view : (t : Ty) → IsWithin t → is_string t ≡ kinds_string (view t)
unfolding is_string
is_string-view t h =
    rw (length-view_within t h, eq_kind-view (drop_type t) char, view-drop_type t, current-view t)
      (string_kinds (view t))

kinds_convertable : List TypeKind → List TypeKind → Bool
kinds_convertable ks js =
    kinds_eq ks js || kinds_numerical ks && kinds_numerical js || kinds_string ks && kinds_string js

is_convertable_to-view :
    (s t : Ty)
    → IsWithin s
    → IsWithin t
    → is_convertable_to s t ≡ kinds_convertable (view s) (view t)
unfolding is_convertable_to kinds_convertable
is_convertable_to-view s t hs ht = rw (
  eq_type-view s t hs ht,
  is_numerical-view s hs,
  is_numerical-view t ht,
  is_string-view s hs,
  is_string-view t ht,
)

-- The kinds that convert into one another have one canonical form: `char` converts as `int`, and
-- an array of characters as `string`.
pub canonical : List TypeKind → List TypeKind
canonical (char ∷ []) = int ∷ []
canonical (arr ∷ char ∷ []) = string ∷ []
canonical ks = ks

-- What `canonical` and the two tests say of a list, in the three cases.
data Form (ks : List TypeKind) : Type 0 where
  numbers : canonical ks ≡ int ∷ [] → kinds_numerical ks ≡ true → kinds_string ks ≡ false → Form ks
  texts : canonical ks ≡ string ∷ [] → kinds_numerical ks ≡ false → kinds_string ks ≡ true → Form ks
  others : canonical ks ≡ ks → kinds_numerical ks ≡ false → kinds_string ks ≡ false → Form ks

Form-of : (ks : List TypeKind) → Form ks
unfolding canonical kinds_numerical kinds_string
Form-of [] = others refl refl refl
Form-of (int ∷ []) = numbers refl refl refl
Form-of (char ∷ []) = numbers refl refl refl
Form-of (string ∷ []) = texts refl refl refl
Form-of (bool ∷ []) = others refl refl refl
Form-of (arr ∷ []) = others refl refl refl
Form-of (invalid ∷ []) = others refl refl refl
Form-of (arr ∷ char ∷ []) = texts refl refl refl
Form-of (arr ∷ k ∷ []) = others (ground arith) (ground arith) (ground arith)
Form-of (arr ∷ j ∷ k ∷ ks) = others (ground arith) (ground arith) (ground arith)
Form-of (i ∷ k ∷ ks) = others (ground arith) (ground arith) (ground arith)

convertable_iff :
    (ks js : List TypeKind)
    → Form ks
    → Form js
    → (kinds_convertable ks js ≡ true) ↔ (canonical ks ≡ canonical js)
unfolding kinds_convertable kinds_numerical kinds_string
convertable_iff ks js (numbers p a b) (numbers q c d) = ground (arith, kinds_eq_iff ks js)
convertable_iff ks js (numbers p a b) (texts q c d) = ground (arith, kinds_eq_iff ks js)
convertable_iff ks js (numbers p a b) (others q c d) = ground (arith, kinds_eq_iff ks js)
convertable_iff ks js (texts p a b) (numbers q c d) = ground (arith, kinds_eq_iff ks js)
convertable_iff ks js (texts p a b) (texts q c d) = ground (arith, kinds_eq_iff ks js)
convertable_iff ks js (texts p a b) (others q c d) = ground (arith, kinds_eq_iff ks js)
convertable_iff ks js (others p a b) (numbers q c d) = ground (arith, kinds_eq_iff ks js)
convertable_iff ks js (others p a b) (texts q c d) = ground (arith, kinds_eq_iff ks js)
convertable_iff ks js (others p a b) (others q c d) = ground (arith, kinds_eq_iff ks js)

-- If the positions of two types lie within their kinds, the one converts to the other implicitly
-- exactly when the kinds left of the two have the same canonical form: they are equal, or both of
-- `int` and `char`, or both of `string` and `char[]`.
pub is_convertable_to_iff :
    (s t : Ty)
    → IsWithin s
    → IsWithin t
    → (is_convertable_to s t ≡ true) ↔ (canonical (view s) ≡ canonical (view t))
is_convertable_to_iff s t hs ht =
    rw (is_convertable_to-view s t hs ht)
      (convertable_iff (view s) (view t) (Form-of (view s)) (Form-of (view t)))
