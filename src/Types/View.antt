-- ===== src/Types/View.antt =====
-- What the operations of src/type.cpp see of a type: the kinds from its position on.
use d_gen.Prelude.{
  ℕ, zero, suc, ◌≤◌, ◌≡◌, refl, ap, sym, ◌↔◌, inl, inr, Bool, true, false, ◌&&◌, List, [], ◌∷◌,
  length, get_or, drop, length-drop, length-eq-zero, get_or-drop, drop-drop, drop-cons, pos,
  pos_part, ltb, ltb_ℤ, leb, arith, Bool-cases, if◌then◌else◌,
}
use native.Mathlib.Nat.{zero-add, add_comm}
use native.Mathlib.Numerals.{add-one}
use d_gen.Types.{
  TypeKind, int, string, char, bool, arr, invalid, kind_eq, Ty, type_length, get_current_type,
  eq_kind, eq_from, drop_type,
}

-- The kinds that have not been dropped.
abbrev pub view : Ty → List TypeKind
view t = drop t.pos t.types

-- The position has not run past the end of the vector.
abbrev pub IsWithin : Ty → Type 0
IsWithin t = t.pos ≤ length t.types

pub kind_eq_iff : (a b : TypeKind) → (kind_eq a b ≡ true) ↔ (a ≡ b)
kind_eq_iff int b = ground arith
kind_eq_iff string b = ground arith
kind_eq_iff char b = ground arith
kind_eq_iff bool b = ground arith
kind_eq_iff arr b = ground arith
kind_eq_iff invalid b = ground arith

-- Equality of lists of kinds.
abbrev pub kinds_eq : List TypeKind → List TypeKind → Bool
kinds_eq [] [] = true
kinds_eq (k ∷ ks) (j ∷ js) = kind_eq k j && kinds_eq ks js
kinds_eq _ _ = false

pub kinds_eq_iff : (ks js : List TypeKind) → (kinds_eq ks js ≡ true) ↔ (ks ≡ js)
kinds_eq_iff [] [] = ground arith
kinds_eq_iff [] (j ∷ js) = ground arith
kinds_eq_iff (k ∷ ks) [] = ground arith
kinds_eq_iff (k ∷ ks) (j ∷ js) = ground (arith, kind_eq_iff k j, kinds_eq_iff ks js)

pub length-view : (t : Ty) → pos_part (type_length t) ≡ length (view t)
unfolding type_length
length-view t = ground (arith, length-drop t.pos t.types)

pub length-view_within : (t : Ty) → IsWithin t → type_length t ≡ pos (length (view t))
unfolding type_length
length-view_within t h = ground (arith, length-drop t.pos t.types)

pub current-view : (t : Ty) → get_current_type t ≡ get_or (view t) 0 invalid
unfolding get_current_type
current-view t = elim (Bool-cases (leb (length t.types) t.pos)) [
  | inl past ↦ rw (past, length-eq-zero (view t) (ground (arith, length-drop t.pos t.types)))
  | inr fits ↦ rw fits (rw (zero-add t.pos) at (get_or-drop t.pos 0 t.types invalid))
]

-- Comparison with a single kind, where no kind left counts as `invalid`.
abbrev pub kinds_are : List TypeKind → TypeKind → Bool
kinds_are [] k = kind_eq invalid k
kinds_are (j ∷ []) k = kind_eq j k
kinds_are (j ∷ i ∷ ks) k = false

kinds_are_if :
    (ks : List TypeKind) (k : TypeKind)
    → (if ltb 1 (length ks) then false else kind_eq (get_or ks 0 invalid) k) ≡ kinds_are ks k
kinds_are_if [] k = refl
kinds_are_if (j ∷ []) k = refl
kinds_are_if (j ∷ i ∷ ks) k = ground arith

ltb_one_parts : (t : Ty) → ltb_ℤ (pos 1) (type_length t) ≡ ltb 1 (length (view t))
unfolding type_length
ltb_one_parts t = ground (arith, length-drop t.pos t.types)

pub eq_kind-view : (t : Ty) (k : TypeKind) → eq_kind t k ≡ kinds_are (view t) k
unfolding eq_kind
eq_kind-view t k = rw (ltb_one_parts t, current-view t) (kinds_are_if (view t) k)

pub eq_from-view :
    (n i : ℕ) (s t : Ty)
    → length (drop i (view s)) ≡ n
    → length (drop i (view t)) ≡ n
    → eq_from n i s t ≡ kinds_eq (drop i (view s)) (drop i (view t))
unfolding eq_from
eq_from-view zero i s t p q =
    rw (length-eq-zero (drop i (view s)) p, length-eq-zero (drop i (view t)) q)
eq_from-view (suc n) i s t p q =
    let ls = length-drop i (view s) in
    let lt = length-drop i (view t) in
    let cs = drop-cons i (view s) invalid (omega arith) in
    let ct = drop-cons i (view t) invalid (omega arith) in
    rw (cs, ct, get_or-drop s.pos i s.types invalid, get_or-drop t.pos i t.types invalid, add-one i)
      (ground (
        arith,
        eq_from-view n (suc i) s t (ground (arith, ap length cs)) (ground (arith, ap length ct)),
      ))

-- What is left when one kind is dropped: of a string, a character.
unfoldable pub kinds_drop : List TypeKind → List TypeKind
kinds_drop [] = []
kinds_drop (string ∷ []) = char ∷ []
kinds_drop (k ∷ ks) = ks

kinds_drop_string : (ks : List TypeKind) → kinds_are ks string ≡ true → kinds_drop ks ≡ char ∷ []
unfolding kinds_drop
kinds_drop_string [] h = cc
kinds_drop_string (string ∷ []) h = refl
kinds_drop_string (j ∷ i ∷ ks) h = cc
kinds_drop_string (_ ∷ []) h = cc

kinds_drop_tail : (ks : List TypeKind) → kinds_are ks string ≡ false → kinds_drop ks ≡ drop 1 ks
unfolding kinds_drop
kinds_drop_tail [] h = refl
kinds_drop_tail (string ∷ []) h = cc
kinds_drop_tail (string ∷ i ∷ ks) h = refl
kinds_drop_tail (_ ∷ ks) h = refl

pub view-drop_type : (t : Ty) → view (drop_type t) ≡ kinds_drop (view t)
unfolding drop_type
view-drop_type t = elim (Bool-cases (eq_kind t string)) [
  | inl is ↦ rw is (sym (kinds_drop_string (view t) (rw (eq_kind-view t string) at is)))
  | inr isnt ↦
      rw (isnt, add_comm t.pos 1, drop-drop t.pos 1 t.types)
        (sym (kinds_drop_tail (view t) (rw (eq_kind-view t string) at isnt)))
]
