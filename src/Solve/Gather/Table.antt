-- ===== src/Solve/Gather/Table.antt =====
-- `syms_to_expr_id` as a list of entries (src/CodegenZ3Visitor.h).
use d_gen.Prelude.{
  ℕ, zero, suc, ◌≡◌, ◌⊎◌, inl, inr, ◌↔◌, refl, ◌∙◌, ap, ap₂, true, some, List, [], ◌∷◌, ◌++◌, ℤ,
  get_elem?, eqb_ℤ, eqb_ℤ_iff, ◌==◌, ==_iff, Bool-cases,
}
use d_gen.Solve.Setting.{Ref, eq_idxs, eq_ref, insert_sym}

abbrev pub Has : Ref → ℕ → List (Ref × ℕ) → Type 0
Has r i [] = ⊥
Has r i ((q, j) ∷ l) = ((r ≡ q) × (i ≡ j)) ⊎ Has r i l

-- No symbol has two entries.
abbrev pub Distinct : List (Ref × ℕ) → Type 0
Distinct [] = Unit
Distinct ((q, j) ∷ l) = ((i : ℕ) → ¬ Has q i l) × Distinct l

eq_idxs_iff : (is js : List ℤ) → (eq_idxs is js ≡ true) ↔ (is ≡ js)
eq_idxs_iff [] [] = (λ h. refl, λ h. refl)
eq_idxs_iff [] (j ∷ js) = (λ h. cc, λ h. cc)
eq_idxs_iff (i ∷ is) [] = (λ h. cc, λ h. cc)
eq_idxs_iff (i ∷ is) (j ∷ js) = elim (Bool-cases (eqb_ℤ i j)) [
  | inl e ↦
      let q = (eqb_ℤ_iff i j).0 e in
      (
        λ h. let h' = rw (eq_idxs, e) at h in ap₂ (λ k ks. k ∷ ks) q ((eq_idxs_iff is js).0 h'),
        λ h. rw (eq_idxs, e) ((eq_idxs_iff is js).1 (cc)),
      )
  | inr e ↦ (
    λ h. let h' = rw (eq_idxs, e) at h in cc,
    λ h. let q : i ≡ j = cc in let e' = (eqb_ℤ_iff i j).1 q in cc,
  )
]

pub eq_ref_iff : (q r : Ref) → (eq_ref q r ≡ true) ↔ (q ≡ r)
eq_ref_iff q r = elim (Bool-cases (q.input == r.input)) [
  | inl e ↦
      let same = (==_iff q.input r.input).0 e in
      (
        λ h.
            let h' = rw e at h in
            ap₂ (λ a is. record { input = a; idxs = is }) same ((eq_idxs_iff q.idxs r.idxs).0 h'),
        λ h. rw e ((eq_idxs_iff q.idxs r.idxs).1 (ap (λ (x : Ref). x.idxs) h)),
      )
  | inr e ↦ (
    λ h. let h' = rw e at h in cc,
    λ h. let e' = (==_iff q.input r.input).1 (ap (λ (x : Ref). x.input) h) in cc,
  )
]

pub Has-insert_sym :
    (r q : Ref) (i j : ℕ) (l : List (Ref × ℕ))
    → Has q j (insert_sym r i l)
    → ((q ≡ r) × (j ≡ i)) ⊎ Has q j l
unfolding insert_sym
Has-insert_sym r q i j [] h = h
Has-insert_sym r q i j ((p, k) ∷ l) h = elim (Bool-cases (eq_ref p r)) [
  | inl e ↦ elim (rw e at h) [ inl at ↦ inl at | inr later ↦ inr (inr later) ]
  | inr e ↦ elim (rw e at h) [
    | inl at ↦ inr (inl at)
    | inr later ↦ elim (Has-insert_sym r q i j l later) [
      | inl new ↦ inl new
      | inr old ↦ inr (inr old)
    ]
  ]
]

pub insert_sym-Has : (r : Ref) (i : ℕ) (l : List (Ref × ℕ)) → Has r i (insert_sym r i l)
unfolding insert_sym
insert_sym-Has r i [] = inl (refl, refl)
insert_sym-Has r i ((p, k) ∷ l) = elim (Bool-cases (eq_ref p r)) [
  | inl e ↦ rw e (inl (refl, refl))
  | inr e ↦ rw e (inr (insert_sym-Has r i l))
]

pub insert_sym-keeps :
    (r q : Ref) (i j : ℕ) (l : List (Ref × ℕ)) → Has q j l → (k : ℕ) × Has q k (insert_sym r i l)
unfolding insert_sym
insert_sym-keeps r q i j [] h = elim h [ ]
insert_sym-keeps r q i j ((p, k) ∷ l) (inl (e, ej)) = elim (Bool-cases (eq_ref p r)) [
  | inl same ↦ (i, rw same (inl (e ∙ (eq_ref_iff p r).0 same, refl)))
  | inr other ↦ (k, rw other (inl (e, refl)))
]
insert_sym-keeps r q i j ((p, k) ∷ l) (inr later) = elim (Bool-cases (eq_ref p r)) [
  | inl same ↦ (j, rw same (inr later))
  | inr other ↦ let (m, h) = insert_sym-keeps r q i j l later in (m, rw other (inr h))
]

pub Distinct-insert_sym :
    (r : Ref) (i : ℕ) (l : List (Ref × ℕ)) → Distinct l → Distinct (insert_sym r i l)
unfolding insert_sym
Distinct-insert_sym r i [] d = (λ j h. h, tt)
Distinct-insert_sym r i ((p, k) ∷ l) (new, d) = elim (Bool-cases (eq_ref p r)) [
  | inl same ↦ let q : p ≡ r = (eq_ref_iff p r).0 same in rw same (λ j h. new j (rw q h), d)
  | inr other ↦ rw other (
    λ j h. elim (Has-insert_sym r p i j l h) [
      | inl at ↦ let same = (eq_ref_iff p r).1 at.0 in cc
      | inr later ↦ new j later
    ],
    Distinct-insert_sym r i l d,
  )
]

pub get_elem?-append_left {ℓ} :
    {A : Type ℓ} (xs ys : List A) (i : ℕ) (x : A)
    → get_elem? xs i ≡ some x
    → get_elem? (xs ++ ys) i ≡ some x
get_elem?-append_left [] ys i x h = cc
get_elem?-append_left (y ∷ xs) ys zero x h = h
get_elem?-append_left (y ∷ xs) ys (suc i) x h = get_elem?-append_left xs ys i x h
