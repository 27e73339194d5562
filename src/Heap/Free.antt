-- ===== src/Heap/Free.antt =====
-- The loop of DGen::reset over `allocated_vals` (src/DGen.cpp).
use d_gen.Prelude.{
  ℕ, ◌≡◌, refl, ◌∙◌, sym, ap, Bool, true, false, Option, none, some, List, [], ◌∷◌, ◌==◌, ==_iff,
  if◌then◌else◌, inl, inr, Bool-cases, arith,
}
use d_gen.Heap.{AllocData, set_val, find_val, free, free_all}

abbrev pub is_live : ℕ → List ℕ → Bool
is_live p [] = false
is_live p (q ∷ l) = if p == q then true else is_live p l

abbrev pub owned_by : Option AllocData → Bool
owned_by none = false
owned_by (some a) = a.is_alloc

abbrev pub Once : List ℕ → Type 0
Once [] = Unit
Once (p ∷ l) = (is_live p l ≡ false) × Once l

abbrev pub Keyed : List (ℕ × AllocData) → Type 0
Keyed [] = Unit
Keyed ((p, a) ∷ l) = (find_val p l ≡ none) × Keyed l

pub find_val-set_val :
    (p q : ℕ) (a : AllocData) (l : List (ℕ × AllocData))
    → find_val q (set_val p a l) ≡ (if q == p then some a else find_val q l)
unfolding find_val set_val
find_val-set_val p q a [] = refl
find_val-set_val p q a ((r, b) ∷ l) = ground (arith, find_val-set_val p q a l)

pub Keyed-set_val :
    (p : ℕ) (a : AllocData) (l : List (ℕ × AllocData)) → Keyed l → Keyed (set_val p a l)
unfolding set_val find_val
Keyed-set_val p a [] d = (refl, tt)
Keyed-set_val p a ((q, b) ∷ l) (new, d) = elim (Bool-cases (p == q)) [
  | inl e ↦ rw e (rw ((==_iff p q).0 e) new, d)
  | inr e ↦ rw e (
    find_val-set_val p q a l ∙ (let e' : (q == p) ≡ false = ground arith in rw e' new),
    Keyed-set_val p a l d,
  )
]

is_live-free :
    (p : ℕ) (l : List ℕ)
    → Once l
    → is_live p l ≡ true
    → (k : List ℕ) × (free p l ≡ some k)
      × Once k
      × ((q : ℕ) → is_live q k ≡ (if q == p then false else is_live q l))
unfolding free
is_live-free p [] d h = cc
is_live-free p (q ∷ l) (new, d) h = elim (Bool-cases (p == q)) [
  | inl e ↦ (l, rw e refl, d, λ r. ground (arith, new))
  | inr e ↦
      let (k, ek, dk, others) = is_live-free p l d (ground (arith, h)) in
      (q ∷ k, rw (e, ek) refl, (others q ∙ ground (arith, new), dk), λ r. ground (arith, others r))
]

none_live : (live : List ℕ) → ((p : ℕ) → is_live p live ≡ false) → live ≡ []
none_live [] h = refl
none_live (q ∷ l) h = let e : (q == q) ≡ true = (==_iff q q).1 refl in let h' = rw e at (h q) in cc

-- One entry of the table, where `b` says whether it is a block; the others are treated by `rest`.
free_step :
    (b : Bool) (p : ℕ) (live : List ℕ) (l : List (ℕ × AllocData))
    → Once live
    → find_val p l ≡ none
    → is_live p live ≡ b
    → ((q : ℕ) → (q == p) ≡ false → is_live q live ≡ owned_by (find_val q l))
    → ((k : List ℕ)
        → Once k
        → ((q : ℕ) → is_live q k ≡ owned_by (find_val q l))
        → free_all l k ≡ some [])
    → elim (if b then free p live else some live) [ none ↦ none | some k ↦ free_all l k ] ≡ some []
free_step true p live l d new here others rest =
    let (k, ek, dk, left) = is_live-free p live d here in
    rw ek (
      rest k dk (λ q. elim (Bool-cases (q == p)) [
        | inl e ↦
            left q
            ∙ ap (λ b. if b then false else is_live q live) e
            ∙ sym (ap (λ r. owned_by (find_val r l)) ((==_iff q p).0 e) ∙ ap owned_by new)
        | inr e ↦ left q ∙ ap (λ b. if b then false else is_live q live) e ∙ others q e
      ]))
free_step false p live l d new here others rest = rest live d (λ q. elim (Bool-cases (q == p)) [
  | inl e ↦
      ap (λ r. is_live r live) ((==_iff q p).0 e)
      ∙ here
      ∙ sym (ap (λ r. owned_by (find_val r l)) ((==_iff q p).0 e) ∙ ap owned_by new)
  | inr e ↦ others q e
])

owned_first :
    (p : ℕ) (a : AllocData) (l : List (ℕ × AllocData))
    → owned_by (find_val p ((p, a) ∷ l)) ≡ a.is_alloc
unfolding find_val
owned_first p a l = let e : (p == p) ≡ true = (==_iff p p).1 refl in rw e refl

owned_later :
    (p q : ℕ) (a : AllocData) (l : List (ℕ × AllocData))
    → (q == p) ≡ false
    → owned_by (find_val q ((p, a) ∷ l)) ≡ owned_by (find_val q l)
unfolding find_val
owned_later p q a l e = rw e refl

pub free_all-nil :
    (l : List (ℕ × AllocData)) (live : List ℕ)
    → Keyed l
    → Once live
    → ((p : ℕ) → is_live p live ≡ owned_by (find_val p l))
    → free_all l live ≡ some []
unfolding free_all find_val
free_all-nil [] live k d h = ap some (none_live live h)
free_all-nil ((p, a) ∷ l) live (new, k) d h =
    free_step a.is_alloc p live l d new (h p ∙ owned_first p a l)
      (λ q e. h q ∙ owned_later p q a l e) (λ m dm hm. free_all-nil l m k dm hm)
