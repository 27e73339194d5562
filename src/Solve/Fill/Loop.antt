-- ===== src/Solve/Fill/Loop.antt =====
-- The whole loop over the registered symbols (start_z3_gen in src/CodegenZ3Visitor.cpp).
use d_gen.Prelude.{
  ℕ, ◌≡◌, ◌≢◌, inl, inr, refl, ◌∙◌, sym, ap, false, some, List, [], ◌∷◌, ℤ, String, eqb_ℤ,
  eqb_ℤ_iff, ◌==◌, ==_iff, if◌then◌else◌, Bool-cases, Option-cases, get_elem?,
}
use d_gen.Values.{Val, Numeral}
use d_gen.Solve.Setting.{Z3, Ref, done}
use d_gen.Solve.Run.{fill_at, fill_syms, get_numeral, is_part, has_part}
use d_gen.Solve.Sight.{Kind, Sight, unset, known, child, look, see}
use d_gen.Solve.Gather.{sees, const_of}
use d_gen.Solve.Gather.Table.{Has, Distinct}
use d_gen.Solve.Fill.{Represented, get_numeral-Represented, no_elements, FilledAt, fill_at-FilledAt}

-- A symbol without a value has no parts.
unset_whole :
    (is js : List ℤ) (v : Val) (k : Kind) (o : Sight)
    → see is v ≡ some (unset k)
    → see js v ≡ some o
    → is_part is js ≡ false
unset_whole [] [] v k o e f = refl
unset_whole [] (j ∷ js) v k o e f = let f' = rw (see, look, no_elements v k j e) at f in cc
unset_whole (i ∷ is) [] v k o e f = refl
unset_whole (i ∷ is) (j ∷ js) v k o e f = elim (Bool-cases (eqb_ℤ i j)) [
  | inr other ↦ rw (is_part, other) refl
  | inl same ↦
      rw (is_part, same)
        (elim (Option-cases (child i v)) [
          | inl out ↦ let e' = rw (see, look, out) at e in cc
          | inr (u, found) ↦
              let found' : child j v ≡ some u =
                ap (λ l. child l v) (sym ((eqb_ℤ_iff i j).0 same)) ∙ found in
              unset_whole is js u k o (rw (see, look, found) at e) (rw (see, look, found') at f)
        ])
]

part_false :
    (r q : Ref) (st : ℕ → Val) (k : Kind) (o : Sight)
    → sees st r ≡ some (unset k)
    → sees st q ≡ some o
    → (if r.input == q.input then is_part r.idxs q.idxs else false) ≡ false
part_false r q st k o e f = elim (Bool-cases (r.input == q.input)) [
  | inr other ↦ ap (λ b. if b then is_part r.idxs q.idxs else false) other
  | inl same ↦
      ap (λ b. if b then is_part r.idxs q.idxs else false) same
      ∙ unset_whole r.idxs q.idxs (st q.input) k o
          (ap (λ a. see r.idxs (st a)) (sym ((==_iff r.input q.input).0 same)) ∙ e) f
]

has_part-false :
    (r : Ref) (k : Kind) (st : ℕ → Val) (l : List (Ref × ℕ))
    → sees st r ≡ some (unset k)
    → ((q : Ref) (j : ℕ) → Has q j l → (o : Sight) × (sees st q ≡ some o))
    → has_part r l ≡ false
has_part-false r k st [] e each = refl
has_part-false r k st ((q, j) ∷ l) e each =
    let (o, eo) = each q j (inl (refl, refl)) in
    rw (has_part, part_false r q st k o e eo)
      (has_part-false r k st l e (λ p i h. each p i (inr h)))

module _ {E : Type 0} (z : Z3 E) (rand : ℕ → ℕ) (number : ℤ → String) (names : ℕ → String)
    (eval : E → Numeral) (exprs : List E) where
  -- An entry can be filled: its symbol has no value, and the model's numeral fits it.
  abbrev pub Ready : (ℕ → Val) → Ref → ℕ → Type 0
  Ready st r i =
      (k : Kind) × (get_elem? exprs i ≡ some (const_of z number names r k))
      × (sees st r ≡ some (unset k))
      × Represented k (eval (const_of z number names r k))

  pub record Outcome (st : ℕ → Val) (items : List (Ref × ℕ)) (st' : ℕ → Val) : Type 0 where
    pub filled :
        (r : Ref) (i : ℕ) (k : Kind)
        → Has r i items
        → sees st r ≡ some (unset k)
        → sees st' r ≡ some (known (eval (const_of z number names r k)))
    pub stays :
        (r : Ref) (o : Sight)
        → ((i : ℕ) → ¬ Has r i items)
        → sees st r ≡ some o
        → sees st' r ≡ some o

  -- The first entry and the others.
  filled_first :
      (r : Ref) (i : ℕ) (k : Kind) (items : List (Ref × ℕ)) (st st1 st2 : ℕ → Val)
      → sees st r ≡ some (unset k)
      → ((j : ℕ) → ¬ Has r j items)
      → FilledAt r (eval (const_of z number names r k)) st st1
      → ((q : Ref) (j : ℕ) → Has q j items → q ≢ r)
      → Outcome st1 items st2
      → Outcome st ((r, i) ∷ items) st2
  filled_first r i k items st st1 st2 e new (at, others) apart out = record {
    filled = λ q j k' h e'. elim h [
      | inl here ↦
          let q_r : q ≡ r = here.0 in
          let same : k' ≡ k =
            let e2 : sees st r ≡ some (unset k') = ap (λ p. sees st p) (sym q_r) ∙ e' in cc in
          rw (q_r, same) (out.stays r (known (eval (const_of z number names r k))) new at)
      | inr later ↦ out.filled q j k' later (others q (unset k') (apart q j later) e')
    ];
    stays = λ q o no e'.
        out.stays q o (λ j h. no j (inr h)) (others q o (λ q_r. no i (inl (q_r, refl))) e');
  }

  round :
      (r : Ref) (i : ℕ) (items : List (Ref × ℕ)) (st st' : ℕ → Val) (t : E)
      → get_elem? exprs i ≡ some t
      → get_numeral (eval t) ≡ done (eval t)
      → fill_at rand r (eval t) st ≡ done st'
      → has_part r items ≡ false
      → fill_syms rand eval exprs ((r, i) ∷ items) st ≡ fill_syms rand eval exprs items st'
  unfolding fill_syms
  round r i items st st' t e n f p = rw (e, fill_syms) (rw n (rw f (rw p refl)))

  -- Every entry is filled, and nothing else changes.
  pub fill_syms-Outcome :
      (items : List (Ref × ℕ)) (st : ℕ → Val)
      → Distinct items
      → ((r : Ref) (i : ℕ) → Has r i items → Ready st r i)
      → (st' : ℕ → Val) × (fill_syms rand eval exprs items st ≡ done st') × Outcome st items st'
  fill_syms-Outcome [] st d each = (
    st,
    unfold fill_syms in refl,
    record { filled = λ r i k h. elim h [ ]; stays = λ r o out e. e },
  )
  fill_syms-Outcome ((r, i) ∷ items) st (new, d) each =
      let (k, et, e, h) = each r i (inl (refl, refl)) in
      let t = const_of z number names r k in
      let (st1, f, new_value) = fill_at-FilledAt rand r k (eval t) st e h in
      let apart : (q : Ref) (j : ℕ) → Has q j items → q ≢ r = λ q j at q_r. new j (rw (← q_r) at) in
      let each' : (q : Ref) (j : ℕ) → Has q j items → Ready st1 q j = λ q j at.
        let (k', et', e', h') = each q j (inr at) in
        (k', et', new_value.1 q (unset k') (apart q j at) e', h') in
      let (st2, run, out) = fill_syms-Outcome items st1 d each' in
      (
        st2,
        round r i items st st1 t et (get_numeral-Represented k (eval t) h) f (
              has_part-false r k st items e
                (λ q j at. let (k', et', e', h') = each q j (inr at) in (unset k', e')))
            ∙ run,
        filled_first r i k items st st1 st2 e new new_value apart out,
      )
