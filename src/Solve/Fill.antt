-- ===== src/Solve/Fill.antt =====
-- The loop of start_z3_gen that fills the registered symbols (src/CodegenZ3Visitor.cpp), with the overrides
-- of Symbol::fill_val (src/Symbol.cpp).
pub mod Loop
use d_gen.Prelude.{
  ℕ, ◌^◌, ◌≡◌, ◌≢◌, ◌⊎◌, inl, inr, refl, ◌∙◌, sym, ap, Bool, true, false, Option, none, some, List,
  [], ◌∷◌, ℤ, pos, negsuc, eqb_ℤ, eqb_ℤ_iff, ◌==◌, ==_iff, if◌then◌else◌, Bool-cases, Option-cases,
}
use d_gen.Errors.{ok}
use d_gen.Types.{Ty}
use d_gen.Values.{
  Val, Vals, init_arr, Numeral, int64, truth, null_sym, number_sym, char_sym, bool_sym, array_sym,
  string_sym, fits_int64, fill_val, as_size, to_signed, rem,
}
use d_gen.Values.Access.{at_idxs}
use d_gen.Solve.Setting.{Ref, Result, done, write}
use d_gen.Solve.Run.{fill_symbol, fill_at, get_numeral}
use d_gen.Solve.Sight.{
  Kind, whole, character, boolean, measure, Sight, unset, known, sight, child, look, see,
}
use d_gen.Solve.Sight.Walk.{write-Elsewhere, Elsewhere}
use d_gen.Solve.Gather.{sees, write_at}

-- The model's numeral is one that the symbol can hold.
abbrev pub Represented : Kind → Numeral → Type 0
Represented whole (int64 v) = (fits_int64 v ≡ true) × (to_signed (2 ^ 32) v ≡ v)
Represented character (int64 v) = (fits_int64 v ≡ true) × (to_signed (2 ^ 8) (rem v 256) ≡ v)
Represented boolean (truth b) = Unit
Represented measure (int64 (pos n)) =
    (fits_int64 (pos n) ≡ true) × (to_signed (2 ^ 32) (pos n) ≡ pos n)
Represented _ _ = ⊥

pub get_numeral-Represented : (k : Kind) (x : Numeral) → Represented k x → get_numeral x ≡ done x
unfolding get_numeral
get_numeral-Represented whole (int64 v) (f, e) = rw f refl
get_numeral-Represented whole (truth b) h = elim h [ ]
get_numeral-Represented character (int64 v) (f, e) = rw f refl
get_numeral-Represented character (truth b) h = elim h [ ]
get_numeral-Represented boolean (int64 v) h = elim h [ ]
get_numeral-Represented boolean (truth b) h = refl
get_numeral-Represented measure (int64 (pos n)) (f, e) = rw f refl
get_numeral-Represented measure (int64 (negsuc n)) h = elim h [ ]
get_numeral-Represented measure (truth b) h = elim h [ ]

pub no_elements : (v : Val) (k : Kind) (i : ℤ) → sight v ≡ some (unset k) → child i v ≡ none
no_elements null_sym k (pos i) e = refl
no_elements (number_sym _) k (pos i) e = refl
no_elements (char_sym _) k (pos i) e = refl
no_elements (bool_sym _) k (pos i) e = refl
no_elements (array_sym t none vs) k (pos i) e = refl
no_elements (array_sym t (some n) vs) k (pos i) e = cc
no_elements (string_sym t none vs) k (pos i) e = refl
no_elements (string_sym t (some n) vs) k (pos i) e = cc
no_elements v k (negsuc i) e = refl

-- The symbol gets the numeral.
abbrev pub Fills : Numeral → Val → Type 0
Fills x v = (w : Val) × (fill_val v x ≡ ok w) × (sight w ≡ some (known x))

fill_number : (x : Numeral) → Represented whole x → Fills x (number_sym none)
unfolding fill_val
fill_number (int64 n) (f, same) =
    (number_sym (some (to_signed (2 ^ 32) n)), rw f refl, ap (λ m. some (known (int64 m))) same)
fill_number (truth b) h = elim h [ ]

fill_char : (x : Numeral) → Represented character x → Fills x (char_sym none)
unfolding fill_val
fill_char (int64 n) (f, same) = (
  char_sym (some (to_signed (2 ^ 8) (rem n 256))),
  rw f refl,
  ap (λ m. some (known (int64 m))) same,
)
fill_char (truth b) h = elim h [ ]

fill_bool : (x : Numeral) → Represented boolean x → Fills x (bool_sym none)
unfolding fill_val
fill_bool (int64 n) h = elim h [ ]
fill_bool (truth b) h = (bool_sym (some b), refl, refl)

as_size_same : (n : ℕ) → to_signed (2 ^ 32) (pos n) ≡ pos n → as_size (pos n) ≡ ok n
unfolding as_size
as_size_same n same = rw (as_size, same) refl

fill_array :
    (t : Ty) (vs : Vals) (x : Numeral) → Represented measure x → Fills x (array_sym t none vs)
unfolding fill_val
fill_array t vs (int64 (pos n)) (f, same) =
    (array_sym t (some n) (init_arr t n), rw (f, as_size_same n same) refl, refl)
fill_array t vs (int64 (negsuc n)) h = elim h [ ]
fill_array t vs (truth b) h = elim h [ ]

fill_string :
    (t : Ty) (vs : Vals) (x : Numeral) → Represented measure x → Fills x (string_sym t none vs)
unfolding fill_val
fill_string t vs (int64 (pos n)) (f, same) =
    (string_sym t (some n) (init_arr t n), rw (f, as_size_same n same) refl, refl)
fill_string t vs (int64 (negsuc n)) h = elim h [ ]
fill_string t vs (truth b) h = elim h [ ]

pub fill_val-Fills :
    (k : Kind) (v : Val) (x : Numeral) → sight v ≡ some (unset k) → Represented k x → Fills x v
fill_val-Fills k null_sym x e h = cc
fill_val-Fills k (number_sym none) x e h = fill_number x (rw (let q : k ≡ whole = cc in q) at h)
fill_val-Fills k (number_sym (some v)) x e h = cc
fill_val-Fills k (char_sym none) x e h = fill_char x (rw (let q : k ≡ character = cc in q) at h)
fill_val-Fills k (char_sym (some v)) x e h = cc
fill_val-Fills k (bool_sym none) x e h = fill_bool x (rw (let q : k ≡ boolean = cc in q) at h)
fill_val-Fills k (bool_sym (some v)) x e h = cc
fill_val-Fills k (array_sym t none vs) x e h =
    fill_array t vs x (rw (let q : k ≡ measure = cc in q) at h)
fill_val-Fills k (array_sym t (some n) vs) x e h = cc
fill_val-Fills k (string_sym t none vs) x e h =
    fill_string t vs x (rw (let q : k ≡ measure = cc in q) at h)
fill_val-Fills k (string_sym t (some n) vs) x e h = cc

-- A store in which the symbol `r` has the value `x`, and all that is known elsewhere is as in `st`.
abbrev pub FilledAt : Ref → Numeral → (ℕ → Val) → (ℕ → Val) → Type 0
FilledAt r x st st' =
    (sees st' r ≡ some (known x))
    × ((q : Ref) (o : Sight) → q ≢ r → sees st q ≡ some o → sees st' q ≡ some o)

look_of :
    (is : List ℤ) (v : Val) (o : Sight)
    → see is v ≡ some o
    → (u : Val) × (look is v ≡ some u) × (sight u ≡ some o)
look_of is v o e = elim (Option-cases (look is v)) [
  | inl out ↦ let e' = rw (see, out) at e in cc
  | inr (u, found) ↦ (u, found, let e' = rw (see, found) at e in e')
]

write-FilledAt :
    (r : Ref) (x : Numeral) (w u : Val) (st : ℕ → Val)
    → look r.idxs w ≡ some u
    → sight u ≡ some (known x)
    → Elsewhere r.idxs (st r.input) w
    → FilledAt r x st (write r.input w st)
write-FilledAt r x w u st found e others = (
  ap (see r.idxs) (write_at r.input w st) ∙ rw (see, found) e,
  λ q o ne h. elim (Bool-cases (r.input == q.input)) [
    | inl same ↦
        let p : r.input ≡ q.input = (==_iff r.input q.input).0 same in
        ap (λ b. see q.idxs (if b then w else st q.input)) same
        ∙ others q.idxs o (λ i. ne (λ k. record { input = sym p k; idxs = i k }))
            (ap (λ a. see q.idxs (st a)) p ∙ h)
    | inr other ↦ ap (λ b. see q.idxs (if b then w else st q.input)) other ∙ h
  ],
)

-- One round: `fill_val` at a symbol that has no value.
pub fill_at-FilledAt :
    (rand : ℕ → ℕ) (r : Ref) (k : Kind) (x : Numeral) (st : ℕ → Val)
    → sees st r ≡ some (unset k)
    → Represented k x
    → (st' : ℕ → Val) × (fill_at rand r x st ≡ done st') × FilledAt r x st st'
unfolding fill_at
fill_at-FilledAt rand r k x st e h =
    let (u, found, eu) = look_of r.idxs (st r.input) (unset k) e in
    let (u', ef, eu') = fill_val-Fills k u x eu h in
    let (w, run, found', others) =
      write-Elsewhere rand (fill_symbol x) r.idxs (st r.input) 0 tt u u' 0 found
        (rw (ef, fill_symbol) refl) (λ i. no_elements u k i eu) in
    (write r.input w st, rw (run, fill_at) refl, write-FilledAt r x w u' st found' eu' others)
