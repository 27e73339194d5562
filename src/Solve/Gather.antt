-- ===== src/Solve/Gather.antt =====
-- The symbols that a condition registers while it is translated (gen_expr in src/CodegenZ3Visitor.cpp):
-- what holds of `exprs` and `syms_to_expr_id`, and when a store is an outcome of solving.
pub mod Table
pub mod Leaves
pub mod Steps
pub mod Nodes
pub mod Lengths
pub mod Expressions
use d_gen.Prelude.{
  ℕ, ◌≡◌, ◌≢◌, inl, inr, refl, ◌∙◌, sym, ap, Bool, true, false, Option, none, some, List, [], ◌∷◌,
  ◌++◌, String, ℤ, get_elem?, length, text_append, if◌then◌else◌, ◌==◌, ==_iff, Bool-cases,
}
use d_gen.Values.{Val, Numeral}
use d_gen.Solve.{element_name, push_expr}
use d_gen.Solve.Setting.{Z3, Ref, State, insert_sym, write}
use d_gen.Solve.Sight.{
  Kind, whole, character, boolean, measure, Sight, unset, known, see, Later, Later-refl,
  Later-trans, Grows,
}
use d_gen.Solve.Gather.Table.{
  Has, Distinct, Has-insert_sym, insert_sym-Has, insert_sym-keeps, Distinct-insert_sym,
  get_elem?-append_left,
}

abbrev pub sees : (ℕ → Val) → Ref → Option Sight
sees st r = see r.idxs (st r.input)

abbrev pub AllGrow : (ℕ → Val) → (ℕ → Val) → Type 0
AllGrow st st' =
    (r : Ref) (o : Sight) → sees st r ≡ some o → (o' : Sight) × (sees st' r ≡ some o') × Later o o'

pub AllGrow-refl : (st : ℕ → Val) → AllGrow st st
AllGrow-refl st r o e = (o, e, Later-refl o)

pub write_at : (a : ℕ) (w : Val) (st : ℕ → Val) → write a w st a ≡ w
write_at a w st = let e : (a == a) ≡ true = (==_iff a a).1 refl in rw e refl

pub write-Grows : (a : ℕ) (w : Val) (st : ℕ → Val) → Grows (st a) w → AllGrow st (write a w st)
write-Grows a w st g r o e = elim (Bool-cases (a == r.input)) [
  | inl same ↦
      let q : a ≡ r.input = (==_iff a r.input).0 same in
      let (o', e', l) = g r.idxs o (ap (λ b. see r.idxs (st b)) q ∙ e) in
      (o', ap (λ b. see r.idxs (if b then w else st r.input)) same ∙ e', l)
  | inr other ↦ (o, ap (λ b. see r.idxs (if b then w else st r.input)) other ∙ e, Later-refl o)
]

-- The names of the inputs by the addresses of their symbols.
module _ {E : Type 0} (z : Z3 E) (number : ℤ → String) (names : ℕ → String) where
  abbrev pub name_of : Ref → String
  name_of r = elim r.idxs [
    | [] ↦ names r.input
    | i ∷ is ↦ element_name number (names r.input) (i ∷ is)
  ]

  -- The constant that stands for a symbol without a value.
  abbrev pub const_of : Ref → Kind → E
  const_of r whole = z.int_const (name_of r)
  const_of r character = z.int_const (name_of r)
  const_of r boolean = z.bool_const (name_of r)
  const_of r measure = z.int_const (text_append (names r.input) ".len")

  -- Each entry leads to the constant of its symbol, which had no value when it was registered.
  abbrev pub Entry : List E → (ℕ → Val) → Ref → ℕ → Type 0
  Entry exprs st r i =
      (k : Kind) × (get_elem? exprs i ≡ some (const_of r k))
      × (o : Sight) × (sees st r ≡ some o)
      × Later (unset k) o

  pub record IsTable (s : State E) : Type 0 where
    pub entries : (r : Ref) (i : ℕ) → Has r i s.syms → Entry s.exprs s.store r i
    pub distinct : Distinct s.syms

  -- The store `st` has all values of the state, and for each symbol that was registered, and has still
  -- no value, that of its constant.
  pub record Ends (eval : E → Numeral) (st : ℕ → Val) (s : State E) : Type 0 where
    pub stays :
        (r : Ref) (x : Numeral) → sees s.store r ≡ some (known x) → sees st r ≡ some (known x)
    pub still : (r : Ref) (i : ℕ) → Has r i s.syms → (k : Kind) × (sees s.store r ≡ some (unset k))
    pub filled :
        (r : Ref) (i : ℕ) (k : Kind)
        → Has r i s.syms
        → sees s.store r ≡ some (unset k)
        → sees st r ≡ some (known (eval (const_of r k)))

-- The state goes on: values stay, and so do the registered symbols.
pub record Goes {E : Type 0} (s s' : State E) : Type 0 where
  pub grows : AllGrow s.store s'.store
  pub keys : (r : Ref) (i : ℕ) → Has r i s.syms → (j : ℕ) × Has r j s'.syms

pub Goes-refl : {E : Type 0} (s : State E) → Goes s s
Goes-refl s = record { grows = AllGrow-refl s.store; keys = λ r i h. (i, h) }

pub Goes-trans : {E : Type 0} (s s' t : State E) → Goes s s' → Goes s' t → Goes s t
Goes-trans s s' t g h = record {
  grows = λ r a e.
      let (b, eb, l) = g.grows r a e in
      let (c, ec, m) = h.grows r b eb in (c, ec, Later-trans a b c l m);
  keys = λ r i at. let (j, at') = g.keys r i at in h.keys r j at';
}
