-- ===== src/Solve/Gather/Steps.antt =====
-- How the steps of the translation of a condition go together (gen_expr in src/CodegenZ3Visitor.cpp).
use d_gen.Prelude.{
  ℕ, ◌≡◌, ◌⊎◌, inl, inr, refl, ◌∙◌, sym, ap, Bool, true, false, Option, none, some, List, String, ℤ,
  if◌then◌else◌,
}
use d_gen.Errors.{Outcome, ok, err, crash}
use d_gen.Ast.{
  Symbol, IdentNode, Expr, ident_node, bin_op_node, arr_lookup_node, property_lookup_node,
}
use d_gen.Values.{Val, Numeral}
use d_gen.Solve.Setting.{Z3, Ref, State, Result, done, thrown, crashed, or_throw, of_access, ◌>>=◌}
use d_gen.Solve.Sight.{Kind, unset, known, Later-trans}
use d_gen.Solve.Meaning.{Model, known_of}
use d_gen.Solve.Gather.{sees, AllGrow, Entry, IsTable, Ends, Goes, Goes-refl, Goes-trans}
use d_gen.Solve.Gather.Leaves.{Leaf}

pub bind_inv :
    {A B : Type 0} (first : Result A) (rest : A → Result B) {b : B}
    → first >>= rest ≡ done b
    → (a : A) × (first ≡ done a) × (rest a ≡ done b)
bind_inv (done a) rest h = (a, refl, h)
bind_inv thrown rest h = cc
bind_inv crashed rest h = cc

pub if_inv :
    {A : Type 0} (b : Bool) {x y c : A}
    → (if b then x else y) ≡ c
    → ((b ≡ true) × (x ≡ c)) ⊎ ((b ≡ false) × (y ≡ c))
if_inv true h = inl (refl, h)
if_inv false h = inr (refl, h)

pub if_true : {A : Type 0} (b : Bool) (x y : A) → b ≡ true → (if b then x else y) ≡ x
if_true b x y e = rw e refl

pub if_false : {A : Type 0} (b : Bool) (x y : A) → b ≡ false → (if b then x else y) ≡ y
if_false b x y e = rw e refl

pub of_access_inv :
    {A : Type 0} (r : Outcome (Option A)) {a : A} → of_access r ≡ done a → r ≡ ok (some a)
of_access_inv (ok none) h = cc
of_access_inv (ok (some b)) h = cc
of_access_inv (err _) h = cc
of_access_inv crash h = cc

pub or_throw_inv : {A : Type 0} (o : Option A) {a : A} → or_throw o ≡ done a → o ≡ some a
or_throw_inv none h = cc
or_throw_inv (some b) h = cc

-- The nodes that point to an input agree with `names` about its name.
abbrev pub NamedSymbol : (ℕ → String) → Option Symbol → Type 0
NamedSymbol names none = Unit
NamedSymbol names (some s) = s.name ≡ names s.addr

abbrev pub NamedIdent : (ℕ → String) → IdentNode → Type 0
NamedIdent names i = NamedSymbol names i.symbol

abbrev pub Named : (ℕ → String) → Expr → Type 0
Named names (ident_node i) = NamedIdent names i
Named names (bin_op_node _ _ a b) = Named names a × Named names b
Named names (arr_lookup_node _ i _) = NamedIdent names i
Named names (property_lookup_node _ i _) = NamedIdent names i
Named names _ = Unit

module _ {E : Type 0} (z : Z3 E) (number : ℤ → String) (names : ℕ → String) where
  Entry-later :
      (exprs : List E) (st st' : ℕ → Val) (r : Ref) (i : ℕ)
      → AllGrow st st'
      → Entry z number names exprs st r i
      → Entry z number names exprs st' r i
  Entry-later exprs st st' r i g (k, e, o, eo, l) =
      let (o', eo', l') = g r o eo in (k, e, o', eo', Later-trans (unset k) o o' l l')

  pub grow-IsTable :
      (s : State E) (st' : ℕ → Val) (n : ℕ)
      → IsTable z number names s
      → AllGrow s.store st'
      → IsTable z number names (record s { store = st'; calls = n })
  grow-IsTable s st' n table g = record {
    entries = λ r i h. Entry-later s.exprs s.store st' r i g (table.entries r i h);
    distinct = table.distinct;
  }

  was_unset :
      (s s' : State E) (r : Ref) (i : ℕ)
      → Entry z number names s.exprs s.store r i
      → Goes s s'
      → (k : Kind) × (sees s'.store r ≡ some (unset k))
      → (k : Kind) × (sees s.store r ≡ some (unset k))
  was_unset s s' r i (k, e, unset j, eo, l) g now = (j, eo)
  was_unset s s' r i (k, e, known x, eo, l) g (j, ej) =
      let (o', e', l') = g.grows r (known x) eo in cc

  -- An outcome for the later state is one for the earlier.
  pub Ends-back :
      (eval : E → Numeral) (st : ℕ → Val) (s s' : State E)
      → IsTable z number names s
      → Goes s s'
      → Ends z number names eval st s'
      → Ends z number names eval st s
  Ends-back eval st s s' table g ends = record {
    stays = λ r x e. let (o', e', l) = g.grows r (known x) e in ends.stays r x (e' ∙ ap some l);
    still = λ r i h.
        let (j, h') = g.keys r i h in
        was_unset s s' r i (table.entries r i h) g (ends.still r j h');
    filled = λ r i k h e.
        let (j, h') = g.keys r i h in
        let (k', ek) = ends.still r j h' in
        let (o', e', l) = g.grows r (unset k) e in
        let l' : k ≡ k' = rw (let q : o' ≡ unset k' = cc in q) at l in
        ends.filled r j k h' (ek ∙ ap (λ c. some (unset c)) (sym l'));
  }

  -- The translation of an expression with the value `V`, in the memory and the store of an outcome.
  pub record Gathered (V : (ℤ → ℤ) → (ℕ → Val) → Option Numeral) (s : State E) (t : E)
      (s' : State E) : Type 0 where
    pub table : IsTable z number names s'
    pub goes : Goes s s'
    pub means :
        (eval : E → Numeral) (st : ℕ → Val) (m : Model z eval)
        → Ends z number names eval st s'
        → V m.by_zero st ≡ some (eval t)

  pub const-Gathered :
      (V : (ℤ → ℤ) → (ℕ → Val) → Option Numeral) (s : State E) (t : E)
      → IsTable z number names s
      → ((eval : E → Numeral) (st : ℕ → Val) (m : Model z eval) → V m.by_zero st ≡ some (eval t))
      → Gathered V s t s
  const-Gathered V s t table e = record {
    table = table;
    goes = Goes-refl s;
    means = λ eval st m ends. e eval st m;
  }

  pub Leaf-Gathered :
      (V : (ℤ → ℤ) → (ℕ → Val) → Option Numeral) (r : Ref) (s : State E) (t : E) (s' : State E)
      → Leaf z number names r s t s'
      → ((by_zero : ℤ → ℤ) (st : ℕ → Val) → V by_zero st ≡ known_of (sees st r))
      → Gathered V s t s'
  Leaf-Gathered V r s t s' leaf e = record {
    table = leaf.table;
    goes = leaf.goes;
    means = λ eval st m ends. e m.by_zero st ∙ leaf.means eval st m ends;
  }

  pub before-Gathered :
      (V : (ℤ → ℤ) → (ℕ → Val) → Option Numeral) (s s' : State E) (t : E) (u : State E)
      → Goes s s'
      → Gathered V s' t u
      → Gathered V s t u
  before-Gathered V s s' t u g h = record {
    table = h.table;
    goes = Goes-trans s s' u g h.goes;
    means = h.means;
  }

  pub same-Gathered :
      (V W : (ℤ → ℤ) → (ℕ → Val) → Option Numeral) (s : State E) (t : E) (s' : State E)
      → ((by_zero : ℤ → ℤ) (st : ℕ → Val) → W by_zero st ≡ V by_zero st)
      → Gathered V s t s'
      → Gathered W s t s'
  same-Gathered V W s t s' e h = record {
    table = h.table;
    goes = h.goes;
    means = λ eval st m ends. e m.by_zero st ∙ h.means eval st m ends;
  }
