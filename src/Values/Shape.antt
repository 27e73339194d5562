-- ===== src/Values/Shape.antt =====
-- The values that belong to a declared type, those that are generated to the last part, and what a value
-- is when more of it has been generated (src/Symbol.cpp).
use d_gen.Prelude.{
  ℕ, zero, suc, ◌≡◌, refl, ◌∙◌, sym, ap, ap₂, subst, Option, none, some, List, [], ◌∷◌, get_or,
  Bool, ℤ,
}
use d_gen.Types.{TypeKind, int, string, char, bool, arr, invalid, Ty, drop_type}
use d_gen.Types.View.{view, kinds_drop, current-view, view-drop_type}
use d_gen.Ast.Rank.{IsDeclared}
use d_gen.Values.{
  Val, Vals, null_sym, number_sym, char_sym, bool_sym, array_sym, string_sym, nil, cons, fresh,
  fresh_of, elements, get_pointed_type_elem,
}

abbrev pub count : Vals → ℕ
count nil = 0
count (cons v vs) = suc (count vs)

-- There are as many elements as `inited_size` says, and none before it is drawn.
abbrev pub Filled : Option ℕ → Vals → Type 0
Filled none vs = vs ≡ nil
Filled (some n) vs = count vs ≡ n

-- The values of a type with these kinds.
mutual
  pub data Fits : List TypeKind → Val → Type 0 where
    int_value : {num : Option ℤ} → Fits (int ∷ []) (number_sym num)
    char_value : {ch : Option ℤ} → Fits (char ∷ []) (char_sym ch)
    bool_value : {val : Option Bool} → Fits (bool ∷ []) (bool_sym val)
    string_value :
        {t : Ty} {size : Option ℕ} {vs : Vals}
        → view t ≡ string ∷ []
        → Filled size vs
        → FitsAll (char ∷ []) vs
        → Fits (string ∷ []) (string_sym t size vs)
    array_value :
        {t : Ty} {ks : List TypeKind} {size : Option ℕ} {vs : Vals}
        → view t ≡ arr ∷ ks
        → Filled size vs
        → FitsAll ks vs
        → Fits (arr ∷ ks) (array_sym t size vs)

  pub data FitsAll : List TypeKind → Vals → Type 0 where
    no_values : {ks : List TypeKind} → FitsAll ks nil
    and_values :
        {ks : List TypeKind} {v : Val} {vs : Vals}
        → Fits ks v
        → FitsAll ks vs
        → FitsAll ks (cons v vs)

abbrev pub Given {ℓ} : {A : Type ℓ} → Option A → Type 0
Given none = ⊥
Given (some a) = Unit

-- Every part has its value.
abbrev mutual
  pub Complete : Val → Type 0
  Complete null_sym = ⊥
  Complete (number_sym num) = Given num
  Complete (char_sym ch) = Given ch
  Complete (bool_sym val) = Given val
  Complete (array_sym t size vs) = Given size × Completes vs
  Complete (string_sym t size vs) = Given size × Completes vs

  pub Completes : Vals → Type 0
  Completes nil = Unit
  Completes (cons v vs) = Complete v × Completes vs

abbrev pub Kept {ℓ} : {A : Type ℓ} → Option A → Option A → Type ℓ
Kept none b = Unit
Kept (some a) b = b ≡ some a

-- The second value has all the parts that the first has, as they are there.
mutual
  pub data Extends : Val → Val → Type 0 where
    more_int : {a b : Option ℤ} → Kept a b → Extends (number_sym a) (number_sym b)
    more_char : {a b : Option ℤ} → Kept a b → Extends (char_sym a) (char_sym b)
    more_bool : {a b : Option Bool} → Kept a b → Extends (bool_sym a) (bool_sym b)
    new_array :
        {t : Ty} {b : Option ℕ} {vs ws : Vals} → Extends (array_sym t none vs) (array_sym t b ws)
    more_array :
        {t : Ty} {n : ℕ} {vs ws : Vals}
        → ExtendsAll vs ws
        → Extends (array_sym t (some n) vs) (array_sym t (some n) ws)
    new_string :
        {t : Ty} {b : Option ℕ} {vs ws : Vals} → Extends (string_sym t none vs) (string_sym t b ws)
    more_string :
        {t : Ty} {n : ℕ} {vs ws : Vals}
        → ExtendsAll vs ws
        → Extends (string_sym t (some n) vs) (string_sym t (some n) ws)

  pub data ExtendsAll : Vals → Vals → Type 0 where
    no_more : ExtendsAll nil nil
    and_more :
        {v w : Val} {vs ws : Vals}
        → Extends v w
        → ExtendsAll vs ws
        → ExtendsAll (cons v vs) (cons w ws)

Kept-Given : {A : Type 0} (a b : Option A) → Given a → Kept a b → b ≡ a
Kept-Given none b g h = absurd g
Kept-Given (some x) b g h = h

-- Nothing can be added to a value that is complete.
mutual
  pub Extends-Complete : (v w : Val) → Complete v → Extends v w → w ≡ v
  Extends-Complete _ _ c (more_int {a = a} {b = b} h) = ap number_sym (Kept-Given a b c h)
  Extends-Complete _ _ c (more_char {a = a} {b = b} h) = ap char_sym (Kept-Given a b c h)
  Extends-Complete _ _ c (more_bool {a = a} {b = b} h) = ap bool_sym (Kept-Given a b c h)
  Extends-Complete _ _ c new_array = absurd c.0
  Extends-Complete _ _ c (more_array {t = t} {n = n} {vs = vs} {ws = ws} x) =
      ap (array_sym t (some n)) (ExtendsAll-Completes vs ws c.1 x)
  Extends-Complete _ _ c new_string = absurd c.0
  Extends-Complete _ _ c (more_string {t = t} {n = n} {vs = vs} {ws = ws} x) =
      ap (string_sym t (some n)) (ExtendsAll-Completes vs ws c.1 x)

  ExtendsAll-Completes : (vs ws : Vals) → Completes vs → ExtendsAll vs ws → ws ≡ vs
  ExtendsAll-Completes _ _ c no_more = refl
  ExtendsAll-Completes _ _ c (and_more {v = v} {w = w} {vs = vs} {ws = ws} x xs) =
      ap₂ cons (Extends-Complete v w c.0 x) (ExtendsAll-Completes vs ws c.1 xs)

pub count-elements : (n : ℕ) (v : Val) → count (elements n v) ≡ n
unfolding elements
count-elements zero v = refl
count-elements (suc n) v = ap suc (count-elements n v)

pub elements-FitsAll :
    (n : ℕ) (ks : List TypeKind) (v : Val) → Fits ks v → FitsAll ks (elements n v)
unfolding elements
elements-FitsAll zero ks v p = no_values
elements-FitsAll (suc n) ks v p = and_values p (elements-FitsAll n ks v p)

fresh_of-Fits :
    (t : Ty) (ks : List TypeKind)
    → view t ≡ ks
    → IsDeclared ks
    → Fits ks (fresh_of t (get_or ks 0 invalid))
unfolding fresh_of
fresh_of-Fits t [] e d = absurd d
fresh_of-Fits t (arr ∷ ks) e d = array_value e refl no_values
fresh_of-Fits t (int ∷ []) e d = int_value
fresh_of-Fits t (char ∷ []) e d = char_value
fresh_of-Fits t (bool ∷ []) e d = bool_value
fresh_of-Fits t (string ∷ []) e d = string_value e refl no_values
fresh_of-Fits t (invalid ∷ ks) e d = absurd d
fresh_of-Fits t (int ∷ j ∷ ks) e d = absurd d
fresh_of-Fits t (char ∷ j ∷ ks) e d = absurd d
fresh_of-Fits t (bool ∷ j ∷ ks) e d = absurd d
fresh_of-Fits t (string ∷ j ∷ ks) e d = absurd d

-- A new symbol is a value of its type.
pub fresh-Fits : (t : Ty) → IsDeclared (view t) → Fits (view t) (fresh t)
unfolding fresh
fresh-Fits t d =
    subst (λ k. Fits (view t) (fresh_of t k)) (sym (current-view t))
      (fresh_of-Fits t (view t) refl d)

-- The elements of a new array are values of the type that indexing leaves, and those of a new string
-- are characters.
pub elem-Fits :
    (t : Ty) (ks : List TypeKind)
    → kinds_drop (view t) ≡ ks
    → IsDeclared ks
    → Fits ks (get_pointed_type_elem t)
unfolding get_pointed_type_elem
elem-Fits t ks e d =
    let e' : view (drop_type t) ≡ ks = view-drop_type t ∙ e in
    subst (λ js. Fits js (fresh (drop_type t))) e'
      (fresh-Fits (drop_type t) (subst IsDeclared (sym e') d))
