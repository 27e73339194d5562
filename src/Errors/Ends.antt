-- ===== src/Errors/Ends.antt =====
-- How a function that may throw or crash ends, with a rule for each way to build one.
use d_gen.Prelude.{List, Bool, true, false, ◌≡◌, refl, ◌⊎◌, inl, inr, if◌then◌else◌}
use d_gen.Errors.{Err, Outcome, ok, err, crash, ◌>>=◌}

-- `P` holds of the value, `E` of the thrown errors, `C` if the program crashes.
pub data Ends {A : Type 0} (P : A → Type 0) (E : List Err → Type 0) (C : Type 0)
    : Outcome A → Type 0 where
  returns : {a : A} → P a → Ends P E C (ok a)
  throws : {e : List Err} → E e → Ends P E C (err e)
  crashes : C → Ends P E C crash

module _ {A B : Type 0} {P : A → Type 0} {Q : B → Type 0} {E : List Err → Type 0} {C : Type 0} where
  pub Ends-bind :
      {m : Outcome A} {f : A → Outcome B}
      → Ends P E C m
      → ((a : A) → P a → Ends Q E C (f a))
      → Ends Q E C (m >>= f)
  Ends-bind (returns {a} p) k = k a p
  Ends-bind (throws e) k = throws e
  Ends-bind (crashes c) k = crashes c

module _ {A : Type 0} {P Q : A → Type 0} {E F : List Err → Type 0} {C : Type 0} where
  pub Ends-map :
      {m : Outcome A}
      → ((a : A) → P a → Q a)
      → ((e : List Err) → E e → F e)
      → Ends P E C m
      → Ends Q F C m
  Ends-map g h (returns p) = returns (g _ p)
  Ends-map g h (throws e) = throws (h _ e)
  Ends-map g h (crashes c) = crashes c

module _ {A : Type 0} {P : A → Type 0} {E : List Err → Type 0} {C : Type 0} where
  pub of_ok : {a : A} → Ends P E C (ok a) → P a
  of_ok (returns p) = p

  pub of_err : {e : List Err} → Ends P E C (err e) → E e
  of_err (throws h) = h

  pub of_crash : Ends P E C crash → C
  of_crash (crashes c) = c

  pub Ends-if :
      (b : Bool) {m n : Outcome A}
      → (b ≡ true → Ends P E C m)
      → (b ≡ false → Ends P E C n)
      → Ends P E C (if b then m else n)
  Ends-if true hm hn = hm refl
  Ends-if false hm hn = hn refl

-- The three ways to end, with what is known in each.
pub Ends-cases :
    {A : Type 0} {P : A → Type 0} {E : List Err → Type 0} {C : Type 0} (m : Outcome A)
    → Ends P E C m
    → ((a : A) × (m ≡ ok a) × P a) ⊎ ((e : List Err) × (m ≡ err e) × E e) ⊎ (C × (m ≡ crash))
Ends-cases (ok a) h = inl (a, refl, of_ok h)
Ends-cases (err e) h = inr (inl (e, refl, of_err h))
Ends-cases crash h = inr (inr (of_crash h, refl))

pub anyhow : {A : Type 0} (m : Outcome A) → Ends (λ _. Unit {0}) (λ _. Unit {0}) (Unit {0}) m
anyhow (ok a) = returns tt
anyhow (err e) = throws tt
anyhow crash = crashes tt

-- The value that the function returned is known to be that.
pub Ends-eq :
    {A : Type 0} {P : A → Type 0} {E : List Err → Type 0} {C : Type 0} (m : Outcome A)
    → Ends P E C m
    → Ends (λ a. P a × (m ≡ ok a)) E C m
Ends-eq (ok a) (returns p) = returns (p, refl)
Ends-eq (err e) (throws x) = throws x
Ends-eq crash (crashes c) = crashes c

pub Ends-both :
    {A : Type 0} {P Q : A → Type 0} {E F : List Err → Type 0} {C D : Type 0} {m : Outcome A}
    → Ends P E C m
    → Ends Q F D m
    → Ends (λ a. P a × Q a) E C m
Ends-both (returns p) (returns q) = returns (p, q)
Ends-both (throws x) _ = throws x
Ends-both (crashes c) _ = crashes c
