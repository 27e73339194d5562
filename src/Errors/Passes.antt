-- ===== src/Errors/Passes.antt =====
-- Checks: functions that return nothing or throw, and the propositions that they test.
use d_gen.Prelude.{Bool, true, false, not, String, ◌≡◌, refl, ◌↔◌, if◌then◌else◌}
use d_gen.Errors.{Position, Outcome, ok, err, crash, ◌>>=◌, ◌>>◌, >>=-eq-ok, throw}

-- The check succeeds exactly when `P` holds.
abbrev pub Passes : Outcome (Unit {0}) → Type 0 → Type 0
Passes m P = (m ≡ ok tt) ↔ P

pub Passes-ok : Passes (ok tt) Unit
Passes-ok = (λ _. tt, λ _. refl)

pub Passes-then :
    (m : Outcome (Unit {0})) {k : Outcome (Unit {0})} {P Q : Type 0}
    → Passes m P
    → Passes k Q
    → Passes (m >> k) (P × Q)
Passes-then (ok tt) p q = (λ h. (p.0 refl, q.0 h), λ (x, y). q.1 y)
Passes-then (err e) p q = (λ h. cc, λ (x, y). cc (p.1 x))
Passes-then crash p q = (λ h. cc, λ (x, y). cc (p.1 x))

pub Passes-bind :
    {A : Type 0} (m : Outcome A) (f : A → Outcome (Unit {0})) {Q : A → Type 0}
    → ((a : A) → Passes (f a) (Q a))
    → Passes (m >>= f) ((a : A) × (m ≡ ok a) × Q a)
Passes-bind m f q =
    (λ h. let (a, e, h') = >>=-eq-ok m f h in (a, e, (q a).0 h'), λ (a, e, x). rw e ((q a).1 x))

pub Passes-unless :
    (b : Bool) (p : Position) (msg : String) {k : Outcome (Unit {0})} {Q : Type 0}
    → Passes k Q
    → Passes (if not b then throw p msg else k) ((b ≡ true) × Q)
Passes-unless true p msg q = (λ h. (refl, q.0 h), λ (_, x). q.1 x)
Passes-unless false p msg q = (λ h. cc, λ (e, _). cc e)

pub Passes-when :
    (b : Bool) (p : Position) (msg : String) → Passes (if b then throw p msg else ok tt) (b ≡ false)
Passes-when true p msg = (λ h. cc, λ e. cc e)
Passes-when false p msg = (λ h. refl, λ e. refl)

pub Passes-iff : {m : Outcome (Unit {0})} {P Q : Type 0} → P ↔ Q → Passes m P → Passes m Q
Passes-iff e p = (λ h. e.0 (p.0 h), λ q. p.1 (e.1 q))
