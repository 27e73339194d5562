-- ===== src/Examples/Sevens.antt =====
-- A solver with one model, as a value of the parameter that stands for the Z3 library.
use d_gen.Prelude.{
  ◌≡◌, refl, subst, Bool, true, false, not, Option, none, some, List, [], ◌∷◌, pos, if◌then◌else◌,
}
use d_gen.Ast.{lt, gt, and, sum, sub, mul, div, or, le, ge, eq, neq}
use d_gen.Values.{Numeral, int64, truth}
use d_gen.Solve.Setting.{Z3}
use d_gen.Solve.Meaning.{Model, Sound, AllTrue, apply}

abbrev pub all_true : List Numeral → Bool
all_true [] = true
all_true (truth b ∷ fs) = if b then all_true fs else false
all_true (int64 _ ∷ fs) = false

abbrev pub negation : Numeral → Option Numeral
negation (truth b) = some (truth (not b))
negation (int64 _) = none

abbrev pub is_truth : Numeral → Bool
is_truth (truth _) = true
is_truth (int64 _) = false

-- A solver with one model: each integer constant is 7, and each Boolean one is true.
abbrev pub sevens : Z3 Numeral
sevens = record {
  int_val = int64;
  bool_val = truth;
  int_const = λ name. int64 (pos 7);
  bool_const = λ name. truth true;
  plus = apply (λ a. pos 0) sum;
  minus = apply (λ a. pos 0) sub;
  times = apply (λ a. pos 0) mul;
  divided = apply (λ a. pos 0) div;
  less = apply (λ a. pos 0) lt;
  less_eq = apply (λ a. pos 0) le;
  greater = apply (λ a. pos 0) gt;
  greater_eq = apply (λ a. pos 0) ge;
  equal = apply (λ a. pos 0) eq;
  distinct = apply (λ a. pos 0) neq;
  either = apply (λ a. pos 0) or;
  both = apply (λ a. pos 0) and;
  negated = negation;
  is_bool = is_truth;
  check = λ seed fs. if all_true fs then some (λ e. e) else none;
}

not-not : (b c : Bool) → not b ≡ c → b ≡ not c
not-not true true h = cc
not-not true false h = refl
not-not false true h = refl
not-not false false h = cc

negation_lem : (a c : Numeral) (b : Bool) → negation a ≡ some c → c ≡ truth b → a ≡ truth (not b)
negation_lem (int64 v) c b h e = cc
negation_lem (truth d) c b h e = let q : not d ≡ b = cc in let q' = not-not d b q in rw q' refl

identity : Model sevens (λ e. e)
identity = record {
  by_zero = λ a. pos 0;
  int_vals = λ v. refl;
  bool_vals = λ b. refl;
  sums = λ a b c h. h;
  differences = λ a b c h. h;
  products = λ a b c h. h;
  quotients = λ a b c h. h;
  less = λ a b c h. h;
  less_eq = λ a b c h. h;
  greater = λ a b c h. h;
  greater_eq = λ a b c h. h;
  equal = λ a b c h. h;
  distinct = λ a b c h. h;
  either = λ a b c h. h;
  both = λ a b c h. h;
  negations = negation_lem;
}

answer :
    (b : Bool) (eval : Numeral → Numeral)
    → (if b then some (λ (e : Numeral). e) else none) ≡ some eval
    → (b ≡ true) × ((λ (e : Numeral). e) ≡ eval)
answer true eval h = (refl, cc)
answer false eval h = cc

all_true-AllTrue : (fs : List Numeral) → all_true fs ≡ true → AllTrue (λ e. e) fs
all_true-AllTrue [] h = tt
all_true-AllTrue (truth true ∷ fs) h = (refl, all_true-AllTrue fs h)
all_true-AllTrue (truth false ∷ fs) h = cc
all_true-AllTrue (int64 _ ∷ fs) h = cc

pub sevens_sound : Sound sevens
sevens_sound = record {
  model = λ seed fs eval h. subst (Model sevens) (answer (all_true fs) eval h).1 identity;
  holds = λ seed fs eval h.
      let a = answer (all_true fs) eval h in
      subst (λ f. AllTrue f fs) a.1 (all_true-AllTrue fs a.0);
}
