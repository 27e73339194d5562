-- ===== src/Tool/Last.antt =====
-- Of the arguments with one letter the last counts (tool/main.cpp).
use Prim.Native.Char.{code}
use d_gen.Prelude.{
  ℕ, ℤ, ◌≡◌, refl, ◌∙◌, ap, ◌⊎◌, inl, inr, Bool, true, false, ◌||◌, Option, none, some, List, [],
  ◌∷◌, String, ◌==◌, Bool-cases, if◌then◌else◌, arith,
}
use d_gen.Errors.{ok, crash}
use d_gen.Tool.{Options, Action, usage, generate, set_option, parse_arg, parse_args, choose, start}

-- What an argument gives the parameter with the letter `c`.
abbrev value_of : ℕ → String → Option String
value_of c String.[] = none
value_of c (String.◌∷◌ a String.[]) = none
value_of c (String.◌∷◌ a (String.◌∷◌ d value)) = if code d == c then some value else none

abbrev or_else {ℓ} : {A : Type ℓ} → Option A → Option A → Option A
or_else none b = b
or_else (some a) b = some a

-- The last argument with the letter `c` gives the value.
abbrev pub last_value : ℕ → List String → Option String
last_value c [] = none
last_value c (arg ∷ args) = or_else (last_value c args) (value_of c arg)

abbrev is_empty : String → Bool
is_empty String.[] = true
is_empty (String.◌∷◌ a s) = false

abbrev pub has_empty : List String → Bool
has_empty [] = false
has_empty (arg ∷ args) = is_empty arg || has_empty args

abbrev numeral : (String → ℤ) → Option String → Option ℤ
numeral atoi none = none
numeral atoi (some s) = some (atoi s)

-- With the values for the letters f, s and n.
abbrev pub action_of : (String → ℤ) → Option String → Option String → Option String → Action
action_of atoi none s n = usage
action_of atoi (some path) s none = usage
action_of atoi (some path) s (some n) = generate path (atoi n) (numeral atoi s)

module _ (atoi : String → ℤ) where
  abbrev updated : Option String → Option String → Option String → Options → Options
  updated f s n o = record {
    prog_path = or_else f o.prog_path;
    seed = or_else (numeral atoi s) o.seed;
    tests_num = or_else (numeral atoi n) o.tests_num;
  }

  set_option-updated :
      (d : ℕ) (value : String) (o : Options)
      → set_option atoi d value o
        ≡ updated
            (if d == b'f' then some value else none)
            (if d == b's' then some value else none)
            (if d == b'n' then some value else none)
            o
  unfolding set_option
  set_option-updated d value o = ground arith

  parse_arg-updated :
      (arg : String) (o : Options)
      → is_empty arg ≡ false
      → parse_arg atoi arg o
        ≡ ok (updated (value_of b'f' arg) (value_of b's' arg) (value_of b'n' arg) o)
  unfolding parse_arg
  parse_arg-updated String.[] o h = cc
  parse_arg-updated (String.◌∷◌ a String.[]) o h = ap ok (set_option-updated 0 String.[] o)
  parse_arg-updated (String.◌∷◌ a (String.◌∷◌ d value)) o h =
      ap ok (set_option-updated (code d) value o)

  or_else_assoc {ℓ} :
      {A : Type ℓ} (a b c : Option A) → or_else a (or_else b c) ≡ or_else (or_else a b) c
  or_else_assoc none b c = refl
  or_else_assoc (some a) b c = refl

  numeral-or_else :
      (a b : Option String) → numeral atoi (or_else a b) ≡ or_else (numeral atoi a) (numeral atoi b)
  numeral-or_else none b = refl
  numeral-or_else (some a) b = refl

  updated-updated :
      (f f' s s' n n' : Option String) (o : Options)
      → updated f s n (updated f' s' n' o) ≡ updated (or_else f f') (or_else s s') (or_else n n') o
  updated-updated f f' s s' n n' o =
      rw
        (
          or_else_assoc f f' o.prog_path,
          numeral-or_else s s',
          numeral-or_else n n',
          or_else_assoc (numeral atoi s) (numeral atoi s') o.seed,
          or_else_assoc (numeral atoi n) (numeral atoi n') o.tests_num,
        )
        refl

  parse_args-updated :
      (args : List String) (o : Options)
      → has_empty args ≡ false
      → parse_args atoi args o
        ≡ ok (updated (last_value b'f' args) (last_value b's' args) (last_value b'n' args) o)
  unfolding parse_args
  parse_args-updated [] o h = refl
  parse_args-updated (arg ∷ args) o h = elim (Bool-cases (is_empty arg)) [
    | inl e ↦ cc (rw e at h)
    | inr e ↦
        rw (parse_arg-updated arg o e)
          (parse_args-updated args _ (rw e at h) ∙ ap ok (updated-updated _ _ _ _ _ _ o))
  ]

  parse_args-crash :
      (args : List String) (o : Options) → has_empty args ≡ true → parse_args atoi args o ≡ crash
  unfolding parse_args parse_arg
  parse_args-crash [] o h = cc
  parse_args-crash (String.[] ∷ args) o h = refl
  parse_args-crash (String.◌∷◌ a String.[] ∷ args) o h = parse_args-crash args _ h
  parse_args-crash (String.◌∷◌ a (String.◌∷◌ d value) ∷ args) o h = parse_args-crash args _ h

abbrev no_options : Options
no_options = record { prog_path = none; seed = none; tests_num = none }

choose-updated :
    (atoi : String → ℤ) (f s n : Option String)
    → choose (updated atoi f s n no_options) ≡ action_of atoi f s n
unfolding choose
choose-updated atoi none s n = refl
choose-updated atoi (some path) s none = refl
choose-updated atoi (some path) none (some n) = refl
choose-updated atoi (some path) (some s) (some n) = refl

-- The tool crashes exactly if an argument is empty. Otherwise the last argument with the letter f gives
-- the path, the last with the letter n the number of tests and the last with the letter s the seed,
-- whatever else there is; the usage is printed if there is no path or no number of tests.
pub start_exact :
    (atoi : String → ℤ) (args : List String)
    → ((has_empty args ≡ true) × (start atoi args ≡ crash))
      ⊎ ((has_empty args ≡ false)
          × (start atoi args
              ≡ ok (
                  action_of atoi
                    (last_value b'f' args)
                    (last_value b's' args)
                    (last_value b'n' args))))
unfolding start
start_exact atoi args = elim (Bool-cases (has_empty args)) [
  | inl e ↦ inl (e, rw (parse_args-crash atoi args no_options e) refl)
  | inr e ↦
      inr (e, rw (parse_args-updated atoi args no_options e) (ap ok (choose-updated atoi _ _ _)))
]
