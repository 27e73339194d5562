-- ===== src/Generate/Fresh.antt =====
-- DGen::generate_json, gather_res and reset (src/DGen.cpp): each test starts from new inputs.
use d_gen.Prelude.{
  ℕ, zero, suc, ◌≤◌, ◌≡◌, refl, ◌∙◌, sym, ap, ap₂, subst, List, [], ◌∷◌, length, String, concat,
  arith,
}
use d_gen.Errors.{ok}
use d_gen.Types.View.{view}
use d_gen.Ast.Rank.{IsDeclared}
use d_gen.Values.{Texts, reset_val, fresh}
use d_gen.Values.Shape.{Fits, Extends}
use d_gen.Values.Text.{json_text}
use d_gen.Values.Serialize.{serialize-Written}
use d_gen.Values.Again.{reset-Extends, reset-fresh}
use d_gen.Generate.{
  Input, Compiled, gather_inputs, gather_res, reset, run_tests, json_tests, generate_tests,
}

-- Inputs of declared types as type_ast creates them.
abbrev pub New : List Input → Type 0
New [] = Unit
New (i ∷ is) = IsDeclared (view i.type) × (i.val ≡ fresh i.type) × New is

-- The second inputs are the first ones with more of their values generated.
abbrev pub Touched : List Input → List Input → Type 0
Touched [] [] = Unit
Touched (i ∷ is) (j ∷ js) =
    (j.name ≡ i.name)
    × (j.type ≡ i.type)
    × Fits (view i.type) j.val
    × Extends i.val j.val
    × Touched is js
Touched _ _ = ⊥

-- The compiled function returns, and does nothing to its inputs but generate their values.
abbrev pub Accesses : Compiled → List Input → Type 0
Accesses d_gen_func is =
    (n : ℕ)
    → (res_str : String) × (js : List Input) × (m : ℕ) × (d_gen_func is n ≡ ok (res_str, js, m))
      × Touched is js

Input-eq : (i j : Input) → i.name ≡ j.name → i.type ≡ j.type → i.val ≡ j.val → i ≡ j
Input-eq i j e f g = λ k. record { name = e k; type = f k; val = g k }

module _ (rand : ℕ → ℕ) (texts : Texts) where
  gather_inputs-reset :
      (is js : List Input) (n : ℕ)
      → New is
      → Touched is js
      → (ss : List String) × (ks : List Input) × (m : ℕ) × (gather_inputs rand texts js n
          ≡ ok (ss, ks, m))
        × (reset ks ≡ is)
  unfolding gather_inputs reset
  gather_inputs-reset [] [] n new touched = ([], [], n, refl, refl)
  gather_inputs-reset [] (j ∷ js) n new touched = absurd touched
  gather_inputs-reset (i ∷ is) [] n new touched = absurd touched
  gather_inputs-reset (i ∷ is) (j ∷ js) n (d, new, news) (en, et, fit, x, touched) =
      let enough : length (view i.type) ≤ length (view j.type) =
        subst (λ t. length (view i.type) ≤ length (view t)) (sym et) (omega arith) in
      let (w, m, e, fw, cw, xw, qw) =
        serialize-Written rand texts (length (view j.type)) (view i.type) j.val n fit d enough in
      let (ss, ks, k, es, r) = gather_inputs-reset is js m news touched in
      let back : reset_val w ≡ i.val =
        reset-Extends j.val w xw
        ∙ reset-Extends i.val j.val x
        ∙ ap reset_val new
        ∙ reset-fresh i.type
        ∙ sym new in
      (
        "\t\t\"" ∷ i.name ∷ "\": " ∷ json_text texts w ∷ ",\n" ∷ ss,
        record j { val = w } ∷ ks,
        k,
        rw (e, es, en) refl,
        ap₂ ◌∷◌ (Input-eq (record j { val = reset_val w }) i en et back) r,
      )

  -- One test from the inputs `is`: a run of the compiled function, and the text that gather_res makes of
  -- it.
  abbrev pub IsTest : Compiled → String → List Input → String → Type 0
  IsTest d_gen_func name is test =
      (n : ℕ) × (res_str : String) × (js ks : List Input) × (m k : ℕ) × (d_gen_func is n
        ≡ ok (res_str, js, m))
      × (gather_res rand texts name res_str js m ≡ ok (test, ks, k))

  abbrev pub AreTests : Compiled → String → List Input → List String → Type 0
  AreTests d_gen_func name is [] = Unit
  AreTests d_gen_func name is (t ∷ ts) =
      IsTest d_gen_func name is t × AreTests d_gen_func name is ts

  run_tests-Fresh :
      (d_gen_func : Compiled) (name : String) (is : List Input)
      → New is
      → Accesses d_gen_func is
      → (tests_num n : ℕ)
      → (tests : List String) × (m : ℕ) × (run_tests rand texts d_gen_func name tests_num is n
          ≡ ok (tests, is, m))
        × (length tests ≡ tests_num)
        × AreTests d_gen_func name is tests
  unfolding run_tests gather_res
  run_tests-Fresh f name is new acc zero n = ([], n, refl, refl, tt)
  run_tests-Fresh f name is new acc (suc tests_num) n =
      let (res_str, js, m, e, touched) = acc n in
      let (ss, ks, k, eg, back) = gather_inputs-reset is js m new touched in
      let (tests, h, er, l, are) = run_tests-Fresh f name is new acc tests_num k in
      (
        concat ("{\n" ∷ concat ss ∷ "\t\t\"" ∷ name ∷ "\": " ∷ res_str ∷ "\n\t}" ∷ []) ∷ tests,
        h,
        rw (e, eg, back, er) refl,
        ap suc l,
        ((n, res_str, js, ks, m, k, e, rw eg refl), are),
      )

  -- If the compiled function returns on new inputs and does nothing to them but generate their values,
  -- generate_json writes as many tests as it is asked for, and each is a run on new inputs.
  pub generate_tests-Fresh :
      (d_gen_func : Compiled) (name : String) (is : List Input) (tests_num : ℕ)
      → New is
      → Accesses d_gen_func is
      → (tests : List String) × (generate_tests rand texts d_gen_func name tests_num is
          ≡ ok (json_tests tests))
        × (length tests ≡ tests_num)
        × AreTests d_gen_func name is tests
  unfolding generate_tests
  generate_tests-Fresh f name is tests_num new acc =
      let (tests, m, e, l, are) = run_tests-Fresh f name is new acc tests_num 0 in
      (tests, rw e refl, l, are)
