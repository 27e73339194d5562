-- ===== src/Generate.antt =====
-- src/DGen.cpp: the tests, one after the other, and their text. What DGenJIT compiles is a parameter: a
-- function that runs the generator on the inputs.
pub mod Json
pub mod Fresh
use d_gen.Prelude.{
  ℕ, zero, suc, ◌+◌, ◌-◌, List, [], ◌∷◌, map, length, String, concat, ◌==◌, if◌then◌else◌,
}
use d_gen.Errors.{Outcome, ok, ◌>>=◌}
use d_gen.Types.{Ty}
use d_gen.Types.View.{view}
use d_gen.Values.{Val, Texts, serialize, reset_val}

-- The fields of a Symbol in `inputs` that the tests read or change.
pub record Input : Type 0 where
  pub name : String
  pub type : Ty
  pub val : Val

-- `d_gen_func()` up to the call of gather_res, from the inputs and the number of calls of std::rand: the text of
-- the result, by gather_rec, with the inputs and the number as they are then.
abbrev pub Compiled : Type 0
Compiled = List Input → ℕ → Outcome (String × List Input × ℕ)

-- DGen::reset, for the inputs
unfoldable pub reset : List Input → List Input
reset is = map (λ (i : Input). record i { val = reset_val i.val }) is

module _ (rand : ℕ → ℕ) (texts : Texts) where
  -- the loop of DGen::gather_res; the kinds of a type are fuel enough for its values
  unfoldable pub gather_inputs : List Input → ℕ → Outcome (List String × List Input × ℕ)
  gather_inputs [] n = ok ([], [], n)
  gather_inputs (i ∷ is) n = do
    (s, w, m) ← serialize rand texts (length (view i.type)) i.val n
    (ss, js, k) ← gather_inputs is m
    ok ("\t\t\"" ∷ i.name ∷ "\": " ∷ s ∷ ",\n" ∷ ss, record i { val = w } ∷ js, k)

  -- DGen::gather_res, without `tests.push_back`
  unfoldable pub gather_res : String → String → List Input → ℕ → Outcome (String × List Input × ℕ)
  gather_res name res_str is n = do
    (ss, js, m) ← gather_inputs is n
    ok (concat ("{\n" ∷ concat ss ∷ "\t\t\"" ∷ name ∷ "\": " ∷ res_str ∷ "\n\t}" ∷ []), js, m)

  -- the loop of DGen::generate_json over the tests
  unfoldable pub run_tests :
      Compiled → String → ℕ → List Input → ℕ → Outcome (List String × List Input × ℕ)
  run_tests d_gen_func name zero is n = ok ([], is, n)
  run_tests d_gen_func name (suc tests_num) is n = do
    (res_str, js, m) ← d_gen_func is n
    (test_data, ks, k) ← gather_res name res_str js m
    (tests, ls, h) ← run_tests d_gen_func name tests_num (reset ks) k
    ok (test_data ∷ tests, ls, h)

-- the loop of DGen::generate_json over the texts of the tests, from the i-th of `size` on
unfoldable pub json_rows : ℕ → ℕ → List String → String
json_rows i size [] = ""
json_rows i size (t ∷ ts) =
    concat ("\t" ∷ t ∷ (if i == size - 1 then "" else ",") ∷ "\n" ∷ json_rows (i + 1) size ts ∷ [])

unfoldable pub json_tests : List String → String
json_tests tests = concat ("{\n\t\"tests\": [\n" ∷ json_rows 0 (length tests) tests ∷ "\t]\n}" ∷ [])

-- DGen::generate_json from std::srand on
unfoldable pub generate_tests :
    (ℕ → ℕ) → Texts → Compiled → String → ℕ → List Input → Outcome String
generate_tests rand texts d_gen_func name tests_num is = do
  (tests, js, n) ← run_tests rand texts d_gen_func name tests_num is 0
  ok (json_tests tests)
