-- ===== src/Examples/Runs.antt =====
-- Runs of the values and of the tests (src/Symbol.cpp, src/DGen.cpp) on small inputs, and the theorems at
-- them.
use Prim.Native.String
use d_gen.Prelude.{
  ◌<◌, ◌^◌, ℕ, ◌+◌, ◌*◌, ◌/◌, ◌%◌, ◌≡◌, ◌⊎◌, refl, true, false, none, some, List, [], ◌∷◌, map,
  length, String, concat, ℤ, pos, negsuc, arith, set_last,
}
use d_gen.Errors.{ok, crash}
use d_gen.Types.{Ty, int, arr, get_current_type, drop_type, eq_kind, type_length}
use d_gen.Types.View.{kinds_drop}
use d_gen.Ast.Rank.{rank}
use d_gen.Values.{
  char_sym, string_sym, int64, fits_int64, fill_val, Val, array_sym, number_sym, nil, cons, Texts,
  fresh, fresh_of, serialize_all, init_arr, elements, get_pointed_type_elem, num_rand_gen, get_size,
  serialize, reset_val,
}
use d_gen.Values.Range.{Within, fill_val-Within}
use d_gen.Values.Shape.{array_value, no_values, new_array, elem-Fits}
use d_gen.Values.Size.{get_size-Filled}
use d_gen.Values.Serialize.{Written, serialize-Written}
use d_gen.Values.Again.{serialize_again, reset-serialize}
use d_gen.Values.Memory.{fill_dest}
use d_gen.Values.Memory.Elements.{Copied}
use d_gen.Values.Memory.Copy.{fill_dest-Copied}
use d_gen.Values.Access.{get_val_arr}
use d_gen.Values.Access.Safe.{Safe, get_val_arr-Safe}
use d_gen.Generate.{Input, Compiled, json_tests, generate_tests}
use d_gen.Generate.Json.{further_rows, json_tests-eq}
use d_gen.Generate.Fresh.{New, Accesses, AreTests, generate_tests-Fresh}

abbrev ints : Ty
ints = record { types = arr ∷ int ∷ []; pos = 0 }

abbrev draws : ℕ → ℕ
draws i = 12 + 7 * i

abbrev digit : ℕ → String
digit n = String.slice "0123456789" (n % 10) (n % 10 + 1)

abbrev three_digits : ℤ → String
three_digits (pos n) = concat (digit (n / 100) ∷ digit (n / 10) ∷ digit n ∷ [])
three_digits (negsuc n) = "-"

abbrev in_digits : Texts
in_digits = record { number = three_digits; character = λ z. "c" }

abbrev empty_ints : Val
empty_ints = array_sym ints (some 0) nil

-- the size and then the elements, in the order of the calls of std::rand
two_ints :
    serialize draws in_digits 2 (array_sym ints none nil) 0
    ≡ ok (
      "[019,026]",
      array_sym ints
          (some 2)
          (cons (number_sym (some (pos 19))) (cons (number_sym (some (pos 26))) nil)),
      3,
    )
unfolding serialize fresh fresh_of get_current_type serialize_all get_size init_arr elements
    get_pointed_type_elem drop_type eq_kind type_length num_rand_gen set_last
two_ints = refl

-- An array without elements is written with no bracket in front.
no_ints : serialize draws in_digits 2 empty_ints 0 ≡ ok ("]", empty_ints, 0)
unfolding serialize serialize_all get_size set_last
no_ints = refl

serialize-Written_example :
    Written draws in_digits
      (arr ∷ int ∷ [])
      (array_sym ints none nil)
      0
      (serialize draws in_digits 2 (array_sym ints none nil) 0)
serialize-Written_example =
    serialize-Written draws in_digits 2 (arr ∷ int ∷ []) (array_sym ints none nil) 0
      (array_value refl refl no_values) tt (omega arith)

get_val_arr-Safe_example :
    Safe
      (arr ∷ int ∷ [])
      (array_sym ints none nil)
      (get_val_arr draws 3 (pos 1) (map pos []) (array_sym ints none nil) 0)
unfolding rank
get_val_arr-Safe_example =
    get_val_arr-Safe draws 3 (arr ∷ int ∷ []) (array_sym ints none nil) 1 [] 0 tt (omega arith)
      (omega arith) (array_value refl refl no_values)

fill_dest-Copied_example :
    Copied draws in_digits 3
      (arr ∷ int ∷ [])
      (array_sym ints none nil)
      (fill_dest draws 3 (array_sym ints none nil) 0)
fill_dest-Copied_example =
    fill_dest-Copied draws in_digits 3 (arr ∷ int ∷ []) (array_sym ints none nil) 0
      (array_value refl refl no_values) tt (omega arith)

json_tests-eq_example :
    json_tests ("{}" ∷ "[]" ∷ [])
    ≡ concat ("{\n\t\"tests\": [\n\t" ∷ "{}" ∷ concat (further_rows ("[]" ∷ [])) ∷ "\n\t]\n}" ∷ [])
json_tests-eq_example = json_tests-eq "{}" ("[]" ∷ [])

abbrev written_ints : Val
written_ints =
    array_sym ints (some 2)
      (cons (number_sym (some (pos 19))) (cons (number_sym (some (pos 26))) nil))

serialize_again_example :
    serialize (λ i. 5) in_digits 2 written_ints 9 ≡ ok ("[019,026]", written_ints, 9)
serialize_again_example =
    serialize_again draws (λ i. 5) in_digits 2 (arr ∷ int ∷ []) (array_sym ints none nil)
      written_ints 0 3 9 (array_value refl refl no_values) tt (omega arith) two_ints

reset-serialize_example :
    (s : String) × (w : Val) × (m : ℕ) × (serialize draws in_digits 2 (fresh ints) 0 ≡ ok (s, w, m))
    × (reset_val w ≡ fresh ints)
reset-serialize_example = reset-serialize draws in_digits ints 0 tt

-- A generator that returns the length of its argument.
abbrev length_of : Compiled
length_of [] n = ok ("0", [], n)
length_of (i ∷ is) n =
    let (size, us, m) = get_size draws ints none nil n in
    ok (three_digits (pos size), record i { val = array_sym ints (some size) us } ∷ is, m)

abbrev one_input : List Input
one_input = record { name = "a"; type = ints; val = array_sym ints none nil } ∷ []

one_input-New : New one_input
unfolding fresh fresh_of get_current_type
one_input-New = (tt, refl, tt)

length_of-Accesses : Accesses length_of one_input
unfolding kinds_drop
length_of-Accesses n =
    let elem = elem-Fits ints (int ∷ []) refl tt in
    let (size, us, m, e, filled, fits, x, q) =
      get_size-Filled draws (int ∷ []) ints none nil n refl no_values elem in
    let after : Val = array_sym ints (some size) us in
    (
      three_digits (pos size),
      record { name = "a"; type = ints; val = after } ∷ [],
      m,
      rw e refl,
      (refl, refl, array_value refl filled fits, new_array, tt),
    )

generate_tests-Fresh_example :
    (tests : List String) × (generate_tests draws in_digits length_of "f" 2 one_input
      ≡ ok (json_tests tests))
    × (length tests ≡ 2)
    × AreTests draws in_digits length_of "f" one_input tests
generate_tests-Fresh_example =
    generate_tests-Fresh draws in_digits length_of "f" one_input 2 one_input-New length_of-Accesses

abbrev number_type : Ty
number_type = record { types = int ∷ []; pos = 0 }

-- one more than the largest number of 32 bits
abbrev beyond_int : ℤ
beyond_int = pos 2147483648

fill_val-Within_example :
    ((fits_int64 beyond_int ≡ true)
      × ((i : ℤ) × (fill_val (number_sym none) (int64 beyond_int) ≡ ok (number_sym (some i)))
          × Within (2 ^ 31) i
          × (Within (2 ^ 31) beyond_int → i ≡ beyond_int))
      × ((c : ℤ) × (fill_val (char_sym none) (int64 beyond_int) ≡ ok (char_sym (some c)))
          × Within (2 ^ 7) c
          × ((n : ℕ) → beyond_int ≡ pos n → n < 2 ^ 7 → c ≡ beyond_int)))
    ⊎ ((fits_int64 beyond_int ≡ false)
        × (fill_val (number_sym none) (int64 beyond_int) ≡ crash)
        × (fill_val (char_sym none) (int64 beyond_int) ≡ crash)
        × (fill_val (array_sym number_type none nil) (int64 beyond_int) ≡ crash)
        × (fill_val (string_sym number_type none nil) (int64 beyond_int) ≡ crash))
fill_val-Within_example = fill_val-Within none none number_type none nil beyond_int
