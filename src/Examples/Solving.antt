-- ===== src/Examples/Solving.antt =====
-- Runs of the solving of preconditions (src/CodegenZ3Visitor.cpp) on small inputs, and the theorems at them.
use d_gen.Prelude.{
  ℕ, ◌+◌, ◌*◌, ◌≡◌, refl, inl, inr, true, false, not, none, some, [], ◌∷◌, ℤ, pos, negsuc, String,
}
use d_gen.Errors.{Position}
use d_gen.Types.{Ty, int, arr, get_current_type, drop_type, eq_kind, type_length}
use d_gen.Ast.{
  Symbol, Expr, number_node, ident_node, bin_op_node, arr_lookup_node, nil, cons, lt, gt, and,
  PrecondNode,
}
use d_gen.Values.{
  Val, number_sym, array_sym, Numeral, int64, truth, Vals, get_size, init_arr, elements,
  get_pointed_type_elem, fresh, fresh_of, has_val, to_signed, of_remainder, fits_int64,
}
use d_gen.Values.Access.{at_idxs, at_array, at_idx, at_elem}
use d_gen.Solve.{
  gen_expr, push_expr, gen_symbol, gen_arr_lookup, gen_element, get_expr, operation, idxs_text,
}
use d_gen.Solve.Setting.{Running, Ref, State, done, write, insert_sym}
use d_gen.Solve.Run.{decide, gather, start_z3_gen, gen_pre, add_formula}
use d_gen.Solve.Sight.{Kind, whole, unset, known}
use d_gen.Solve.Meaning.{value}
use d_gen.Solve.Gather.{sees, const_of, AllGrow}
use d_gen.Solve.Gather.Table.{Has}
use d_gen.Solve.Fill.{Represented}
use d_gen.Solve.Holds.{PreTrue, first_state}
use d_gen.Solve.Start.{value-start_z3_gen, start_z3_gen-AllGrow}
use d_gen.Examples.Sevens.{sevens, sevens_sound}

abbrev at_start : Position
at_start = record { line = 1; col = 0 }

abbrev ints : Ty
ints = record { types = arr ∷ int ∷ []; pos = 0 }

abbrev number_x : Symbol
number_x = record {
  addr = 0;
  pos = at_start;
  type = record { types = int ∷ []; pos = 0 };
  name = "x";
  is_input = true;
}

abbrev array_a : Symbol
array_a = record { addr = 1; pos = at_start; type = ints; name = "a"; is_input = true }

abbrev input_names : ℕ → String
input_names ℕ.zero = "x"
input_names (ℕ.suc n) = "a"

abbrev x_node : Expr
x_node = ident_node (record { pos = at_start; name = "x"; symbol = some number_x })

abbrev literal : ℕ → Expr
literal n = number_node at_start (pos n)

-- x > 5 && a[0] < 9
abbrev in_bounds : Expr
in_bounds = bin_op_node at_start and (bin_op_node at_start gt x_node (literal 5)) (
    bin_op_node at_start lt
      (arr_lookup_node at_start (record { pos = at_start; name = "a"; symbol = some array_a })
        (cons (literal 0) nil))
      (literal 9))

-- with the precondition x < 100
abbrev below_100 : PrecondNode
below_100 = record {
  pos = at_start;
  prob = negsuc 0;
  expr = some (bin_op_node at_start lt x_node (literal 100));
}

abbrev draws : ℕ → ℕ
draws i = 12 + 7 * i

abbrev one_text : ℤ → String
one_text n = "0"

abbrev index_0 : Running
index_0 = record {
  current_idxs = λ p i es. pos 0 ∷ [];
  current_ptr = λ p i es. 0;
  alloca = λ a. 0;
  int32_at = λ p. pos 0;
  int8_at = λ p. pos 0;
  size_at = λ p. 0;
}

abbrev new_inputs : ℕ → Val
new_inputs ℕ.zero = number_sym none
new_inputs (ℕ.suc n) = array_sym ints none Vals.nil

-- The array has got the size 12 % 10.
abbrev with_size : State Numeral
with_size = record {
  store =
      write 1
        (array_sym ints (some 2)
          (Vals.cons (number_sym none) (Vals.cons (number_sym none) Vals.nil)))
        new_inputs;
  calls = 2;
  exprs = int64 (pos 7) ∷ int64 (pos 7) ∷ int64 (pos 7) ∷ [];
  syms = (record { input = 0; idxs = [] }, 2) ∷ (record { input = 1; idxs = pos 0 ∷ [] }, 1) ∷ [];
}

gathered :
    gather sevens draws one_text index_0 in_bounds below_100 new_inputs 0
    ≡ done (truth true ∷ truth true ∷ [], 19, with_size)
unfolding gather gen_expr gen_symbol gen_arr_lookup gen_element get_expr operation push_expr
    insert_sym idxs_text gen_pre add_formula decide at_idxs at_array at_idx at_elem get_size
    init_arr elements get_pointed_type_elem fresh fresh_of get_current_type drop_type eq_kind
    type_length has_val to_signed of_remainder
gathered = refl

unset_entries :
    (r : Ref) (i : ℕ) → Has r i with_size.syms → sees with_size.store r ≡ some (unset whole)
unset_entries r i (inl (e, ei)) = rw e refl
unset_entries r i (inr (inl (e, ei))) = rw e refl
unset_entries r i (inr (inr h)) = elim h [ ]

sevens_fit :
    (r : Ref) (i : ℕ) (k : Kind)
    → Has r i with_size.syms
    → sees with_size.store r ≡ some (unset k)
    → Represented k (const_of sevens one_text input_names r k)
unfolding fits_int64 to_signed of_remainder
sevens_fit r i k h e = let ej = unset_entries r i h in let q : k ≡ whole = cc in rw q (refl, refl)

value-start_z3_gen_example :
    (st' : ℕ → Val) × (t : Numeral) × (s1 : State Numeral) × (start_z3_gen sevens draws one_text
        index_0
        (λ l. l)
        in_bounds
        below_100
        new_inputs
        0
      ≡ done (st', 2))
    × (gen_expr sevens draws one_text index_0 in_bounds (first_state new_inputs 0) ≡ done (t, s1))
    × (value
          (sevens_sound.model 19 (truth true ∷ truth true ∷ []) (λ e. e) refl).by_zero
          index_0
          st'
          in_bounds
        ≡ some (truth (not (decide sevens draws one_text index_0 below_100.prob (s1.calls + 1)).0)))
    × PreTrue sevens draws one_text index_0 input_names
        (sevens_sound.model 19 (truth true ∷ truth true ∷ []) (λ e. e) refl).by_zero
        st'
        below_100.expr
    × ((r : Ref) (x : Numeral) → sees new_inputs r ≡ some (known x) → sees st' r ≡ some (known x))
value-start_z3_gen_example =
    value-start_z3_gen sevens draws one_text index_0 input_names (λ l. l) sevens_sound in_bounds
      below_100 new_inputs 0 (truth true ∷ truth true ∷ []) 19 with_size (λ e. e) refl
      ((refl, tt), (refl, tt)) (refl, tt) gathered (λ h. cc) (λ r i h. h, λ r i h. h, λ d. d)
      (λ r i h. (whole, unset_entries r i h)) sevens_fit

-- x > 9, which is false in the only model
abbrev above_9 : Expr
above_9 = bin_op_node at_start gt x_node (literal 9)

abbrev no_pre : PrecondNode
no_pre = record { pos = at_start; prob = negsuc 0; expr = none }

abbrev x_registered : State Numeral
x_registered = record {
  store = new_inputs;
  calls = 1;
  exprs = int64 (pos 7) ∷ [];
  syms = (record { input = 0; idxs = [] }, 0) ∷ [];
}

gathered_false :
    gather sevens draws one_text index_0 above_9 no_pre new_inputs 0
    ≡ done (truth false ∷ [], 12, x_registered)
unfolding gather gen_expr gen_symbol get_expr operation push_expr insert_sym gen_pre add_formula
    decide has_val
gathered_false = refl

start_z3_gen-AllGrow_example :
    (start_z3_gen sevens draws one_text index_0 (λ l. l) above_9 no_pre new_inputs 0
      ≡ done (new_inputs, 1))
    × AllGrow new_inputs new_inputs
start_z3_gen-AllGrow_example =
    start_z3_gen-AllGrow sevens draws one_text index_0 input_names (λ l. l) above_9 no_pre
      new_inputs 0 (truth false ∷ []) 12 x_registered (refl, tt) tt gathered_false refl
