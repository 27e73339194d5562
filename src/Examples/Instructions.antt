-- ===== src/Examples/Instructions.antt =====
-- The instructions of an expression and an assignment (src/CodegenVisitor.cpp), and a command line
-- (tool/main.cpp), with the theorems at them.
use d_gen.Prelude.{
  ℕ, ◌+◌, ◌*◌, ◌≡◌, refl, ◌⊎◌, true, false, some, List, [], ◌∷◌, pos, pos_part, String, none,
}
use d_gen.Errors.{Position, ok, crash}
use d_gen.Tool.{generate, start}
use d_gen.Tool.Last.{has_empty, start_exact}
use d_gen.Types.{Ty, int, char, arr, of_kind, get_current_type, drop_type, eq_kind, type_length}
use d_gen.Ast.{
  Symbol, IdentNode, Expr, char_node, number_node, ident_node, bin_op_node, arr_lookup_node, nil,
  cons, AsgNode, BinOpType,
}
use d_gen.Ast.Typing.{get_type, ident_type, arr_lookup_type, drop_types}
use d_gen.Codegen.Operands.{Operand, Op, gen_expr, gen_asg, map_type_to_llvm_type, check_scalar}
use d_gen.Codegen.Operands.Runs.{Cpu, operand, run, eval, exec_asg}
use d_gen.Codegen.Operands.Right.{gen_expr-Runs}
use d_gen.Codegen.Operands.Assign.{gen_asg-Runs}

abbrev origin : Position
origin = record { line = 1; col = 0 }

-- int[] a, a variable, and int n, an input
abbrev array_symbol : Symbol
array_symbol = record {
  addr = 0;
  pos = origin;
  type = record { types = arr ∷ int ∷ []; pos = 0 };
  name = "a";
  is_input = false;
}

abbrev input_symbol : Symbol
input_symbol = record { addr = 1; pos = origin; type = of_kind int; name = "n"; is_input = true }

abbrev use_of : Symbol → IdentNode
use_of x = record { pos = origin; name = x.name; symbol = some x }

-- a[2]
abbrev third : Expr
third = arr_lookup_node origin (use_of array_symbol) (cons (number_node origin (pos 2)) nil)

-- a[2] * n
abbrev product : Expr
product = bin_op_node origin BinOpType.mul third (ident_node (use_of input_symbol))

abbrev element_type : Ty
element_type = record { types = arr ∷ int ∷ []; pos = 1 }

third_type :
    arr_lookup_type origin (use_of array_symbol) (cons (number_node origin (pos 2)) nil)
    ≡ ok element_type
unfolding arr_lookup_type ident_type drop_types drop_type eq_kind get_current_type type_length
third_type = refl

element_mapped : map_type_to_llvm_type element_type ≡ ok tt
unfolding map_type_to_llvm_type check_scalar
element_mapped = refl

-- A machine whose inputs are 6, which counts what it does.
abbrev six : Cpu ℕ ℕ
six = record {
  small = λ n. n;
  number = pos_part;
  null = 0;
  slot = λ a. a;
  text = λ t s. (0, s + 1);
  apply = λ o a b. a * b;
  read = λ p s. (p, s + 1);
  offset = λ p n. p + n;
  draw = λ x s. (6, s + 1);
  draw_element = λ x is s. (6, s + 1);
  size = λ x p s. (3, s + 1);
  new_array = λ n size s. (n, s + 1);
  new_slot = λ x s. (x.addr, s + 1);
  cast = λ t a. a;
  write = λ a p s. (a, s + 1);
}

gen_expr-Runs_example :
    (v : Operand) × (ops : List Op) × (regs : List ℕ) × (a : ℕ) × (s' : ℕ) × (gen_expr product []
      ≡ ok (v, ops))
    × (eval six product 0 ≡ ok (a, s'))
    × (run six ops [] 0 ≡ some (regs, s'))
    × (operand six regs v ≡ some a)
gen_expr-Runs_example = gen_expr-Runs six product 0 (
  ((array_symbol, refl, (element_type, third_type, element_mapped)), (tt, tt)),
  (input_symbol, refl),
)

-- a[2] = 'c'
abbrev store_char : AsgNode
store_char = record { pos = origin; lhs = third; rhs = char_node origin b'c' }

get_type-char : get_type store_char.rhs ≡ ok (of_kind char)
unfolding get_type
get_type-char = refl

get_type-element : get_type store_char.lhs ≡ ok element_type
unfolding get_type
get_type-element = third_type

gen_asg-Runs_example :
    (ops : List Op) × (regs : List ℕ) × (s' : ℕ) × (gen_asg store_char [] ≡ ok ops)
    × (exec_asg six store_char 0 ≡ ok s')
    × (run six ops [] 0 ≡ some (regs, s'))
gen_asg-Runs_example =
    gen_asg-Runs six store_char (of_kind char) element_type 0 ((array_symbol, refl, refl), (tt, tt))
      tt get_type-char get_type-element

-- -fa -n3 -fb
abbrev arguments : List String
arguments = "-fa" ∷ "-n3" ∷ "-fb" ∷ []

start_exact_example :
    ((has_empty arguments ≡ true) × (start (λ s. pos 3) arguments ≡ crash))
    ⊎ ((has_empty arguments ≡ false)
        × (start (λ s. pos 3) arguments ≡ ok (generate "b" (pos 3) none)))
start_exact_example = start_exact (λ s. pos 3) arguments
