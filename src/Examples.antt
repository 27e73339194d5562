-- ===== src/Examples.antt =====
-- Runs of the front end (src/type.cpp, src/ast.cpp, src/Semantics.cpp) on small inputs, and the
-- theorems at them.
mod Runs
mod Programs
mod Instructions
mod Sevens
mod Solving
mod Preparing
mod Allocating
use d_gen.Prelude.{
  ℕ, ◌+◌, ◌≤◌, ◌<◌, ◌≡◌, ◌↔◌, ◌⊎◌, refl, true, Option, none, some, List, [], ◌∷◌, reverse, String,
  concat, pos, arith, str_eq, ltb, if◌then◌else◌,
}
use d_gen.Errors.{Position, Err, ok, err, throw}
use d_gen.Types.{
  Ty, int, string, char, arr, of_kind, eq_type, is_convertable_to, create, map_types, map_type,
  to_string,
}
use d_gen.Types.View.{view}
use d_gen.Types.Convert.{canonical, eq_type_iff, is_convertable_to_iff}
use d_gen.Types.Names.{to_string-create}
use d_gen.Ast.{
  Symbol, IdentNode, number_node, ident_node, bin_op_node, arr_lookup_node, Exprs, nil, cons,
  DefNode, if_node, for_node, def_node, break_node, return_node, asg_node, Stmts, end, ◌⨾◌,
  FunctionNode, BinOpType,
}
use d_gen.Ast.Ops.{map_op_type, map_op_type_to_str, map_op_type_iff}
use d_gen.Ast.Typing.{arr_lookup_type}
use d_gen.Ast.Rank.{IsDeclared, rank, count, arr_lookup_type-rank}
use d_gen.Scope.{root, nested, add_symbol, find_symbol, find_symbol-add_symbol}
use d_gen.Semantics.Loops.{connect_loops, connect_body, eliminate_body, eliminate_unreachable_code}
use d_gen.Semantics.Loops.Connect.{Connected, Loose, connect_loops-Connected, connect_loops_total}
use d_gen.Semantics.Loops.Trim.{Trimmed, eliminate_body_exact}
use d_gen.Semantics.Reach.{Machine, returned, Exec}
use d_gen.Semantics.Reach.Keep.{eliminate_body-Exec_iff}
use d_gen.Semantics.Resolve.{type_ast}
use d_gen.Semantics.Resolve.Scoped.Sound.{Resolved, type_ast-InScope}
use d_gen.Semantics.Check.{type_check}
use d_gen.Semantics.Check.Typed.{Typed}
use d_gen.Semantics.Check.Typed.Sound.{type_check_iff}
use d_gen.Semantics.FrontEnd.{front_end}
use d_gen.Semantics.FrontEnd.Ready.{Ready, front_end-Ready}

abbrev at : ℕ → Position
at n = record { line = n; col = 0 }

abbrev use_of : ℕ → String → IdentNode
use_of n name = record { pos = at n; name = name; symbol = none }

abbrev int_array : Ty
int_array = record { types = arr ∷ int ∷ []; pos = 0 }

-- int f(int[] a, int n) {
--     int i = 0
--     for ; i < n; i = i + 1 {
--         if a[i] == 0 {
--             break
--             i = 5
--         }
--     }
--     return i
-- }
abbrev body_with : Option ℕ → Stmts
body_with loop =
    def_node (record {
      pos = at 2;
      name = "i";
      type = of_kind int;
      rhs = some (number_node (at 2) (pos 0));
      sym = none;
    })
    ⨾ for_node
        (record {
          addr = 7;
          pos = at 3;
          precond = none;
          pre_asg = none;
          cond =
              bin_op_node (at 3) BinOpType.lt (ident_node (use_of 3 "i"))
                (ident_node (use_of 3 "n"));
          inc_asg = some (record {
            pos = at 3;
            lhs = ident_node (use_of 3 "i");
            rhs =
                bin_op_node (at 3) BinOpType.sum (ident_node (use_of 3 "i"))
                  (number_node (at 3) (pos 1));
          });
        })
        (if_node
            (record {
              pos = at 4;
              precond = none;
              cond =
                  bin_op_node (at 4) BinOpType.eq
                    (arr_lookup_node (at 4) (use_of 4 "a") (cons (ident_node (use_of 4 "i")) nil))
                    (number_node (at 4) (pos 0));
            })
            (break_node (at 5) loop
              ⨾ asg_node (record {
                pos = at 6;
                lhs = ident_node (use_of 6 "i");
                rhs = number_node (at 6) (pos 5);
              })
              ⨾ end)
          ⨾ end)
    ⨾ return_node (at 9) (ident_node (use_of 9 "i"))
    ⨾ end

abbrev argument : String → Ty → DefNode
argument name t = record { pos = at 1; name = name; type = t; rhs = none; sym = none }

abbrev sample_with : Option ℕ → FunctionNode
sample_with loop = record {
  pos = at 1;
  ret_type = of_kind int;
  name = "f";
  args = argument "a" int_array ∷ argument "n" (of_kind int) ∷ [];
  body = body_with loop;
}

-- as the parser makes it, and with its loop connected
abbrev sample : FunctionNode
sample = sample_with none

abbrev connected : FunctionNode
connected = sample_with (some 7)

eq_type_iff_example :
    (eq_type (record int_array { pos = 1 }) (of_kind int) ≡ true) ↔ (int ∷ [] ≡ int ∷ [])
eq_type_iff_example =
    eq_type_iff (record int_array { pos = 1 }) (of_kind int) (omega arith) (omega arith)

is_convertable_to_iff_example :
    (is_convertable_to (of_kind string) (record { types = arr ∷ char ∷ []; pos = 0 }) ≡ true)
    ↔ (canonical (string ∷ []) ≡ canonical (arr ∷ char ∷ []))
is_convertable_to_iff_example =
    is_convertable_to_iff (of_kind string) (record { types = arr ∷ char ∷ []; pos = 0 })
      (omega arith) (omega arith)

create_runs : create ("int" ∷ "[]" ∷ []) ≡ ok int_array
unfolding create map_types map_type
create_runs = refl

to_string-create_example : to_string int_array ≡ concat (reverse ("int" ∷ "[]" ∷ []))
to_string-create_example = to_string-create "int" ("[]" ∷ []) int_array create_runs

map_op_type_iff_example :
    (map_op_type "<=" ≡ ok BinOpType.le) ↔ ("<=" ≡ map_op_type_to_str BinOpType.le)
map_op_type_iff_example = map_op_type_iff "<=" BinOpType.le

abbrev variable : Symbol
variable = record { addr = 0; pos = at 1; type = int_array; name = "a"; is_input = true }

abbrev use_of_variable : IdentNode
use_of_variable = record { pos = at 4; name = "a"; symbol = some variable }

abbrev two_idxs : Exprs
two_idxs = cons (number_node (at 4) (pos 0)) (cons (number_node (at 4) (pos 1)) nil)

arr_lookup_type-rank_example :
    (count two_idxs ≤ rank (arr ∷ int ∷ [])
      → (t : Ty) × (arr_lookup_type (at 4) use_of_variable two_idxs ≡ ok t) × IsDeclared (view t))
    × (rank (arr ∷ int ∷ []) < count two_idxs
        → arr_lookup_type (at 4) use_of_variable two_idxs
          ≡ throw (at 4) "array dereference on non array variable")
arr_lookup_type-rank_example = arr_lookup_type-rank (at 4) use_of_variable two_idxs variable refl tt

find_symbol-add_symbol_example :
    find_symbol (add_symbol "a" (some variable) (nested [] (root []))) "b"
    ≡ (if str_eq "a" "b" then some variable else find_symbol (nested [] (root [])) "b")
find_symbol-add_symbol_example =
    find_symbol-add_symbol "a" "b" (some variable) (nested [] (root []))

connect_runs : connect_loops sample ≡ ok connected
unfolding connect_loops connect_body
connect_runs = refl

connect_loops-Connected_example : Connected none (eliminate_unreachable_code connected).body
connect_loops-Connected_example = connect_loops-Connected sample connected connect_runs

connect_loops_total_example :
    ((g : FunctionNode) × (connect_loops sample ≡ ok g))
    ⊎ ((x : Err) × (connect_loops sample ≡ err (x ∷ [])) × Loose x.pos sample.body)
connect_loops_total_example = connect_loops_total sample

eliminate_body_exact_example :
    Trimmed (eliminate_body (body_with none))
    × (Trimmed (body_with none) → eliminate_body (body_with none) ≡ body_with none)
eliminate_body_exact_example = eliminate_body_exact (body_with none)

-- A machine that counts the steps, whose conditions hold below three steps.
abbrev counter : Machine ℕ
counter = record {
  define = λ _ n. n + 1;
  assign = λ _ n. n + 1;
  give_back = λ _ n. n + 1;
  test = λ _ _ n. (ltb n 3, n + 1);
}

eliminate_body-Exec_iff_example :
    Exec counter (body_with none) 0 returned 5
    ↔ Exec counter (eliminate_body (body_with none)) 0 returned 5
eliminate_body-Exec_iff_example = eliminate_body-Exec_iff counter (body_with none) 0 5 returned

type_ast-InScope_example :
    ((r : FunctionNode × List (Option Symbol)) × (type_ast connected ≡ ok r) × Resolved connected r)
    ⊎ ((x : Err) × (type_ast connected ≡ err (x ∷ [])))
type_ast-InScope_example = type_ast-InScope connected

type_check_iff_example : (type_check sample ≡ ok tt) ↔ Typed sample
type_check_iff_example = type_check_iff sample

front_end-Ready_example :
    ((r : FunctionNode × List (Option Symbol)) × (front_end sample ≡ ok r) × Ready sample r)
    ⊎ ((e : List Err) × (front_end sample ≡ err e))
front_end-Ready_example = front_end-Ready sample (refl, (refl, tt))
