-- ===== src/Examples/Programs.antt =====
-- Programs from their parse trees to their blocks (src/ASTBuilderVisitor.cpp, src/CodegenVisitor.cpp),
-- and the theorems at them.
use d_gen.Prelude.{
  ℕ, ◌+◌, ◌-◌, ◌≡◌, refl, ◌⊎◌, true, false, Option, none, some, List, [], ◌∷◌, String, ℤ, pos,
  pos_part, str_eq, if◌then◌else◌,
}
use d_gen.Errors.{Position, Err, ok, err, crash}
use d_gen.Types.{int}
use d_gen.Ast.{
  Symbol, Expr, number_node, bool_node, bin_op_node, if_node, for_node, break_node, return_node,
  end, ◌⨾◌, FunctionNode, BinOpType,
}
use d_gen.Ast.Loops.{LoopsApart}
use d_gen.Grammar.{
  ScalarType, minus, LogicExpr, logic_expr, no_logic_ts, logic_t, no_logic_fs, plain_expr, expr,
  no_ts, sum_then, TContext, t, no_fs, num_const, bool_const, ExprContext, for_stmt, while_stmt,
  break_stmt, return_stmt, no_stmts, stmt_then, Function,
}
use d_gen.Builder.{visit_logic_expr, visit_type, create_bin_op, create_bool}
use d_gen.Types.{
  create, map_types, map_type, eq_kind, type_length, get_current_type, eq_type, eq_from,
}
use d_gen.Ast.Ops.{map_op_type, get_op_group_args, get_op_group_res}
use d_gen.Ast.Typing.{get_type, check_op_group}
use d_gen.Semantics.Loops.{connect_loops, connect_body, eliminate_unreachable_code, eliminate_body}
use d_gen.Semantics.Resolve.{optional, type_ast, resolve_stmts, resolve_expr, add_inputs}
use d_gen.Semantics.Check.{
  type_check, check_stmts, check_expr, check_cond, check_optional, check_return, check_args,
}
use d_gen.Semantics.FrontEnd.{front_end}
use d_gen.Builder.Meaning.{Meaning, value, logic_expr_value}
use d_gen.Builder.Meaning.Keep.{visit_logic_expr-Means}
use d_gen.Builder.Program.{visit_function, visit_body, visit_args, visit_condition}
use d_gen.Builder.Program.Total.{have_conds, visit_function_exact}
use d_gen.Builder.Program.Ready.{analyse, analyse-Ready}
use d_gen.Semantics.FrontEnd.Ready.{NoDefaults, Ready}
use d_gen.Semantics.Loops.Connect.{Connected}
use d_gen.Semantics.Reach.{Machine, Exec, returned, next, stop, loops, leave, breaks, returns}
use d_gen.Codegen.{Ir, new_ir, gen_function, is_last_stmt_br}
use d_gen.Codegen.Run.{at, halted, Steps}
use d_gen.Codegen.Correct.{outcome, new_ir-Inside, gen_function-lay, gen_function-Steps}
use d_gen.Codegen.Lay.{lay_body}
use d_gen.Codegen.Blocks.{Prefix-refl}
use d_gen.Codegen.Sim.{lay_body-Steps}
use d_gen.Codegen.Halts.{compile_halts}
use d_gen.Codegen.Compile.{compile, compile_total, compile-Steps, compile-Tidy}
use d_gen.Codegen.Tidy.{is_open, is_tidy}
use d_gen.Codegen.Tidy.Keep.{gen_function_open_end}

abbrev origin : Position
origin = record { line = 1; col = 0 }

-- atoi at the numerals that occur
abbrev read : String → ℤ
read s = if str_eq s "9" then pos 9 else if str_eq s "3" then pos 3 else pos 2

abbrev number : String → TContext
number s = t origin (num_const origin s) no_fs

abbrev just : ExprContext → LogicExpr
just e = logic_expr (logic_t origin (plain_expr origin e) no_logic_fs) no_logic_ts

-- 9 - 3 - 2
abbrev nine_three_two : LogicExpr
nine_three_two =
    just (expr (number "9") (sum_then minus (number "3") (sum_then minus (number "2") no_ts)))

abbrev monus : Meaning ℕ
monus = record {
  character = λ c. c;
  string = λ s. 0;
  number = pos_part;
  truth = λ b. if b then 1 else 0;
  variable = λ x. 0;
  apply = λ o a b. a - b;
  element = λ x is. 0;
  array = λ ty n. n;
  property = λ x y. 0;
}

visit_logic_expr-Means_example :
    (e : Expr) × (visit_logic_expr read nine_three_two ≡ ok e) × (value monus e ≡ 4)
unfolding logic_expr_value
visit_logic_expr-Means_example = visit_logic_expr-Means monus read nine_three_two

abbrev condition : LogicExpr
condition = just (expr (t origin (bool_const origin true) no_fs) no_ts)

-- int f() { while true { break } return 9 - 3 - 2 }
abbrev leaves_loop : Function
leaves_loop = record {
  pos = origin;
  ret_type = record { scalar = ScalarType.int; nested = 0 };
  f_name = "f";
  args = [];
  body =
      stmt_then (while_stmt origin none condition (stmt_then (break_stmt origin) no_stmts))
        (stmt_then (return_stmt origin nine_three_two) no_stmts);
}

-- int f() { for ;; { break } }
abbrev endless : Function
endless = record {
  pos = origin;
  ret_type = record { scalar = ScalarType.int; nested = 0 };
  f_name = "f";
  args = [];
  body =
      stmt_then (for_stmt origin none none none none (stmt_then (break_stmt origin) no_stmts))
        no_stmts;
}

visit_function_exact_example :
    ((have_conds endless.body ≡ true)
      × ((g : FunctionNode) × (visit_function read endless ≡ ok g)
          × NoDefaults g.args
          × LoopsApart g.body))
    ⊎ ((have_conds endless.body ≡ false) × (visit_function read endless ≡ crash))
visit_function_exact_example = visit_function_exact read endless

have_conds-leaves_loop : have_conds leaves_loop.body ≡ true
unfolding have_conds
have_conds-leaves_loop = refl

analyse-Ready_example :
    (g : FunctionNode) × (visit_function read leaves_loop ≡ ok g)
    × (((r : FunctionNode × List (Option Symbol)) × (analyse read leaves_loop ≡ ok r) × Ready g r)
        ⊎ ((e : List Err) × (analyse read leaves_loop ≡ err e)))
analyse-Ready_example = analyse-Ready read leaves_loop have_conds-leaves_loop

compile_total_example :
    ((r : FunctionNode × List (Option Symbol)) × (b : Ir) × (analyse read leaves_loop ≡ ok r)
      × (compile read leaves_loop ≡ ok (b, r.1)))
    ⊎ ((e : List Err) × (analyse read leaves_loop ≡ err e) × (compile read leaves_loop ≡ err e))
compile_total_example = compile_total read leaves_loop have_conds-leaves_loop

-- The state counts the values that are returned; every condition holds.
abbrev counting : Machine ℕ
counting = record {
  define = λ d n. n;
  assign = λ a n. n;
  give_back = λ e n. n + 1;
  test = λ p e n. (true, n);
}

-- the same body as it is analysed
abbrev looping : FunctionNode
looping = record {
  pos = origin;
  ret_type = record { types = []; pos = 0 };
  name = "f";
  args = [];
  body =
      for_node
        (record {
          addr = 0;
          pos = origin;
          precond = none;
          pre_asg = none;
          cond = bool_node origin true;
          inc_asg = none;
        })
        (break_node origin (some 0) ⨾ end)
      ⨾ return_node origin (number_node origin (pos 4))
      ⨾ end;
}

looping-Connected : Connected none looping.body
looping-Connected = (((refl, (cc)), tt), (tt, tt))

looping-LoopsApart : LoopsApart looping.body
looping-LoopsApart = (((tt, tt), (tt, tt)), (tt, tt))

looping-Exec : Exec counting looping.body 0 returned 1
looping-Exec = next (loops (leave refl (stop breaks (cc)))) (stop returns (cc))

gen_function-Steps_example :
    (b : Ir) × (gen_function looping ≡ ok b)
    × Steps counting b.code (at 0 0 0) (outcome b returned 1)
gen_function-Steps_example =
    gen_function-Steps looping looping-Connected looping-LoopsApart counting 0 1 returned
      looping-Exec

-- int f() { if true { return 9 - 3 - 2 } }
abbrev falls_through : FunctionNode
falls_through = record looping {
  body =
      if_node (record { pos = origin; precond = none; cond = bool_node origin true })
        (return_node origin (number_node origin (pos 4)) ⨾ end)
      ⨾ end;
}

gen_function_open_end_example :
    (b : Ir) × (gen_function falls_through ≡ ok b) × (is_open (b.code b.here) ≡ true)
unfolding is_last_stmt_br
gen_function_open_end_example =
    gen_function_open_end falls_through ((tt, tt), tt) ((tt, tt), tt)
      ((tt, tt, λ _. refl), tt, λ _. refl) refl

abbrev analysed : FunctionNode × List (Option Symbol)
analysed = (
  record {
    pos = origin;
    ret_type = record { types = int ∷ []; pos = 0 };
    name = "f";
    args = [];
    body =
        for_node
          (record {
            addr = 0;
            pos = origin;
            precond = none;
            pre_asg = none;
            cond = bool_node origin true;
            inc_asg = none;
          })
          (break_node origin (some 0) ⨾ end)
        ⨾ return_node origin (
            bin_op_node origin BinOpType.sub
              (bin_op_node origin BinOpType.sub (number_node origin (pos 9))
                (number_node origin (pos 3)))
              (number_node origin (pos 2)))
        ⨾ end;
  },
  [],
)

analyse-leaves_loop : analyse read leaves_loop ≡ ok analysed
unfolding analyse visit_function visit_body visit_args visit_type visit_logic_expr visit_condition
    front_end connect_loops connect_body type_ast resolve_stmts resolve_expr add_inputs type_check
    check_stmts check_expr get_type eliminate_unreachable_code eliminate_body create_bin_op
    create_bool map_types map_type create map_op_type optional check_cond eq_kind type_length
    get_current_type check_optional check_return check_op_group get_op_group_args eq_type eq_from
    get_op_group_res check_args
analyse-leaves_loop = refl

analysed-Exec : Exec counting analysed.0.body 0 returned 1
analysed-Exec = next (loops (leave refl (stop breaks (cc)))) (stop returns (cc))

compile-Steps_example :
    (b : Ir) × (compile read leaves_loop ≡ ok (b, []))
    × Steps counting b.code (at 0 0 0) (outcome b returned 1)
compile-Steps_example =
    compile-Steps read leaves_loop have_conds-leaves_loop analysed analyse-leaves_loop counting 0 1
      returned analysed-Exec

abbrev compiled : Ir × List (Option Symbol)
compiled = (lay_body (0, 0) analysed.0.body new_ir, [])

compile-leaves_loop : compile read leaves_loop ≡ ok compiled
unfolding compile
compile-leaves_loop =
    rw (analyse-leaves_loop, gen_function-lay analysed.0 looping-Connected looping-LoopsApart) refl

compile-Tidy_example : is_tidy (compiled.0.code 3) ≡ true
compile-Tidy_example =
    compile-Tidy read leaves_loop have_conds-leaves_loop compiled compile-leaves_loop 3

compiled-Steps : Steps counting compiled.0.code (at 0 0 0) (halted 1)
compiled-Steps =
    lay_body-Steps counting compiled.0.code (0, 0) analysed.0.body new_ir new_ir-Inside
      (λ l. Prefix-refl _) 0 1 returned analysed-Exec

compile_halts_example : ◌≡◌ {A = ℕ} 1 1
compile_halts_example =
    compile_halts read leaves_loop have_conds-leaves_loop analysed analyse-leaves_loop counting 0 1
      analysed-Exec compiled.0 compile-leaves_loop 1 compiled-Steps
