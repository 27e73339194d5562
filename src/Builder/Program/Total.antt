-- ===== src/Builder/Program/Total.antt =====
-- The visitor builds the tree of every program but one: a `for` with no condition, which the grammar
-- allows (visitFor in src/ASTBuilderVisitor.cpp).
use d_gen.Prelude.{
  ℕ, ◌+◌, ◌≤◌, ◌≡◌, refl, Bool, true, false, ◌&&◌, none, some, List, [], ◌∷◌, String, ℤ, arith, ◌⊎◌,
  inl, inr, Bool-cases,
}
use d_gen.Errors.{Outcome, ok, crash}
use d_gen.Ast.{
  DefNode, Stmt, if_node, if_else_node, for_node, def_node, continue_node, break_node, return_node,
  asg_node, Stmts, end, ◌⨾◌, FunctionNode,
}
use d_gen.Ast.Loops.{LoopBelow, LoopsBelow, LoopApart, LoopsApart, LoopBelow-le, LoopsBelow-le}
use d_gen.Grammar.{
  Statement, assignment, return_stmt, break_stmt, continue_stmt, define, for_stmt, while_stmt,
  if_stmt, if_else_stmt, Statements, no_stmts, stmt_then, Argument, Function,
}
use d_gen.Builder.{visit_logic_expr}
use d_gen.Builder.Texts.{declared_type, visit_type-declared}
use d_gen.Builder.Program.{
  visit_assignment, visit_precondition, visit_condition, visit_statement, visit_body, visit_args,
  visit_function,
}
use d_gen.Builder.Program.Makes.{
  logic_expr-Makes, if_there-Makes, assignment-Makes, precondition-Makes,
}
use d_gen.Semantics.FrontEnd.Ready.{NoDefaults}

-- Every `for` has a condition.
unfoldable mutual
  pub has_conds : Statement → Bool
  has_conds (for_stmt p pre a none i b) = false
  has_conds (for_stmt p pre a (some c) i b) = have_conds b
  has_conds (while_stmt p pre c b) = have_conds b
  has_conds (if_stmt p pre c b) = have_conds b
  has_conds (if_else_stmt p pre c b e) = have_conds b && have_conds e
  has_conds _ = true

  pub have_conds : Statements → Bool
  have_conds no_stmts = true
  have_conds (stmt_then s b) = has_conds s && have_conds b

module _ (atoi : String → ℤ) where
  -- With a condition in each `for` a tree is built whose loops have addresses from `n` to below `k`, growing
  -- outwards; else the program crashes.
  abbrev Built : Bool → ℕ → Outcome (Stmt × ℕ) → Type 0
  Built c n r =
      (c ≡ true → (s : Stmt) × (k : ℕ) × (r ≡ ok (s, k)) × (n ≤ k) × LoopBelow k s × LoopApart s)
      × (c ≡ false → r ≡ crash)

  abbrev BodyBuilt : Bool → ℕ → Outcome (Stmts × ℕ) → Type 0
  BodyBuilt c n r =
      (c ≡ true → (s : Stmts) × (k : ℕ) × (r ≡ ok (s, k)) × (n ≤ k) × LoopsBelow k s × LoopsApart s)
      × (c ≡ false → r ≡ crash)

  mutual
    unfolding visit_statement visit_body visit_condition has_conds have_conds

    statement-Built : (s : Statement) (n : ℕ) → Built (has_conds s) n (visit_statement atoi s n)
    statement-Built (assignment a) n =
        let (x, h) = assignment-Makes atoi a in
        (λ _. (asg_node x, n, rw h refl, omega arith, tt, tt), λ e. cc)
    statement-Built (return_stmt p c) n =
        let (x, h) = logic_expr-Makes atoi c in
        (λ _. (return_node p x, n, rw h refl, omega arith, tt, tt), λ e. cc)
    statement-Built (break_stmt p) n =
        (λ _. (break_node p none, n, refl, omega arith, tt, tt), λ e. cc)
    statement-Built (continue_stmt p) n =
        (λ _. (continue_node p none, n, refl, omega arith, tt, tt), λ e. cc)
    statement-Built (define p ty name c) n =
        let (x, h) = if_there-Makes atoi (visit_logic_expr atoi) (logic_expr-Makes atoi) c in
        (
          λ _. (
            def_node
                (record { pos = p; name = name; type = declared_type ty; rhs = x; sym = none }),
            n,
            rw (visit_type-declared ty, h) refl,
            omega arith,
            tt,
            tt,
          ),
          λ e. cc,
        )
    statement-Built (for_stmt p pre a none i b) n =
        let (x, hx) = if_there-Makes atoi (visit_precondition atoi) (precondition-Makes atoi) pre in
        let (y, hy) = if_there-Makes atoi (visit_assignment atoi) (assignment-Makes atoi) a in
        (λ e. cc, λ e. rw (hx, hy) refl)
    statement-Built (for_stmt p pre a (some c) i b) n =
        let (x, hx) = if_there-Makes atoi (visit_precondition atoi) (precondition-Makes atoi) pre in
        let (y, hy) = if_there-Makes atoi (visit_assignment atoi) (assignment-Makes atoi) a in
        let (z, hz) = logic_expr-Makes atoi c in
        let (w, hw) = if_there-Makes atoi (visit_assignment atoi) (assignment-Makes atoi) i in
        let (built, fails) = body-Built b n in
        (
          λ e.
              let (body, k, h, le, below, apart) = built e in
              (
                for_node
                    (record { addr = k; pos = p; precond = x; pre_asg = y; cond = z; inc_asg = w })
                    body,
                k + 1,
                rw (hx, hy, hz, hw, h) refl,
                omega arith,
                (omega arith, LoopsBelow-le k (k + 1) body (omega arith) below),
                (below, apart),
              ),
          λ e. rw (hx, hy, hz, hw, fails e) refl,
        )
    statement-Built (while_stmt p pre c b) n =
        let (x, hx) = if_there-Makes atoi (visit_precondition atoi) (precondition-Makes atoi) pre in
        let (z, hz) = logic_expr-Makes atoi c in
        let (built, fails) = body-Built b n in
        (
          λ e.
              let (body, k, h, le, below, apart) = built e in
              (
                for_node
                    (record {
                      addr = k;
                      pos = p;
                      precond = x;
                      pre_asg = none;
                      cond = z;
                      inc_asg = none;
                    })
                    body,
                k + 1,
                rw (hx, hz, h) refl,
                omega arith,
                (omega arith, LoopsBelow-le k (k + 1) body (omega arith) below),
                (below, apart),
              ),
          λ e. rw (hx, hz, fails e) refl,
        )
    statement-Built (if_stmt p pre c b) n =
        let (x, hx) = if_there-Makes atoi (visit_precondition atoi) (precondition-Makes atoi) pre in
        let (z, hz) = logic_expr-Makes atoi c in
        let (built, fails) = body-Built b n in
        (
          λ e.
              let (body, k, h, le, below, apart) = built e in
              (
                if_node (record { pos = p; precond = x; cond = z }) body,
                k,
                rw (hx, hz, h) refl,
                le,
                below,
                apart,
              ),
          λ e. rw (hx, hz, fails e) refl,
        )
    statement-Built (if_else_stmt p pre c b els) n =
        let (x, hx) = if_there-Makes atoi (visit_precondition atoi) (precondition-Makes atoi) pre in
        let (z, hz) = logic_expr-Makes atoi c in
        let (built, fails) = body-Built b n in
        elim (Bool-cases (have_conds b)) [
          | inr bad ↦ rw bad (λ e. cc, λ e. rw (hx, hz, fails bad) refl)
          | inl good ↦
              let (body, k, h, le, below, apart) = built good in
              let (built', fails') = body-Built els k in
              rw good (
                λ e.
                    let (body', k', h', le', below', apart') = built' e in
                    (
                      if_else_node (record { pos = p; precond = x; cond = z }) body body',
                      k',
                      rw (hx, hz, h, h') refl,
                      omega arith,
                      (LoopsBelow-le k k' body le' below, below'),
                      (apart, apart'),
                    ),
                λ e. rw (hx, hz, h, fails' e) refl,
              )
        ]

    body-Built : (b : Statements) (n : ℕ) → BodyBuilt (have_conds b) n (visit_body atoi b n)
    body-Built no_stmts n = (λ _. (end, n, refl, omega arith, tt, tt), λ e. cc)
    body-Built (stmt_then s b) n =
        let (built, fails) = statement-Built s n in
        elim (Bool-cases (has_conds s)) [
          | inr bad ↦ rw bad (λ e. cc, λ e. rw (fails bad) refl)
          | inl good ↦
              let (stmt, k, h, le, below, apart) = built good in
              let (built', fails') = body-Built b k in
              rw good (
                λ e.
                    let (stmts, k', h', le', below', apart') = built' e in
                    (
                      stmt ⨾ stmts,
                      k',
                      rw (h, h') refl,
                      omega arith,
                      (LoopBelow-le k k' stmt le' below, below'),
                      (apart, apart'),
                    ),
                λ e. rw (h, fails' e) refl,
              )
        ]

args-NoDefaults :
    (args : List Argument) → (ds : List DefNode) × (visit_args args ≡ ok ds) × NoDefaults ds
unfolding visit_args
args-NoDefaults [] = ([], refl, tt)
args-NoDefaults (a ∷ args) =
    let (ds, h, bare) = args-NoDefaults args in
    (
      record { pos = a.pos; name = a.name; type = declared_type a.type; rhs = none; sym = none }
          ∷ ds,
      rw (visit_type-declared a.type, h) refl,
      (refl, bare),
    )

pub visit_function-Built :
    (atoi : String → ℤ) (f : Function)
    → (have_conds f.body ≡ true
        → (g : FunctionNode) × (visit_function atoi f ≡ ok g)
          × NoDefaults g.args
          × LoopsApart g.body)
      × (have_conds f.body ≡ false → visit_function atoi f ≡ crash)
unfolding visit_function
visit_function-Built atoi f =
    let (ds, h, bare) = args-NoDefaults f.args in
    let (built, fails) = body-Built atoi f.body 0 in
    (
      λ e.
          let (body, k, hb, le, below, apart) = built e in
          (
            record {
              pos = f.pos;
              ret_type = declared_type f.ret_type;
              name = f.f_name;
              args = ds;
              body = body;
            },
            rw (visit_type-declared f.ret_type, h, hb) refl,
            bare,
            apart,
          ),
      λ e. rw (visit_type-declared f.ret_type, h, fails e) refl,
    )

-- A program in which each `for` has a condition becomes a function whose arguments have no right
-- sides and in which no loop has the address of a loop inside it. Any other program crashes the
-- visitor.
pub visit_function_exact :
    (atoi : String → ℤ) (f : Function)
    → ((have_conds f.body ≡ true)
        × ((g : FunctionNode) × (visit_function atoi f ≡ ok g)
            × NoDefaults g.args
            × LoopsApart g.body))
      ⊎ ((have_conds f.body ≡ false) × (visit_function atoi f ≡ crash))
visit_function_exact atoi f = elim (Bool-cases (have_conds f.body)) [
  | inl e ↦ inl (e, (visit_function-Built atoi f).0 e)
  | inr e ↦ inr (e, (visit_function-Built atoi f).1 e)
]
