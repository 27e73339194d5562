-- ===== src/Builder/Program/Makes.antt =====
-- The parts of a statement that the visitor (src/ASTBuilderVisitor.cpp) always builds.
use d_gen.Prelude.{◌≡◌, refl, Option, none, some, String, ℤ}
use d_gen.Errors.{Position, Outcome, ok}
use d_gen.Ast.{Expr, ident_node, arr_lookup_node, cons}
use d_gen.Ast.Ops.{map_asg_type, map_crem_type}
use d_gen.Ast.Build.{create_asg, create_crem}
use d_gen.Grammar.{
  AsgOp, asg, plus_asg, minus_asg, star_asg, slash_asg, CremOp, plus_plus, minus_minus, LogicExpr,
  Target, ident_target, lookup_target, Assignment, simple_asg, crem_asg, Precondition,
}
use d_gen.Builder.{asg_text, crem_text, new_ident, visit_logic_expr}
use d_gen.Builder.Meaning.{Meaning}
use d_gen.Builder.Meaning.Keep.{logic_expr-Means, expr-Means, exprs-Means}
use d_gen.Builder.Program.{if_there, visit_target, visit_assignment, prob_of, visit_precondition}

-- The visit of a part that can not fail.
abbrev pub Makes : {A : Type 0} → Outcome A → Type 0
Makes {A = A} r = (a : A) × (r ≡ ok a)

module _ (atoi : String → ℤ) where
  -- The values of the expressions do not matter here.
  abbrev nothing : Meaning (Unit {0})
  nothing = record {
    character = λ _. tt;
    string = λ _. tt;
    number = λ _. tt;
    truth = λ _. tt;
    variable = λ _. tt;
    apply = λ _ _ _. tt;
    element = λ _ _. tt;
    array = λ _ _. tt;
    property = λ _ _. tt;
  }

  pub logic_expr-Makes : (c : LogicExpr) → Makes (visit_logic_expr atoi c)
  logic_expr-Makes c = let (e, h, _) = logic_expr-Means nothing atoi c in (e, h)

  pub if_there-Makes :
      {A B : Type 0} (f : A → Outcome B)
      → ((a : A) → Makes (f a))
      → (o : Option A) → Makes (if_there f o)
  if_there-Makes f makes none = (none, refl)
  if_there-Makes f makes (some a) = let (b, e) = makes a in (some b, rw e refl)

  pub target-Makes : (c : Target) → Makes (visit_target atoi c)
  unfolding visit_target
  target-Makes (ident_target p name) = (ident_node (new_ident p name), refl)
  target-Makes (lookup_target p name c cs) =
      let (e, he, _) = expr-Means nothing atoi c in
      let (es, hes, _) = exprs-Means nothing atoi cs in
      (arr_lookup_node p (new_ident p name) (cons e es), rw (he, hes) refl)

  pub create_asg-Makes :
      (p : Position) (l r : Expr) (o : AsgOp) → Makes (create_asg p l (asg_text o) r)
  unfolding create_asg map_asg_type
  create_asg-Makes p l r asg = (_, refl)
  create_asg-Makes p l r plus_asg = (_, refl)
  create_asg-Makes p l r minus_asg = (_, refl)
  create_asg-Makes p l r star_asg = (_, refl)
  create_asg-Makes p l r slash_asg = (_, refl)

  pub create_crem-Makes :
      (p : Position) (l : Expr) (o : CremOp) → Makes (create_crem p l (crem_text o))
  unfolding create_crem map_crem_type
  create_crem-Makes p l plus_plus = (_, refl)
  create_crem-Makes p l minus_minus = (_, refl)

  pub assignment-Makes : (a : Assignment) → Makes (visit_assignment atoi a)
  unfolding visit_assignment
  assignment-Makes (simple_asg p target o c) =
      let (l, hl) = target-Makes target in
      let (r, hr) = logic_expr-Makes c in
      let (a, ha) = create_asg-Makes p l r o in (a, rw (hl, hr) ha)
  assignment-Makes (crem_asg p target o) =
      let (l, hl) = target-Makes target in let (a, ha) = create_crem-Makes p l o in (a, rw hl ha)

  pub precondition-Makes : (c : Precondition) → Makes (visit_precondition atoi c)
  unfolding visit_precondition
  precondition-Makes c =
      let (e, h) = if_there-Makes (visit_logic_expr atoi) logic_expr-Makes c.expr in
      (record { pos = c.pos; prob = prob_of atoi c.prob; expr = e }, rw h refl)
