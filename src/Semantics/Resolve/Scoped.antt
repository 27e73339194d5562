-- ===== src/Semantics/Resolve/Scoped.antt =====
-- Lexical scope, told by environments instead of tables: what each name means at each place.
pub mod Sound
use d_gen.Prelude.{
  ◌≡◌, Bool, false, true, Option, none, some, List, [], ◌∷◌, String, str_eq, if◌then◌else◌,
}
use d_gen.Ast.{
  Symbol, IdentNode, Expr, char_node, string_node, number_node, bool_node, ident_node, bin_op_node,
  arr_lookup_node, arr_create_node, property_lookup_node, Exprs, nil, cons, PrecondNode, AsgNode,
  DefNode, Stmt, if_node, if_else_node, for_node, def_node, continue_node, break_node, return_node,
  asg_node, Stmts, end, ◌⨾◌,
}

abbrev pub Env : Type 0
Env = String → Option Symbol

abbrev pub bind : String → Option Symbol → Env → Env
bind n s Γ = λ m. if str_eq n m then s else Γ m

-- The identifier holds the symbol that its name stands for.
abbrev pub IdentInScope : Env → IdentNode → Type 0
IdentInScope Γ i = (s : Symbol) × (i.symbol ≡ some s) × (Γ i.name ≡ some s)

abbrev mutual
  pub ExprInScope : Env → Expr → Type 0
  ExprInScope Γ (ident_node i) = IdentInScope Γ i
  ExprInScope Γ (bin_op_node p o l r) = ExprInScope Γ l × ExprInScope Γ r
  ExprInScope Γ (arr_lookup_node p i idxs) = IdentInScope Γ i × ExprsInScope Γ idxs
  ExprInScope Γ (arr_create_node p type len) = ExprInScope Γ len
  ExprInScope Γ (property_lookup_node p i name) = IdentInScope Γ i
  ExprInScope Γ _ = Unit

  pub ExprsInScope : Env → Exprs → Type 0
  ExprsInScope Γ nil = Unit
  ExprsInScope Γ (cons e es) = ExprInScope Γ e × ExprsInScope Γ es

abbrev pub IfSome : {A : Type 0} → (A → Type 0) → Option A → Type 0
IfSome P none = Unit
IfSome P (some a) = P a

abbrev pub PrecondInScope : Env → PrecondNode → Type 0
PrecondInScope Γ c = IfSome (ExprInScope Γ) c.expr

abbrev pub AsgInScope : Env → AsgNode → Type 0
AsgInScope Γ a = ExprInScope Γ a.lhs × ExprInScope Γ a.rhs

-- A declaration's symbol, if it has one, is a variable of the declared name and type.
abbrev pub Declares : DefNode → Type 0
Declares d =
    (s : Symbol) → d.sym ≡ some s → (s.type ≡ d.type) × (s.name ≡ d.name) × (s.is_input ≡ false)

-- The environment behind a statement: a declaration binds its name to the end of its body.
abbrev pub after : Stmt → Env → Env
after (def_node d) Γ = bind d.name d.sym Γ
after _ Γ = Γ

-- The right side of a declaration is in the scope of the declared name.
abbrev mutual
  pub StmtInScope : Env → Stmt → Type 0
  StmtInScope Γ (def_node d) = Declares d × IfSome (ExprInScope (bind d.name d.sym Γ)) d.rhs
  StmtInScope Γ (asg_node a) = AsgInScope Γ a
  StmtInScope Γ (return_node p e) = ExprInScope Γ e
  StmtInScope Γ (if_node h body) =
      IfSome (PrecondInScope Γ) h.precond × ExprInScope Γ h.cond × StmtsInScope Γ body
  StmtInScope Γ (if_else_node h body els) =
      IfSome (PrecondInScope Γ) h.precond
      × ExprInScope Γ h.cond
      × StmtsInScope Γ body
      × StmtsInScope Γ els
  StmtInScope Γ (for_node h body) =
      IfSome (PrecondInScope Γ) h.precond
      × IfSome (AsgInScope Γ) h.pre_asg
      × ExprInScope Γ h.cond
      × IfSome (AsgInScope Γ) h.inc_asg
      × StmtsInScope Γ body
  StmtInScope Γ _ = Unit

  pub StmtsInScope : Env → Stmts → Type 0
  StmtsInScope Γ end = Unit
  StmtsInScope Γ (s ⨾ b) = StmtInScope Γ s × StmtsInScope (after s Γ) b

-- The arguments of the function, from the first on: a later one of the same name hides an earlier.
abbrev pub inputs_env : List DefNode → List (Option Symbol) → Env → Env
inputs_env (d ∷ ds) (s ∷ ss) Γ = inputs_env ds ss (bind d.name s Γ)
inputs_env _ _ Γ = Γ

abbrev pub no_names : Env
no_names m = none

-- Each input is a symbol with the type and the name of its argument, marked as an input.
abbrev pub AreInputs : List DefNode → List (Option Symbol) → Type 0
AreInputs [] [] = Unit
AreInputs (d ∷ ds) (s ∷ ss) =
    ((r : Symbol) → s ≡ some r → (r.type ≡ d.type) × (r.name ≡ d.name) × (r.is_input ≡ true))
    × AreInputs ds ss
AreInputs _ _ = ⊥
