-- ===== src/Semantics/Resolve/Scoped/Sound.antt =====
-- What Semantics::type_ast (src/Semantics.cpp) returns follows lexical scope.
use mathlib.Core.Path.{fun_ext}
use d_gen.Prelude.{
  ℕ, ◌+◌, ◌≡◌, refl, ap, ◌∙◌, ◌⊎◌, inl, inr, Bool, true, false, Option, none, some, List, [], ◌∷◌,
  String, arith,
}
use d_gen.Errors.{Position, Err, Outcome, ok, err}
use d_gen.Errors.Ends.{Ends, returns, throws, Ends-bind, Ends-cases}
use d_gen.Types.{Ty}
use d_gen.Ast.{
  Symbol, IdentNode, Expr, char_node, string_node, number_node, bool_node, ident_node, bin_op_node,
  arr_lookup_node, arr_create_node, property_lookup_node, Exprs, nil, cons, PrecondNode, AsgNode,
  DefNode, Stmt, if_node, if_else_node, for_node, def_node, continue_node, break_node, return_node,
  asg_node, Stmts, end, ◌⨾◌, FunctionNode,
}
use d_gen.Scope.{
  SymbolTable, root, find, nested, add_symbol, find_symbol, find_symbol-add_symbol,
  find_symbol-nested,
}
use d_gen.Semantics.Resolve.{
  create_symbol, resolve_ident, resolve_expr, resolve_exprs, optional, resolve_precond, resolve_asg,
  Names, resolve_def, resolve_stmt, resolve_stmts, add_inputs, start_names, type_ast,
}
use d_gen.Semantics.Resolve.Scoped.{
  bind, IdentInScope, ExprInScope, ExprsInScope, IfSome, PrecondInScope, AsgInScope, after,
  StmtInScope, StmtsInScope, inputs_env, no_names, AreInputs,
}

-- One error is thrown, and nothing crashes.
abbrev pub OneError : List Err → Type 0
OneError e = (x : Err) × (e ≡ x ∷ [])

abbrev Gives : {A : Type 0} → (A → Type 0) → Outcome A → Type 0
Gives P = Ends P OneError ⊥

env-add_symbol :
    (n : String) (s : Option Symbol) (t : SymbolTable)
    → find_symbol (add_symbol n s t) ≡ bind n s (find_symbol t)
env-add_symbol n s t = fun_ext (λ m. find_symbol-add_symbol n m s t)

env-nested : (t : SymbolTable) → find_symbol (nested [] t) ≡ find_symbol t
env-nested t = fun_ext (λ m. find_symbol-nested t m)

optional-Gives :
    {A : Type 0} {P : A → Type 0} {f : A → Outcome A}
    → ((a : A) → Gives P (f a))
    → (o : Option A) → Gives (IfSome P) (optional f o)
unfolding optional
optional-Gives g none = returns tt
optional-Gives g (some a) = Ends-bind (g a) λ b p. returns p

module _ (t : SymbolTable) where
  resolve_ident-InScope : (i : IdentNode) → Gives (IdentInScope (find_symbol t)) (resolve_ident t i)
  unfolding resolve_ident
  resolve_ident-InScope i = found (find_symbol t i.name) refl
    where
      found :
          (o : Option Symbol)
          → find_symbol t i.name ≡ o
          → Gives (IdentInScope (find_symbol t)) (resolve_ident t i)
      found none e = rw (e, resolve_ident) (throws (_, refl))
      found (some s) e = rw (e, resolve_ident) (returns (s, refl, e))

  mutual
    unfolding resolve_expr

    resolve_expr-InScope : (e : Expr) → Gives (ExprInScope (find_symbol t)) (resolve_expr t e)
    resolve_expr-InScope (ident_node i) = Ends-bind (resolve_ident-InScope i) λ _ p. returns p
    resolve_expr-InScope (bin_op_node p o l r) =
        Ends-bind (resolve_expr-InScope l)
          λ _ x. Ends-bind (resolve_expr-InScope r) λ _ y. returns (x, y)
    resolve_expr-InScope (arr_lookup_node p i idxs) =
        Ends-bind (resolve_ident-InScope i)
          λ _ x. Ends-bind (resolve_exprs-InScope idxs) λ _ y. returns (x, y)
    resolve_expr-InScope (arr_create_node p type len) =
        Ends-bind (resolve_expr-InScope len) λ _ x. returns x
    resolve_expr-InScope (property_lookup_node p i name) =
        Ends-bind (resolve_ident-InScope i) λ _ x. returns x
    resolve_expr-InScope (char_node p c) = returns tt
    resolve_expr-InScope (string_node p s) = returns tt
    resolve_expr-InScope (number_node p n) = returns tt
    resolve_expr-InScope (bool_node p b) = returns tt

    resolve_exprs-InScope : (es : Exprs) → Gives (ExprsInScope (find_symbol t)) (resolve_exprs t es)
    resolve_exprs-InScope nil = returns tt
    resolve_exprs-InScope (cons e es) =
        Ends-bind (resolve_expr-InScope e)
          λ _ x. Ends-bind (resolve_exprs-InScope es) λ _ y. returns (x, y)

  resolve_precond-InScope :
      (c : PrecondNode) → Gives (PrecondInScope (find_symbol t)) (resolve_precond t c)
  unfolding resolve_precond
  resolve_precond-InScope c =
      Ends-bind (optional-Gives resolve_expr-InScope c.expr) λ _ x. returns x

  resolve_asg-InScope : (a : AsgNode) → Gives (AsgInScope (find_symbol t)) (resolve_asg t a)
  unfolding resolve_asg
  resolve_asg-InScope a =
      Ends-bind (resolve_expr-InScope a.lhs)
        λ _ x. Ends-bind (resolve_expr-InScope a.rhs) λ _ y. returns (x, y)

-- What a statement is resolved to, and the environment behind it.
abbrev StmtDone : Names → Stmt × Names → Type 0
StmtDone n (s, m) =
    StmtInScope (find_symbol n.table) s × (find_symbol m.table ≡ after s (find_symbol n.table))

create_symbol-fields :
    (a : ℕ) (p : Position) (type : Ty) (name : String) (b : Bool) (s : Symbol)
    → create_symbol a p type name b ≡ some s
    → (s.type ≡ type) × (s.name ≡ name) × (s.is_input ≡ b)
unfolding create_symbol
create_symbol-fields a p type name b s h = ground arith

resolve_def-InScope :
    (d : DefNode) (n : Names) → Gives (λ (d', m). StmtDone n (def_node d', m)) (resolve_def d n)
unfolding resolve_def
resolve_def-InScope d n =
    let s = create_symbol n.next d.pos d.type d.name false in
    let e = env-add_symbol d.name s n.table in
    Ends-bind (optional-Gives (resolve_expr-InScope (add_symbol d.name s n.table)) d.rhs) λ rhs x.
      returns (((λ r h. create_symbol-fields n.next d.pos d.type d.name false r h), rw (← e) x), e)

mutual
  unfolding resolve_stmts

  resolve_stmt-InScope : (s : Stmt) (n : Names) → Gives (StmtDone n) (resolve_stmt s n)
  resolve_stmt-InScope (def_node d) n = Ends-bind (resolve_def-InScope d n) λ _ x. returns x
  resolve_stmt-InScope (asg_node a) n =
      Ends-bind (resolve_asg-InScope n.table a) λ _ x. returns (x, refl)
  resolve_stmt-InScope (return_node p e) n =
      Ends-bind (resolve_expr-InScope n.table e) λ _ x. returns (x, refl)
  resolve_stmt-InScope (if_node h body) n =
      Ends-bind (optional-Gives (resolve_precond-InScope n.table) h.precond) λ _ x.
        Ends-bind (resolve_expr-InScope n.table h.cond) λ _ y.
          Ends-bind
            (resolve_stmts-InScope body (record { next = n.next; table = nested [] n.table }))
            λ _ z. returns ((x, y, rw (env-nested n.table) at z), refl)
  resolve_stmt-InScope (if_else_node h body els) n =
      Ends-bind (optional-Gives (resolve_precond-InScope n.table) h.precond) λ _ x.
        Ends-bind (resolve_expr-InScope n.table h.cond) λ _ y.
          Ends-bind
            (resolve_stmts-InScope body (record { next = n.next; table = nested [] n.table }))
            λ (_, m) z.
              Ends-bind
                (resolve_stmts-InScope els (record { next = m.next; table = nested [] n.table }))
                λ _ w.
                  returns ((x, y, rw (env-nested n.table) at z, rw (env-nested n.table) at w), refl)
  resolve_stmt-InScope (for_node h body) n =
      Ends-bind (optional-Gives (resolve_precond-InScope n.table) h.precond) λ _ x.
        Ends-bind (optional-Gives (resolve_asg-InScope n.table) h.pre_asg) λ _ a.
          Ends-bind (resolve_expr-InScope n.table h.cond) λ _ y.
            Ends-bind (optional-Gives (resolve_asg-InScope n.table) h.inc_asg) λ _ b.
              Ends-bind
                (resolve_stmts-InScope body (record { next = n.next; table = nested [] n.table }))
                λ _ z. returns ((x, a, y, b, rw (env-nested n.table) at z), refl)
  resolve_stmt-InScope (continue_node p l) n = returns (tt, refl)
  resolve_stmt-InScope (break_node p l) n = returns (tt, refl)

  resolve_stmts-InScope :
      (b : Stmts) (n : Names)
      → Gives (λ (b', m). StmtsInScope (find_symbol n.table) b') (resolve_stmts b n)
  resolve_stmts-InScope end n = returns tt
  resolve_stmts-InScope (s ⨾ b) n =
      Ends-bind (resolve_stmt-InScope s n)
        λ (s', n') (x, e). Ends-bind (resolve_stmts-InScope b n') λ _ y. returns (x, rw e at y)

add_inputs-env :
    (ds : List DefNode) (n : Names)
    → (find_symbol (add_inputs ds n).1.table
        ≡ inputs_env ds (add_inputs ds n).0 (find_symbol n.table))
      × AreInputs ds (add_inputs ds n).0
unfolding add_inputs
add_inputs-env [] n = (refl, tt)
add_inputs-env (d ∷ ds) n =
    let s = create_symbol n.next d.pos d.type d.name true in
    let m : Names = record { next = n.next + 1; table = add_symbol d.name s n.table } in
    let rest = add_inputs-env ds m in
    (
      rest.0 ∙ ap (inputs_env ds (add_inputs ds m).0) (env-add_symbol d.name s n.table),
      ((λ r h. create_symbol-fields n.next d.pos d.type d.name true r h), rest.1),
    )

env-root : find_symbol (root []) ≡ no_names
unfolding find_symbol find
env-root = refl

-- What `type_ast` makes of `f`.
abbrev pub Resolved : FunctionNode → FunctionNode × List (Option Symbol) → Type 0
Resolved f (g, inputs) =
    AreInputs f.args inputs × StmtsInScope (inputs_env f.args inputs no_names) g.body

pub type_ast-Ends : (f : FunctionNode) → Ends (Resolved f) OneError ⊥ (type_ast f)
unfolding type_ast start_names
type_ast-Ends f =
    let (inputs, n) = add_inputs f.args start_names in
    let (e, are) = add_inputs-env f.args start_names in
    Ends-bind (resolve_stmts-InScope f.body n) λ _ p. returns (are, rw (← env-root, ← e) p)

-- `type_ast` either throws one error or returns a tree in which each identifier holds the symbol
-- that lexical scope gives its name: that of the innermost declaration before it, its own right
-- side included, else that of the argument. The symbols have the types and the names that were
-- declared, and those of the arguments alone are inputs.
pub type_ast-InScope :
    (f : FunctionNode)
    → ((r : FunctionNode × List (Option Symbol)) × (type_ast f ≡ ok r) × Resolved f r)
      ⊎ ((x : Err) × (type_ast f ≡ err (x ∷ [])))
type_ast-InScope f = elim (Ends-cases (type_ast f) (type_ast-Ends f)) [
  | inl r ↦ inl r
  | inr (inl (t, made, (x, q))) ↦ inr (x, made ∙ ap err q)
  | inr (inr (c, made)) ↦ absurd c
]
