-- ===== src/Semantics/Resolve.antt =====
-- Semantics::type_ast with type_visitor (src/Semantics.cpp) and Symbol::create_symbol
-- (src/Symbol.cpp): each name gets its symbol. A new symbol has the next free address.
pub mod Scoped
use d_gen.Prelude.{ℕ, ◌+◌, Bool, true, false, Option, none, some, List, [], ◌∷◌, String, concat}
use d_gen.Errors.{Position, Outcome, ok, ◌>>=◌, throw}
use d_gen.Types.{TypeKind, invalid, Ty, get_current_type}
use d_gen.Ast.{
  Symbol, IdentNode, Expr, char_node, string_node, number_node, bool_node, ident_node, bin_op_node,
  arr_lookup_node, arr_create_node, property_lookup_node, Exprs, nil, cons, PrecondNode, AsgNode,
  DefNode, Stmt, if_node, if_else_node, for_node, def_node, continue_node, break_node, return_node,
  asg_node, Stmts, end, ◌⨾◌, FunctionNode,
}
use d_gen.Scope.{SymbolTable, root, nested, add_symbol, find_symbol}

-- The subclass that is made is that of the current kind; `none` is the null pointer.
unfoldable pub create_symbol : ℕ → Position → Ty → String → Bool → Option Symbol
create_symbol addr p type name is_input = elim (get_current_type type) [
  | invalid ↦ none
  | _ ↦ some (record { addr = addr; pos = p; type = type; name = name; is_input = is_input })
]

-- the case of IdentNode in `type_visitor`
unfoldable pub resolve_ident : SymbolTable → IdentNode → Outcome IdentNode
resolve_ident t i = elim (find_symbol t i.name) [
  | none ↦ throw i.pos (concat ("undefined symbol " ∷ i.name ∷ []))
  | some s ↦ ok (record i { symbol = some s })
]

-- visitChildren visits the children of a node in the order of its constructor.
unfoldable mutual
  pub resolve_expr : SymbolTable → Expr → Outcome Expr
  resolve_expr t (ident_node i) = do i' ← resolve_ident t i; ok (ident_node i')
  resolve_expr t (bin_op_node p o l r) = do
    l' ← resolve_expr t l
    r' ← resolve_expr t r
    ok (bin_op_node p o l' r')
  resolve_expr t (arr_lookup_node p i idxs) = do
    i' ← resolve_ident t i
    idxs' ← resolve_exprs t idxs
    ok (arr_lookup_node p i' idxs')
  resolve_expr t (arr_create_node p type len) = do
    len' ← resolve_expr t len
    ok (arr_create_node p type len')
  resolve_expr t (property_lookup_node p i name) = do
    i' ← resolve_ident t i
    ok (property_lookup_node p i' name)
  resolve_expr t e = ok e

  pub resolve_exprs : SymbolTable → Exprs → Outcome Exprs
  resolve_exprs t nil = ok nil
  resolve_exprs t (cons e es) = do e' ← resolve_expr t e; es' ← resolve_exprs t es; ok (cons e' es')

-- A null child is passed over.
unfoldable pub optional : {A : Type 0} → (A → Outcome A) → Option A → Outcome (Option A)
optional f none = ok none
optional f (some a) = do a' ← f a; ok (some a')

unfoldable pub resolve_precond : SymbolTable → PrecondNode → Outcome PrecondNode
resolve_precond t c = do e ← optional (resolve_expr t) c.expr; ok (record c { expr = e })

unfoldable pub resolve_asg : SymbolTable → AsgNode → Outcome AsgNode
resolve_asg t a = do
  l ← resolve_expr t a.lhs
  r ← resolve_expr t a.rhs
  ok (record a { lhs = l; rhs = r })

-- The next free address, and the table that the visitor holds.
pub record Names : Type 0 where
  pub next : ℕ
  pub table : SymbolTable

-- the case of DefNode: the symbol is in the table before the right side is visited
unfoldable pub resolve_def : DefNode → Names → Outcome (DefNode × Names)
resolve_def d n = do
  let sym = create_symbol n.next d.pos d.type d.name false
  let table = add_symbol d.name sym n.table
  rhs ← optional (resolve_expr table) d.rhs
  ok (record d { sym = sym; rhs = rhs }, record { next = n.next + 1; table = table })

-- A body is visited with a new table inside the current one.
unfoldable mutual
  pub resolve_stmt : Stmt → Names → Outcome (Stmt × Names)
  resolve_stmt (def_node d) n = do (d', n') ← resolve_def d n; ok (def_node d', n')
  resolve_stmt (asg_node a) n = do a' ← resolve_asg n.table a; ok (asg_node a', n)
  resolve_stmt (return_node p e) n = do e' ← resolve_expr n.table e; ok (return_node p e', n)
  resolve_stmt (if_node h body) n = do
    pre ← optional (resolve_precond n.table) h.precond
    cond ← resolve_expr n.table h.cond
    (body', m) ← resolve_stmts body (record { next = n.next; table = nested [] n.table })
    ok (if_node (record h { precond = pre; cond = cond }) body', record n { next = m.next })
  resolve_stmt (if_else_node h body els) n = do
    pre ← optional (resolve_precond n.table) h.precond
    cond ← resolve_expr n.table h.cond
    (body', m) ← resolve_stmts body (record { next = n.next; table = nested [] n.table })
    (els', k) ← resolve_stmts els (record { next = m.next; table = nested [] n.table })
    ok (
      if_else_node (record h { precond = pre; cond = cond }) body' els',
      record n { next = k.next },
    )
  resolve_stmt (for_node h body) n = do
    pre ← optional (resolve_precond n.table) h.precond
    pre_asg ← optional (resolve_asg n.table) h.pre_asg
    cond ← resolve_expr n.table h.cond
    inc_asg ← optional (resolve_asg n.table) h.inc_asg
    (body', m) ← resolve_stmts body (record { next = n.next; table = nested [] n.table })
    ok (
      for_node (record h { precond = pre; pre_asg = pre_asg; cond = cond; inc_asg = inc_asg })
          body',
      record n { next = m.next },
    )
  resolve_stmt s n = ok (s, n)

  pub resolve_stmts : Stmts → Names → Outcome (Stmts × Names)
  resolve_stmts end n = ok (end, n)
  resolve_stmts (s ⨾ b) n = do
    (s', n') ← resolve_stmt s n
    (b', m) ← resolve_stmts b n'
    ok (s' ⨾ b', m)

-- the loop of `type_ast` over the arguments
unfoldable pub add_inputs : List DefNode → Names → List (Option Symbol) × Names
add_inputs [] n = ([], n)
add_inputs (d ∷ ds) n =
    let sym = create_symbol n.next d.pos d.type d.name true in
    let rest =
      add_inputs ds (record { next = n.next + 1; table = add_symbol d.name sym n.table }) in
    (sym ∷ rest.0, rest.1)

unfoldable pub start_names : Names
start_names = record { next = 0; table = root [] }

-- The tree with its names resolved, and the symbols of the inputs.
unfoldable pub type_ast : FunctionNode → Outcome (FunctionNode × List (Option Symbol))
type_ast f = do
  let (inputs, n) = add_inputs f.args start_names
  (body, m) ← resolve_stmts f.body n
  ok (record f { body = body }, inputs)
