-- ===== src/Builder/Meaning.antt =====
-- What an expression means, told by its parse tree and by its syntax tree, and that the visitor
-- (src/ASTBuilderVisitor.cpp) keeps it: a chain of operators is taken from the left.
pub mod Keep
use d_gen.Prelude.{
  ℕ, ◌≡◌, refl, ◌∙◌, ap, ap₂, Bool, List, [], ◌∷◌, ◌++◌, String, ℤ, negsuc, replicate,
}
use d_gen.Errors.{Position, Outcome, ok, ◌>>=◌}
use d_gen.Types.{Ty, arr}
use d_gen.Ast.{
  Expr, char_node, string_node, number_node, bool_node, ident_node, bin_op_node, arr_lookup_node,
  arr_create_node, property_lookup_node, Exprs, nil, cons, BinOpType,
}
use d_gen.Ast.Ops.{map_op_type}
use d_gen.Ast.Build.{create_arr_create}
use d_gen.Grammar.{
  CharToken, plain, newline, tab, TypeContext, LogicExpr, logic_expr, LogicTs, no_logic_ts, or_then,
  LogicT, logic_t, LogicFs, no_logic_fs, and_then, LogicF, logic_inner_expr, cmp_op, plain_expr,
  ExprContext, expr, TContexts, no_ts, sum_then, TContext, t, FContexts, no_fs, mul_then, FContext,
  inner_expr, char_const, string_const, num_const, bool_const, f_ident, array_lookup, array_create,
  property_lookup, unary_minus, ExprContexts, no_exprs, expr_then,
}
use d_gen.Builder.{
  create_char, create_bin_op, unquote, quoted, new_ident, visit_logic_expr, fold_logic_ts,
  visit_logic_t, fold_logic_fs, visit_logic_f, visit_expr, fold_ts, visit_t, fold_fs, visit_f,
  visit_exprs,
}
use d_gen.Builder.Texts.{
  sum_op, mul_op, cmp_op_type, map_op_type-sum, map_op_type-mul, map_op_type-cmp, map_op_type-or,
  map_op_type-and, create_bool-text, unquote-quoted, declared_type, visit_type-declared,
}

-- An interpretation of the expressions in a type of values.
pub record Meaning (A : Type 0) : Type 0 where
  pub character : ℕ → A
  pub string : String → A
  pub number : ℤ → A
  pub truth : Bool → A
  pub variable : String → A
  pub apply : BinOpType → A → A → A
  pub element : String → List A → A
  pub array : Ty → A → A
  pub property : String → String → A

-- The character that a CHAR gives; an escape gives its backslash.
abbrev pub char_of : CharToken → ℕ
char_of (plain b _) = b
char_of newline = b'\\'
char_of tab = b'\\'

-- the type of the array that is created
abbrev pub array_of : TypeContext → Ty
array_of c = let ty = declared_type c in record ty { types = arr ∷ ty.types }

module _ {A : Type 0} (m : Meaning A) where
  unfoldable mutual
    pub value : Expr → A
    value (char_node _ c) = m.character c
    value (string_node _ s) = m.string s
    value (number_node _ z) = m.number z
    value (bool_node _ b) = m.truth b
    value (ident_node i) = m.variable i.name
    value (bin_op_node _ o l r) = m.apply o (value l) (value r)
    value (arr_lookup_node _ i idxs) = m.element i.name (values idxs)
    value (arr_create_node _ ty len) = m.array ty (value len)
    value (property_lookup_node _ i name) = m.property i.name name

    pub values : Exprs → List A
    values nil = []
    values (cons e es) = value e ∷ values es

  -- The visitor returns a node that means `a`.
  abbrev pub Means : A → Outcome Expr → Type 0
  Means a r = (e : Expr) × (r ≡ ok e) × (value e ≡ a)

  abbrev pub MeansAll : List A → Outcome Exprs → Type 0
  MeansAll vs r = (es : Exprs) × (r ≡ ok es) × (values es ≡ vs)

module _ {A : Type 0} (m : Meaning A) (atoi : String → ℤ) where
  -- The functions named `from_...` go on from the value `a` of what stands before.
  unfoldable mutual
    pub logic_expr_value : LogicExpr → A
    logic_expr_value (logic_expr c cs) = from_logic_ts cs (logic_t_value c)

    pub from_logic_ts : LogicTs → A → A
    from_logic_ts no_logic_ts a = a
    from_logic_ts (or_then c cs) a = from_logic_ts cs (m.apply BinOpType.or a (logic_t_value c))

    pub logic_t_value : LogicT → A
    logic_t_value (logic_t _ c cs) = from_logic_fs cs (logic_f_value c)

    pub from_logic_fs : LogicFs → A → A
    from_logic_fs no_logic_fs a = a
    from_logic_fs (and_then c cs) a = from_logic_fs cs (m.apply BinOpType.and a (logic_f_value c))

    pub logic_f_value : LogicF → A
    logic_f_value (logic_inner_expr _ c) = logic_expr_value c
    logic_f_value (cmp_op _ l o r) = m.apply (cmp_op_type o) (expr_value l) (expr_value r)
    logic_f_value (plain_expr _ c) = expr_value c

    pub expr_value : ExprContext → A
    expr_value (expr c cs) = from_ts cs (t_value c)

    pub from_ts : TContexts → A → A
    from_ts no_ts a = a
    from_ts (sum_then o c cs) a = from_ts cs (m.apply (sum_op o) a (t_value c))

    pub t_value : TContext → A
    t_value (t _ c cs) = from_fs cs (f_value c)

    pub from_fs : FContexts → A → A
    from_fs no_fs a = a
    from_fs (mul_then o c cs) a = from_fs cs (m.apply (mul_op o) a (f_value c))

    pub f_value : FContext → A
    f_value (inner_expr _ c) = expr_value c
    f_value (char_const _ c) = m.character (char_of c)
    f_value (string_const _ s) = m.string s
    f_value (num_const _ s) = m.number (atoi s)
    f_value (bool_const _ b) = m.truth b
    f_value (f_ident _ name) = m.variable name
    f_value (array_lookup _ name c cs) = m.element name (expr_value c ∷ expr_values cs)
    f_value (array_create _ ty c) = m.array (array_of ty) (expr_value c)
    f_value (property_lookup _ name property) = m.property name property
    f_value (unary_minus _ c) = m.apply BinOpType.mul (m.number (negsuc 0)) (f_value c)

    pub expr_values : ExprContexts → List A
    expr_values no_exprs = []
    expr_values (expr_then c cs) = expr_value c ∷ expr_values cs
