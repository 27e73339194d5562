-- ===== src/Builder.antt =====
-- src/ASTBuilderVisitor.h and src/ASTBuilderVisitor.cpp, with the `create` functions of src/ast.cpp that
-- read tokens: the syntax tree of a parse tree.
pub mod Texts
pub mod Meaning
pub mod Program
use Prim.Native.Char.{code}
use Prim.Native.String
use d_gen.Prelude.{
  ℕ, ◌+◌, Bool, true, false, Option, none, some, List, [], ◌∷◌, ◌++◌, String, ℤ, pos, negsuc,
  get_or, replicate, ◌==◌, if◌then◌else◌,
}
use d_gen.Errors.{Position, Outcome, ok, crash, ◌>>=◌}
use d_gen.Types.{Ty, create}
use d_gen.Ast.{
  Expr, char_node, string_node, number_node, bool_node, ident_node, bin_op_node, arr_lookup_node,
  property_lookup_node, Exprs, nil, cons, IdentNode, BinOpType, PrecondNode, AsgNode, DefNode, Stmt,
  if_node, if_else_node, for_node, def_node, continue_node, break_node, return_node, asg_node,
  Stmts, end, ◌⨾◌, FunctionNode,
}
use d_gen.Ast.Ops.{map_op_type}
use d_gen.Ast.Build.{create_asg, create_crem, create_arr_create}
use d_gen.Grammar.{
  ScalarType, int, string, char, bool, SumOp, plus, minus, MulOp, star, slash, CmpOp, lt, le, gt,
  ge, eq, neq, AsgOp, asg, plus_asg, minus_asg, star_asg, slash_asg, CremOp, plus_plus, minus_minus,
  CharToken, plain, newline, tab, TypeContext, LogicExpr, logic_expr, LogicTs, no_logic_ts, or_then,
  LogicT, logic_t, LogicFs, no_logic_fs, and_then, LogicF, logic_inner_expr, cmp_op, plain_expr,
  ExprContext, expr, TContexts, no_ts, sum_then, TContext, t, FContexts, no_fs, mul_then, FContext,
  inner_expr, char_const, string_const, num_const, bool_const, f_ident, array_lookup, array_create,
  property_lookup, unary_minus, ExprContexts, no_exprs, expr_then, Target, ident_target,
  lookup_target, Assignment, simple_asg, crem_asg, Precondition, Statement, assignment, return_stmt,
  break_stmt, continue_stmt, define, for_stmt, while_stmt, if_stmt, if_else_stmt, Statements,
  no_stmts, stmt_then, Argument, Function,
}

-- getText() of the tokens
abbrev pub scalar_text : ScalarType → String
scalar_text int = "int"
scalar_text string = "string"
scalar_text char = "char"
scalar_text bool = "bool"

abbrev pub sum_text : SumOp → String
sum_text plus = "+"
sum_text minus = "-"

abbrev pub mul_text : MulOp → String
mul_text star = "*"
mul_text slash = "/"

abbrev pub cmp_text : CmpOp → String
cmp_text lt = "<"
cmp_text le = "<="
cmp_text gt = ">"
cmp_text ge = ">="
cmp_text eq = "=="
cmp_text neq = "!="

abbrev pub asg_text : AsgOp → String
asg_text asg = "="
asg_text plus_asg = "+="
asg_text minus_asg = "-="
asg_text star_asg = "*="
asg_text slash_asg = "/="

abbrev pub crem_text : CremOp → String
crem_text plus_plus = "++"
crem_text minus_minus = "--"

abbrev pub bool_text : Bool → String
bool_text true = "true"
bool_text false = "false"

-- the bytes of a CHAR, with its quotes
abbrev pub char_bytes : CharToken → List ℕ
char_bytes (plain b bs) = b'\'' ∷ b ∷ bs ++ b'\'' ∷ []
char_bytes newline = b'\'' ∷ b'\\' ∷ b'n' ∷ b'\'' ∷ []
char_bytes tab = b'\'' ∷ b'\\' ∷ b't' ∷ b'\'' ∷ []

-- CharNode::create
unfoldable pub create_char : Position → CharToken → Expr
create_char p c = char_node p (get_or (char_bytes c) 1 0)

-- BoolNode::create
unfoldable pub create_bool : Position → String → Outcome Expr
create_bool p text =
    let first = code (String.char_at text 0) in
    if first == b't'
    then ok (bool_node p true)
    else if first == b'f'
    then ok (bool_node p false)
    else crash

-- text.substr(1, text.size() - 2)
unfoldable pub but_last : String → String
but_last String.[] = String.[]
but_last (String.◌∷◌ c String.[]) = String.[]
but_last (String.◌∷◌ c (String.◌∷◌ d s)) = String.◌∷◌ c (but_last (String.◌∷◌ d s))

unfoldable pub unquote : String → String
unquote String.[] = String.[]
unquote (String.◌∷◌ c s) = but_last s

abbrev pub quoted : String → String
quoted s = String.◌++◌ "\"" (String.◌++◌ s "\"")

-- BinOpNode::create
unfoldable pub create_bin_op : Position → String → Expr → Expr → Outcome Expr
create_bin_op p text lhs rhs = do o ← map_op_type text; ok (bin_op_node p o lhs rhs)

unfoldable pub visit_type : TypeContext → Outcome Ty
visit_type c = create (scalar_text c.scalar ∷ replicate c.nested "[]")

-- getStartPos of the operands
abbrev pub logic_t_pos : LogicT → Position
logic_t_pos (logic_t p _ _) = p

abbrev pub logic_f_pos : LogicF → Position
logic_f_pos (logic_inner_expr p _) = p
logic_f_pos (cmp_op p _ _ _) = p
logic_f_pos (plain_expr p _) = p

abbrev pub t_pos : TContext → Position
t_pos (t p _ _) = p

abbrev pub f_pos : FContext → Position
f_pos (inner_expr p _) = p
f_pos (char_const p _) = p
f_pos (string_const p _) = p
f_pos (num_const p _) = p
f_pos (bool_const p _) = p
f_pos (f_ident p _) = p
f_pos (array_lookup p _ _ _) = p
f_pos (array_create p _ _) = p
f_pos (property_lookup p _ _) = p
f_pos (unary_minus p _) = p

abbrev pub new_ident : Position → String → IdentNode
new_ident p name = record { pos = p; name = name; symbol = none }

-- `atoi` is std::atoi. The functions named `fold_...` are the loop of gen_bin_op_construction, with the
-- node built so far first.
module _ (atoi : String → ℤ) where
  unfoldable mutual
    pub visit_logic_expr : LogicExpr → Outcome Expr
    visit_logic_expr (logic_expr c cs) = do lhs ← visit_logic_t c; fold_logic_ts cs lhs

    pub fold_logic_ts : LogicTs → Expr → Outcome Expr
    fold_logic_ts no_logic_ts lhs = ok lhs
    fold_logic_ts (or_then c cs) lhs = do
      rhs ← visit_logic_t c
      lhs' ← create_bin_op (logic_t_pos c) "||" lhs rhs
      fold_logic_ts cs lhs'

    pub visit_logic_t : LogicT → Outcome Expr
    visit_logic_t (logic_t p c cs) = do lhs ← visit_logic_f c; fold_logic_fs cs lhs

    pub fold_logic_fs : LogicFs → Expr → Outcome Expr
    fold_logic_fs no_logic_fs lhs = ok lhs
    fold_logic_fs (and_then c cs) lhs = do
      rhs ← visit_logic_f c
      lhs' ← create_bin_op (logic_f_pos c) "&&" lhs rhs
      fold_logic_fs cs lhs'

    pub visit_logic_f : LogicF → Outcome Expr
    visit_logic_f (logic_inner_expr p c) = visit_logic_expr c
    visit_logic_f (cmp_op p l o r) = do
      lhs ← visit_expr l
      rhs ← visit_expr r
      create_bin_op p (cmp_text o) lhs rhs
    visit_logic_f (plain_expr p c) = visit_expr c

    pub visit_expr : ExprContext → Outcome Expr
    visit_expr (expr c cs) = do lhs ← visit_t c; fold_ts cs lhs

    pub fold_ts : TContexts → Expr → Outcome Expr
    fold_ts no_ts lhs = ok lhs
    fold_ts (sum_then o c cs) lhs = do
      rhs ← visit_t c
      lhs' ← create_bin_op (t_pos c) (sum_text o) lhs rhs
      fold_ts cs lhs'

    pub visit_t : TContext → Outcome Expr
    visit_t (t p c cs) = do lhs ← visit_f c; fold_fs cs lhs

    pub fold_fs : FContexts → Expr → Outcome Expr
    fold_fs no_fs lhs = ok lhs
    fold_fs (mul_then o c cs) lhs = do
      rhs ← visit_f c
      lhs' ← create_bin_op (f_pos c) (mul_text o) lhs rhs
      fold_fs cs lhs'

    pub visit_f : FContext → Outcome Expr
    visit_f (inner_expr p c) = visit_expr c
    visit_f (char_const p c) = ok (create_char p c)
    visit_f (string_const p s) = ok (string_node p (unquote (quoted s)))
    visit_f (num_const p s) = ok (number_node p (atoi s))
    visit_f (bool_const p b) = create_bool p (bool_text b)
    visit_f (f_ident p name) = ok (ident_node (new_ident p name))
    visit_f (array_lookup p name c cs) = do
      idx ← visit_expr c
      idxs ← visit_exprs cs
      ok (arr_lookup_node p (new_ident p name) (cons idx idxs))
    visit_f (array_create p ty c) = do
      type ← visit_type ty
      len ← visit_expr c
      ok (create_arr_create p type len)
    visit_f (property_lookup p name property) =
        ok (property_lookup_node p (new_ident p name) property)
    visit_f (unary_minus p c) = do
      f ← visit_f c
      ok (bin_op_node p BinOpType.mul (number_node p (negsuc 0)) f)

    pub visit_exprs : ExprContexts → Outcome Exprs
    visit_exprs no_exprs = ok nil
    visit_exprs (expr_then c cs) = do e ← visit_expr c; es ← visit_exprs cs; ok (cons e es)
