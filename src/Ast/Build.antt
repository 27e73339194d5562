-- ===== src/Ast/Build.antt =====
-- ASTNode::copy, AsgNode::create and CremNode::create (src/ast.cpp): the assignments `x op= e`,
-- `x++` and `x--` become `x = x op e`, with a copy of the left side.
use d_gen.Prelude.{pos, ◌∷◌, String, none}
use d_gen.Errors.{Position, Outcome, ok, ◌>>=◌}
use d_gen.Types.{Ty, arr}
use d_gen.Ast.{
  Expr, number_node, ident_node, bin_op_node, arr_lookup_node, arr_create_node,
  property_lookup_node, Exprs, nil, cons, IdentNode, AsgNode, BinOpType, AsgType, asg, CremType,
  inc, dec,
}
use d_gen.Ast.Ops.{map_asg_type, map_crem_type}

-- The new IdentNode has no symbol. A class that does not override `copy` returns the node itself.
unfoldable pub copy_ident : IdentNode → IdentNode
copy_ident i = record i { symbol = none }

unfoldable mutual
  pub copy : Expr → Expr
  copy (number_node p n) = number_node p n
  copy (ident_node i) = ident_node (copy_ident i)
  copy (bin_op_node p o l r) = bin_op_node p o (copy l) (copy r)
  copy (arr_lookup_node p i idxs) =
      arr_lookup_node p (record i { pos = p; symbol = none }) (copy_all idxs)
  copy (property_lookup_node p i name) =
      property_lookup_node p (record i { pos = p; symbol = none }) name
  copy e = e

  pub copy_all : Exprs → Exprs
  copy_all nil = nil
  copy_all (cons e es) = cons (copy e) (copy_all es)

unfoldable pub asg_rhs : Position → AsgType → Expr → Expr → Expr
asg_rhs p asg lhs rhs = rhs
asg_rhs p AsgType.sum lhs rhs = bin_op_node p BinOpType.sum (copy lhs) rhs
asg_rhs p AsgType.sub lhs rhs = bin_op_node p BinOpType.sub (copy lhs) rhs
asg_rhs p AsgType.mul lhs rhs = bin_op_node p BinOpType.mul (copy lhs) rhs
asg_rhs p AsgType.div lhs rhs = bin_op_node p BinOpType.div (copy lhs) rhs

-- AsgNode::create
unfoldable pub create_asg : Position → Expr → String → Expr → Outcome AsgNode
create_asg p lhs type rhs = do
  t ← map_asg_type type
  ok (record { pos = p; lhs = lhs; rhs = asg_rhs p t lhs rhs })

unfoldable pub crem_rhs : Position → CremType → Expr → Expr
crem_rhs p inc lhs = bin_op_node p BinOpType.sum (copy lhs) (number_node p (pos 1))
crem_rhs p dec lhs = bin_op_node p BinOpType.sub (copy lhs) (number_node p (pos 1))

-- CremNode::create
unfoldable pub create_crem : Position → Expr → String → Outcome AsgNode
create_crem p lhs type = do
  t ← map_crem_type type
  ok (record { pos = p; lhs = lhs; rhs = crem_rhs p t lhs })

-- ArrCreateNode::create puts the array kind in front of the kinds of the element's type, a type
-- that no other node holds.
unfoldable pub create_arr_create : Position → Ty → Expr → Expr
create_arr_create p t len = arr_create_node p (record t { types = arr ∷ t.types }) len
