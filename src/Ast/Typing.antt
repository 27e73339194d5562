-- ===== src/Ast/Typing.antt =====
-- The overrides of ASTNode::get_type (src/ast.cpp).
use d_gen.Prelude.{not, ◌&&◌, String, ◌∷◌, [], concat, str_eq, none, some, if◌then◌else◌}
use d_gen.Errors.{Position, Outcome, ok, crash, ◌>>=◌, ◌>>◌, throw}
use d_gen.Types.{
  Ty, int, string, char, bool, arr, invalid, kind_eq, of_kind, eq_type, eq_kind, drop_type,
  get_current_type, to_string,
}
use d_gen.Ast.{
  Expr, char_node, string_node, number_node, bool_node, ident_node, bin_op_node, arr_lookup_node,
  arr_create_node, property_lookup_node, Exprs, nil, cons, IdentNode, BinOpType, expr_pos,
}
use d_gen.Ast.Ops.{
  BinOpGroup, num, bools, any, map_op_type_to_str, get_op_group_args, get_op_group_res,
}

-- IdentNode::get_type dereferences the symbol.
unfoldable pub ident_type : IdentNode → Outcome Ty
ident_type i = elim i.symbol [ none ↦ crash | some s ↦ ok s.type ]

-- the switch of BinOpNode::get_type: the arguments' types against the group of the operation
unfoldable pub check_op_group : BinOpGroup → Position → BinOpType → Ty → Ty → Outcome (Unit {0})
check_op_group num p o t1 t2 =
    if not (eq_type t1 t2)
    then throw p (
        concat (
          "invalid arguments types for operation \""
          ∷ map_op_type_to_str o
          ∷ "\", numerical args expected, got: "
          ∷ to_string t1
          ∷ " and "
          ∷ to_string t2
          ∷ []))
    else ok tt
check_op_group bools p o t1 t2 =
    if not (eq_kind t1 bool && eq_kind t2 bool)
    then throw p (
        concat (
          "invalid arguments types for operation \""
          ∷ map_op_type_to_str o
          ∷ "\", bool arguments expected, got: "
          ∷ to_string t1
          ∷ " and "
          ∷ to_string t2
          ∷ []))
    else ok tt
check_op_group any p o t1 t2 =
    if not (eq_type t1 t2)
    then throw p (
        concat (
          "incompatible arguments types for operation \""
          ∷ map_op_type_to_str o
          ∷ "\", got"
          ∷ to_string t1
          ∷ " and "
          ∷ to_string t2
          ∷ []))
    else ok tt

-- the loop of ArrLookupNode::get_type, one dropped type for each index
unfoldable pub drop_types : Exprs → Ty → Ty
drop_types nil t = t
drop_types (cons idx idxs) t = drop_types idxs (drop_type t)

unfoldable pub arr_lookup_type : Position → IdentNode → Exprs → Outcome Ty
arr_lookup_type p i idxs = do
  t ← ident_type i
  let type = drop_types idxs t
  if eq_kind type invalid then throw p "array dereference on non array variable" else ok type

unfoldable pub property_lookup_type : Position → IdentNode → String → Outcome Ty
property_lookup_type p i name =
    if str_eq name "len"
    then (do
      t ← ident_type i
      if not (kind_eq (get_current_type t) arr) && not (kind_eq (get_current_type t) string)
          then throw p "invalid len property on non array symbol"
          else ok (of_kind int))
    else throw p (concat ("unknown \"" ∷ name ∷ "\" property" ∷ []))

unfoldable pub get_type : Expr → Outcome Ty
get_type (char_node _ _) = ok (of_kind char)
get_type (string_node _ _) = ok (of_kind string)
get_type (number_node _ _) = ok (of_kind int)
get_type (bool_node _ _) = ok (of_kind bool)
get_type (ident_node i) = ident_type i
get_type (bin_op_node p o l r) = do
  t1 ← get_type l
  t2 ← get_type r
  check_op_group (get_op_group_args o) (expr_pos l) o t1 t2
  ok (of_kind (get_op_group_res o))
get_type (arr_lookup_node p i idxs) = arr_lookup_type p i idxs
get_type (arr_create_node _ t _) = ok t
get_type (property_lookup_node p i name) = property_lookup_type p i name
