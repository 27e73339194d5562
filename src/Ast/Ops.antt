-- ===== src/Ast/Ops.antt =====
-- The operator tables of BinOpNode, AsgNode and CremNode (src/ast.cpp).
use d_gen.Prelude.{
  ◌≡◌, ◌↔◌, refl, ap, ◌∙◌, String, str_eq, eq_iff, inl, inr, Bool-cases, if◌then◌else◌,
}
use d_gen.Errors.{Outcome, ok, crash, ok_injective}
use d_gen.Types.{TypeKind, int, bool}
use d_gen.Ast.{
  BinOpType, sum, sub, or, lt, le, gt, ge, eq, neq, mul, div, and, AsgType, asg, CremType, inc, dec,
}

unfoldable pub map_op_type : String → Outcome BinOpType
map_op_type s =
    if str_eq s "+"
    then ok sum
    else if str_eq s "-"
    then ok sub
    else if str_eq s "||"
    then ok or
    else if str_eq s "<"
    then ok lt
    else if str_eq s "<="
    then ok le
    else if str_eq s ">"
    then ok gt
    else if str_eq s ">="
    then ok ge
    else if str_eq s "=="
    then ok eq
    else if str_eq s "!="
    then ok neq
    else if str_eq s "*"
    then ok mul
    else if str_eq s "/"
    then ok div
    else if str_eq s "&&"
    then ok and
    else crash

unfoldable pub map_op_type_to_str : BinOpType → String
map_op_type_to_str sum = "+"
map_op_type_to_str sub = "-"
map_op_type_to_str or = "||"
map_op_type_to_str lt = "<"
map_op_type_to_str le = "<="
map_op_type_to_str gt = ">"
map_op_type_to_str ge = ">="
map_op_type_to_str eq = "=="
map_op_type_to_str neq = "!="
map_op_type_to_str mul = "*"
map_op_type_to_str div = "/"
map_op_type_to_str and = "&&"

pub data BinOpGroup : Type 0 where
  num bools any : BinOpGroup

unfoldable pub get_op_group_args : BinOpType → BinOpGroup
get_op_group_args or = bools
get_op_group_args and = bools
get_op_group_args eq = any
get_op_group_args neq = any
get_op_group_args _ = num

unfoldable pub get_op_group_res : BinOpType → TypeKind
get_op_group_res sum = int
get_op_group_res sub = int
get_op_group_res mul = int
get_op_group_res div = int
get_op_group_res _ = bool

unfoldable pub map_asg_type : String → Outcome AsgType
map_asg_type s =
    if str_eq s "="
    then ok asg
    else if str_eq s "+="
    then ok AsgType.sum
    else if str_eq s "-="
    then ok AsgType.sub
    else if str_eq s "*="
    then ok AsgType.mul
    else if str_eq s "/="
    then ok AsgType.div
    else crash

unfoldable pub map_crem_type : String → Outcome CremType
map_crem_type s = if str_eq s "++" then ok inc else if str_eq s "--" then ok dec else crash

map_op_type-text : (o : BinOpType) → map_op_type (map_op_type_to_str o) ≡ ok o
unfolding map_op_type map_op_type_to_str
map_op_type-text sum = refl
map_op_type-text _ = refl

-- One line of the ladder.
by_text :
    (s : String) (o q : BinOpType) (rest : Outcome BinOpType)
    → (rest ≡ ok o → s ≡ map_op_type_to_str o)
    → (if str_eq s (map_op_type_to_str q) then ok q else rest) ≡ ok o
    → s ≡ map_op_type_to_str o
by_text s o q rest k h = elim (Bool-cases (str_eq s (map_op_type_to_str q))) [
  | inl is ↦
      (eq_iff s (map_op_type_to_str q)).0 is ∙ ap map_op_type_to_str (ok_injective (rw is at h))
  | inr isnt ↦ k (rw isnt at h)
]

text-map_op_type : (s : String) (o : BinOpType) → map_op_type s ≡ ok o → s ≡ map_op_type_to_str o
unfolding map_op_type map_op_type_to_str
text-map_op_type s o = by_text s o sum _ (
    by_text s o sub _ (
      by_text s o or _ (
        by_text s o lt _ (
          by_text s o le _ (
            by_text s o gt _ (
              by_text s o ge _ (
                by_text s o eq _ (
                  by_text s o neq _ (
                    by_text s o mul _ (by_text s o div _ (by_text s o and crash (λ h. cc))))))))))))

-- The text of an operator and the operator determine one another: a text is read as an operation
-- exactly if it is the text that the operation prints as.
pub map_op_type_iff :
    (s : String) (o : BinOpType) → (map_op_type s ≡ ok o) ↔ (s ≡ map_op_type_to_str o)
map_op_type_iff s o = (text-map_op_type s o, λ e. ap map_op_type e ∙ map_op_type-text o)
