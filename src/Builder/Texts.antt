-- ===== src/Builder/Texts.antt =====
-- What the texts of the tokens stand for (src/ASTBuilderVisitor.cpp, src/ast.cpp, src/type.cpp).
use Prim.Native.Char.{Char}
use Prim.Native.String
use mathlib.Core.List.{reverse-append, reverse-cons}
use text.Mathlib.TextLemmas.{nil-append, cons-append}
use d_gen.Prelude.{
  ℕ, zero, suc, ◌≡◌, refl, ◌∙◌, ap, Bool, true, false, [], ◌∷◌, ◌++◌, reverse, String, replicate,
}
use d_gen.Errors.{Position, ok}
use d_gen.Types.{TypeKind, Ty, arr, map_type, map_types, create}
use d_gen.Ast.{bool_node, BinOpType, sum, sub, or, lt, le, gt, ge, eq, neq, mul, div, and}
use d_gen.Ast.Ops.{map_op_type}
use d_gen.Grammar.{
  ScalarType, int, string, char, bool, SumOp, plus, minus, MulOp, star, slash, CmpOp, TypeContext,
}
use d_gen.Builder.{
  scalar_text, sum_text, mul_text, cmp_text, bool_text, create_bool, but_last, unquote, quoted,
  visit_type,
}

abbrev pub sum_op : SumOp → BinOpType
sum_op plus = sum
sum_op minus = sub

abbrev pub mul_op : MulOp → BinOpType
mul_op star = mul
mul_op slash = div

abbrev pub cmp_op_type : CmpOp → BinOpType
cmp_op_type CmpOp.lt = lt
cmp_op_type CmpOp.le = le
cmp_op_type CmpOp.gt = gt
cmp_op_type CmpOp.ge = ge
cmp_op_type CmpOp.eq = eq
cmp_op_type CmpOp.neq = neq

pub map_op_type-sum : (o : SumOp) → map_op_type (sum_text o) ≡ ok (sum_op o)
unfolding map_op_type
map_op_type-sum plus = refl
map_op_type-sum minus = refl

pub map_op_type-mul : (o : MulOp) → map_op_type (mul_text o) ≡ ok (mul_op o)
unfolding map_op_type
map_op_type-mul star = refl
map_op_type-mul slash = refl

pub map_op_type-cmp : (o : CmpOp) → map_op_type (cmp_text o) ≡ ok (cmp_op_type o)
unfolding map_op_type
map_op_type-cmp CmpOp.lt = refl
map_op_type-cmp CmpOp.le = refl
map_op_type-cmp CmpOp.gt = refl
map_op_type-cmp CmpOp.ge = refl
map_op_type-cmp CmpOp.eq = refl
map_op_type-cmp CmpOp.neq = refl

pub map_op_type-or : map_op_type "||" ≡ ok or
unfolding map_op_type
map_op_type-or = refl

pub map_op_type-and : map_op_type "&&" ≡ ok and
unfolding map_op_type
map_op_type-and = refl

pub create_bool-text : (p : Position) (b : Bool) → create_bool p (bool_text b) ≡ ok (bool_node p b)
unfolding create_bool
create_bool-text p true = refl
create_bool-text p false = refl

but_last-append : (s : String) (c : Char) → but_last (String.◌++◌ s (String.◌∷◌ c String.[])) ≡ s
unfolding but_last
but_last-append String.[] c = rw (nil-append (String.◌∷◌ c String.[])) refl
but_last-append (String.◌∷◌ d String.[]) c =
    rw (cons-append d String.[] (String.◌∷◌ c String.[]), nil-append (String.◌∷◌ c String.[])) refl
but_last-append (String.◌∷◌ d (String.◌∷◌ e s)) c =
    let ih = but_last-append (String.◌∷◌ e s) c in
    rw
      (
        cons-append d (String.◌∷◌ e s) (String.◌∷◌ c String.[]),
        cons-append e s (String.◌∷◌ c String.[]),
      )
      (ap (λ x. String.◌∷◌ d x) (rw (cons-append e s (String.◌∷◌ c String.[])) at ih))

pub unquote-quoted : (s : String) → unquote (quoted s) ≡ s
unfolding unquote
unquote-quoted s =
    rw (cons-append "\"" String.[] (String.◌++◌ s "\""), nil-append (String.◌++◌ s "\""))
      (but_last-append s "\"")

-- the type that is written as a scalar type with `[]` behind it
abbrev pub scalar_kind : ScalarType → TypeKind
scalar_kind int = TypeKind.int
scalar_kind string = TypeKind.string
scalar_kind char = TypeKind.char
scalar_kind bool = TypeKind.bool

abbrev pub declared_type : TypeContext → Ty
declared_type c = record { types = replicate c.nested arr ++ scalar_kind c.scalar ∷ []; pos = 0 }

replicate-append : (n : ℕ) (s : String) → replicate n s ++ s ∷ [] ≡ s ∷ replicate n s
replicate-append zero s = refl
replicate-append (suc n) s = ap (λ l. s ∷ l) (replicate-append n s)

reverse-replicate : (n : ℕ) (s : String) → reverse (replicate n s) ≡ replicate n s
reverse-replicate zero s = refl
reverse-replicate (suc n) s =
    reverse-cons s (replicate n s)
    ∙ ap (λ l. l ++ s ∷ []) (reverse-replicate n s)
    ∙ replicate-append n s

map_types-nested :
    (n : ℕ) (k : ScalarType)
    → map_types (replicate n "[]" ++ scalar_text k ∷ [])
      ≡ ok (replicate n arr ++ scalar_kind k ∷ [])
unfolding map_types map_type
map_types-nested zero int = refl
map_types-nested zero string = refl
map_types-nested zero char = refl
map_types-nested zero bool = refl
map_types-nested (suc n) k = rw (map_types-nested n k) refl

pub visit_type-declared : (c : TypeContext) → visit_type c ≡ ok (declared_type c)
unfolding visit_type create
visit_type-declared c =
    rw
      (
        reverse-append (scalar_text c.scalar ∷ []) (replicate c.nested "[]"),
        reverse-replicate c.nested "[]",
        map_types-nested c.nested c.scalar,
      )
      refl
