-- ===== src/Solve/Meaning.antt =====
-- What the expressions of a condition mean on the values that the inputs have (the conditions that
-- src/CodegenZ3Visitor.cpp translates), and what the Z3 library says of its operations and of a model.
use d_gen.Prelude.{
  ℕ, suc, ◌+◌, ◌*◌, ◌/◌, ◌^◌, ◌≡◌, Bool, true, not, ◌&&◌, ◌||◌, Option, none, some, List, [], ◌∷◌,
  ℤ, pos, negsuc, pos_part, neg_part, sub_ℕ, ltb_ℤ, eqb_ℤ, if◌then◌else◌,
}
use d_gen.Errors.{Position, Outcome, ok, err, crash}
use d_gen.Types.{Ty, TypeKind, int, string, char, bool, arr, get_current_type}
use d_gen.Ast.{
  Symbol, IdentNode, Expr, char_node, string_node, number_node, bool_node, ident_node, bin_op_node,
  arr_lookup_node, arr_create_node, property_lookup_node, Exprs, BinOpType, sum, sub, or, lt, le,
  gt, ge, eq, neq, mul, div, and,
}
use d_gen.Ast.Typing.{arr_lookup_type}
use d_gen.Values.{Val, Numeral, int64, truth, to_signed}
use d_gen.Solve.Setting.{Z3, Running}
use d_gen.Solve.Sight.{Sight, known, see}

abbrev pub opposite : ℤ → ℤ
opposite a = sub_ℕ (neg_part a) (pos_part a)

-- The quotient of SMT-LIB: the remainder is never negative. `by_zero` is its value at a divisor of 0,
-- which each model fixes for itself.
abbrev pub quotient : (ℤ → ℤ) → ℤ → ℤ → ℤ
quotient by_zero a (pos ℕ.zero) = by_zero a
quotient by_zero (pos m) (pos (suc d)) = pos (m / suc d)
quotient by_zero (negsuc m) (pos (suc d)) = negsuc (m / suc d)
quotient by_zero (pos m) (negsuc d) = opposite (pos (m / suc d))
quotient by_zero (negsuc m) (negsuc d) = opposite (negsuc (m / suc d))

abbrev pub arithmetic : (ℤ → ℤ) → BinOpType → ℤ → ℤ → Option Numeral
arithmetic by_zero sum a b =
    some (int64 (sub_ℕ (pos_part a + pos_part b) (neg_part a + neg_part b)))
arithmetic by_zero sub a b =
    some (int64 (sub_ℕ (pos_part a + neg_part b) (neg_part a + pos_part b)))
arithmetic by_zero mul a b = some (
    int64 (
      sub_ℕ (pos_part a * pos_part b + neg_part a * neg_part b)
        (pos_part a * neg_part b + neg_part a * pos_part b)))
arithmetic by_zero div a b = some (int64 (quotient by_zero a b))
arithmetic by_zero lt a b = some (truth (ltb_ℤ a b))
arithmetic by_zero le a b = some (truth (not (ltb_ℤ b a)))
arithmetic by_zero gt a b = some (truth (ltb_ℤ b a))
arithmetic by_zero ge a b = some (truth (not (ltb_ℤ a b)))
arithmetic by_zero eq a b = some (truth (eqb_ℤ a b))
arithmetic by_zero neq a b = some (truth (not (eqb_ℤ a b)))
arithmetic by_zero or a b = none
arithmetic by_zero and a b = none

abbrev pub logic : BinOpType → Bool → Bool → Option Numeral
logic or a b = some (truth (a || b))
logic and a b = some (truth (a && b))
logic eq a b = some (truth (if a then b else not b))
logic neq a b = some (truth (if a then not b else b))
logic _ a b = none

-- The meaning of an operation on integers without bounds.
abbrev pub apply : (ℤ → ℤ) → BinOpType → Numeral → Numeral → Option Numeral
apply by_zero o (int64 a) (int64 b) = arithmetic by_zero o a b
apply by_zero o (truth a) (truth b) = logic o a b
apply by_zero o _ _ = none

abbrev pub apply? : (ℤ → ℤ) → BinOpType → Option Numeral → Option Numeral → Option Numeral
apply? by_zero o (some a) (some b) = apply by_zero o a b
apply? by_zero o _ _ = none

abbrev pub known_of : Option Sight → Option Numeral
known_of (some (known x)) = some x
known_of _ = none

-- The value of an expression: of the inputs in the store `st`, of the local variables in the memory of
-- the running program. The length of an array is the value of its name.
module _ (by_zero : ℤ → ℤ) (env : Running) (st : ℕ → Val) where
  abbrev pub cell : ℕ → TypeKind → Option Numeral
  cell p int = some (int64 (env.int32_at p))
  cell p char = some (int64 (env.int8_at p))
  cell p bool = some (truth (not (eqb_ℤ (env.int8_at p) (pos 0))))
  cell p _ = none

  abbrev pub local_size : ℕ → TypeKind → Option Numeral
  local_size p arr = some (int64 (pos (env.size_at p)))
  local_size p string = some (int64 (pos (env.size_at p)))
  local_size p _ = none

  abbrev pub value_ident : Symbol → Option Numeral
  value_ident sym =
      if sym.is_input
      then known_of (see [] (st sym.addr))
      else cell (env.alloca sym.addr) (get_current_type sym.type)

  abbrev pub value_typed : ℕ → Outcome Ty → Option Numeral
  value_typed p (ok t) = cell p (get_current_type t)
  value_typed p (err _) = none
  value_typed p crash = none

  abbrev pub value_element : Position → IdentNode → Exprs → Symbol → Option Numeral
  value_element p i es sym =
      if sym.is_input
      then known_of (see (env.current_idxs p i es) (st sym.addr))
      else value_typed (env.current_ptr p i es) (arr_lookup_type p i es)

  abbrev pub value_len : Symbol → Option Numeral
  value_len sym =
      if sym.is_input
      then known_of (see [] (st sym.addr))
      else local_size (env.alloca sym.addr) (get_current_type sym.type)

  abbrev pub value : Expr → Option Numeral
  value (char_node _ c) = some (int64 (to_signed (2 ^ 8) (pos c)))
  value (string_node _ _) = none
  value (number_node _ n) = some (int64 n)
  value (bool_node _ b) = some (truth b)
  value (ident_node i) = elim i.symbol [ none ↦ none | some sym ↦ value_ident sym ]
  value (bin_op_node _ o a b) = apply? by_zero o (value a) (value b)
  value (arr_lookup_node p i es) = elim i.symbol [
    | none ↦ none
    | some sym ↦ value_element p i es sym
  ]
  value (arr_create_node _ _ _) = none
  value (property_lookup_node _ i _) = elim i.symbol [ none ↦ none | some sym ↦ value_len sym ]

-- An evaluation of expressions that respects the constants and the operations.
abbrev pub Respects :
    {E : Type 0} → (ℤ → ℤ) → (E → Numeral) → BinOpType → (E → E → Option E) → Type 0
Respects {E} by_zero eval o f =
    (a b c : E) → f a b ≡ some c → apply by_zero o (eval a) (eval b) ≡ some (eval c)

pub record Model {E : Type 0} (z : Z3 E) (eval : E → Numeral) : Type 0 where
  pub by_zero : ℤ → ℤ
  pub int_vals : (v : ℤ) → eval (z.int_val v) ≡ int64 v
  pub bool_vals : (b : Bool) → eval (z.bool_val b) ≡ truth b
  pub sums : Respects by_zero eval sum z.plus
  pub differences : Respects by_zero eval sub z.minus
  pub products : Respects by_zero eval mul z.times
  pub quotients : Respects by_zero eval div z.divided
  pub less : Respects by_zero eval lt z.less
  pub less_eq : Respects by_zero eval le z.less_eq
  pub greater : Respects by_zero eval gt z.greater
  pub greater_eq : Respects by_zero eval ge z.greater_eq
  pub equal : Respects by_zero eval eq z.equal
  pub distinct : Respects by_zero eval neq z.distinct
  pub either : Respects by_zero eval or z.either
  pub both : Respects by_zero eval and z.both
  pub negations :
      (a c : E) (b : Bool) → z.negated a ≡ some c → eval c ≡ truth b → eval a ≡ truth (not b)

abbrev pub AllTrue : {E : Type 0} → (E → Numeral) → List E → Type 0
AllTrue eval [] = Unit
AllTrue eval (f ∷ fs) = (eval f ≡ truth true) × AllTrue eval fs

-- What the library documents of `check`: an answer `sat` comes with a model of the assertions.
pub record Sound {E : Type 0} (z : Z3 E) : Type 0 where
  pub model :
      (seed : ℕ) (fs : List E) (eval : E → Numeral) → z.check seed fs ≡ some eval → Model z eval
  pub holds :
      (seed : ℕ) (fs : List E) (eval : E → Numeral) → z.check seed fs ≡ some eval → AllTrue eval fs
