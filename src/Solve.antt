-- ===== src/Solve.antt =====
-- src/CodegenZ3Visitor.cpp, with Symbol::get_expr and its overrides (src/Symbol.cpp): a condition becomes
-- an expression of the Z3 library, the solver looks for values that meet it, and the symbols that have
-- none get them. Z3 is the parameter `z`, the running program the parameter `env`.
pub mod Setting
pub mod Run
pub mod Prepare
pub mod Sight
pub mod Meaning
pub mod Gather
pub mod Fill
pub mod Holds
pub mod Start
use native.Mathlib.Decide.{ℕ_discrete}
use mathlib.Core.Logic.{ite}
use d_gen.Prelude.{
  ℕ, zero, suc, ◌+◌, ◌%◌, ◌^◌, Bool, true, false, Option, none, some, List, [], ◌∷◌, ◌++◌, String,
  ℤ, pos, negsuc, ltb, ltb_ℤ, eqb_ℤ, ◌==◌, if◌then◌else◌, get_elem?, text_append, length,
}
use d_gen.Errors.{Position, Outcome, ok, err, crash}
use d_gen.Types.{Ty, TypeKind, int, string, char, bool, arr, invalid, get_current_type}
use d_gen.Ast.{
  Symbol, IdentNode, Expr, char_node, string_node, number_node, bool_node, ident_node, bin_op_node,
  arr_lookup_node, arr_create_node, property_lookup_node, Exprs, BinOpType, sum, sub, or, lt, le,
  gt, ge, eq, neq, mul, div, and, PrecondNode,
}
use d_gen.Ast.Typing.{arr_lookup_type}
use d_gen.Values.{
  Val, Vals, null_sym, number_sym, char_sym, bool_sym, array_sym, string_sym, Numeral, int64, truth,
  fill_val, has_val, to_signed,
}
use d_gen.Values.Access.{Accessed, at_idxs}
use d_gen.Solve.Setting.{
  Z3, Running, Result, done, thrown, crashed, ◌>>=◌, or_throw, of_access, Ref, eq_idxs, eq_ref,
  insert_sym, State, write,
}

module _ {E : Type 0} (z : Z3 E) where
  -- Symbol::get_expr and its overrides, at a symbol with this name
  unfoldable pub get_expr : String → Val → Result E
  get_expr name (number_sym none) = done (z.int_const name)
  get_expr name (number_sym (some v)) = done (z.int_val v)
  get_expr name (char_sym none) = done (z.int_const name)
  get_expr name (char_sym (some v)) = done (z.int_val v)
  get_expr name (bool_sym none) = done (z.bool_const name)
  get_expr name (bool_sym (some b)) = done (z.bool_val b)
  get_expr name (array_sym _ _ _) = thrown
  get_expr name (string_sym _ _ _) = thrown
  get_expr name null_sym = crashed

  -- `syms_to_expr_id[sym] = exprs.size(); exprs.push_back(expr);`
  unfoldable pub push_expr : Ref → E → State E → State E
  push_expr r t s = record s {
    exprs = s.exprs ++ t ∷ [];
    syms = insert_sym r (length s.exprs) s.syms;
  }

  -- get_expr_from_void
  unfoldable pub get_expr_from_void : Running → ℕ → TypeKind → Result E
  get_expr_from_void env p int = done (z.int_val (env.int32_at p))
  get_expr_from_void env p char = done (z.int_val (env.int8_at p))
  get_expr_from_void env p bool =
      done (z.bool_val (if eqb_ℤ (env.int8_at p) (pos 0) then false else true))
  get_expr_from_void env p _ = thrown

  -- the switch of gen_expr(BinOpNode *)
  unfoldable pub operation : BinOpType → E → E → Option E
  operation sum = z.plus
  operation sub = z.minus
  operation or = z.either
  operation lt = z.less
  operation le = z.less_eq
  operation gt = z.greater
  operation ge = z.greater_eq
  operation eq = z.equal
  operation neq = z.distinct
  operation mul = z.times
  operation div = z.divided
  operation and = z.both

-- The name that gen_expr(ArrLookupNode *) gives the element; `number` is std::to_string.
unfoldable pub idxs_text : (ℤ → String) → String → List ℤ → String
idxs_text number name [] = name
idxs_text number name (i ∷ is) = idxs_text number (text_append name (text_append (number i) "_")) is

abbrev pub element_name : (ℤ → String) → String → List ℤ → String
element_name number name is = idxs_text number (text_append "__arr_" name) is

abbrev pub read : Val → ℕ → Accessed Val Val
read v n = ok (some (v, v, n))

-- `has_val` decides whether the symbol is registered.
abbrev pub keep_expr : {E : Type 0} → Z3 E → Ref → Bool → E → State E → State E
keep_expr z r given t s = if given then s else push_expr z r t s

module _ {E : Type 0} (z : Z3 E) (rand : ℕ → ℕ) (number : ℤ → String) (env : Running) where
  -- gen_expr(IdentNode *), with the symbol that the node points to
  unfoldable pub gen_symbol : Symbol → State E → Result (E × State E)
  gen_symbol sym s =
      if sym.is_input
      then (do
        let v = s.store sym.addr
        t ← get_expr z sym.name v
        done (t, keep_expr z (record { input = sym.addr; idxs = [] }) (has_val v) t s))
      else (do
        t ← get_expr_from_void z env (env.alloca sym.addr) (get_current_type sym.type)
        done (t, s))

  -- gen_expr(ArrLookupNode *) at an input, with the node's `current_idxs`; without one the loop of
  -- get_symbol_by_idxs leaves the vector.
  unfoldable pub gen_element : Symbol → List ℤ → State E → Result (E × State E)
  gen_element sym [] s = crashed
  gen_element sym (i ∷ is) s = do
    (v, w, n) ← of_access (at_idxs rand read (i ∷ is) (s.store sym.addr) s.calls)
    t ← get_expr z (element_name number sym.name (i ∷ is)) v
    let r : Ref = record { input = sym.addr; idxs = i ∷ is }
    let s' : State E = record s { store = write sym.addr w s.store; calls = n }
    done (t, keep_expr z r (has_val v) t s')

  -- the element of a local variable, by the type of the node
  unfoldable pub gen_typed : ℕ → Outcome Ty → State E → Result (E × State E)
  gen_typed p (ok t) s = do e ← get_expr_from_void z env p (get_current_type t); done (e, s)
  gen_typed p (err _) s = crashed
  gen_typed p crash s = crashed

  unfoldable pub gen_arr_lookup :
      Position → IdentNode → Exprs → Symbol → State E → Result (E × State E)
  gen_arr_lookup p i es sym s =
      if sym.is_input
      then gen_element sym (env.current_idxs p i es) s
      else gen_typed (env.current_ptr p i es) (arr_lookup_type p i es) s

  -- gen_expr(PropertyLookupNode *): at an input, by its value; a symbol that is no array is a null
  -- pointer after the cast.
  unfoldable pub gen_len : Symbol → Val → State E → Result (E × State E)
  gen_len sym (array_sym _ (some n) _) s = done (z.int_val (pos n), s)
  gen_len sym (string_sym _ (some n) _) s = done (z.int_val (pos n), s)
  gen_len sym (array_sym _ none _) s =
      let t = z.int_const (text_append sym.name ".len") in
      done (t, push_expr z (record { input = sym.addr; idxs = [] }) t s)
  gen_len sym (string_sym _ none _) s =
      let t = z.int_const (text_append sym.name ".len") in
      done (t, push_expr z (record { input = sym.addr; idxs = [] }) t s)
  gen_len sym _ s = crashed

  unfoldable pub local_len : Symbol → TypeKind → State E → Result (E × State E)
  local_len sym arr s = done (z.int_val (pos (env.size_at (env.alloca sym.addr))), s)
  local_len sym string s = done (z.int_val (pos (env.size_at (env.alloca sym.addr))), s)
  local_len sym _ s = crashed

  unfoldable pub gen_property : Symbol → State E → Result (E × State E)
  gen_property sym s =
      if sym.is_input
      then gen_len sym (s.store sym.addr) s
      else local_len sym (get_current_type sym.type) s

  -- the virtual ASTNode::gen_expr, which throws at a node that has no override
  unfoldable pub gen_expr : Expr → State E → Result (E × State E)
  gen_expr (char_node _ c) s = done (z.int_val (to_signed (2 ^ 8) (pos c)), s)
  gen_expr (string_node _ _) s = thrown
  gen_expr (number_node _ n) s = done (z.int_val n, s)
  gen_expr (bool_node _ b) s = done (z.bool_val b, s)
  gen_expr (ident_node i) s = elim i.symbol [ none ↦ crashed | some sym ↦ gen_symbol sym s ]
  gen_expr (bin_op_node _ o a b) s = do
    (lhs, s1) ← gen_expr a s
    (rhs, s2) ← gen_expr b s1
    t ← or_throw (operation z o lhs rhs)
    done (t, s2)
  gen_expr (arr_lookup_node p i es) s = elim i.symbol [
    | none ↦ crashed
    | some sym ↦ gen_arr_lookup p i es sym s
  ]
  gen_expr (arr_create_node _ _ _) s = thrown
  gen_expr (property_lookup_node _ i _) s = elim i.symbol [
    | none ↦ crashed
    | some sym ↦ gen_property sym s
  ]
