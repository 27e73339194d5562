-- ===== src/Solve/Setting.antt =====
-- The fields of CodegenZ3Visitor (src/CodegenZ3Visitor.h) that a run of start_z3_gen works on, how it may
-- end, and its parameters: the Z3 library and the running program.
use d_gen.Prelude.{
  ℕ, Bool, true, false, Option, none, some, List, [], ◌∷◌, String, ℤ, eqb_ℤ, ◌==◌, if◌then◌else◌,
}
use d_gen.Errors.{Position, Outcome, ok, err, crash}
use d_gen.Ast.{IdentNode, Exprs}
use d_gen.Values.{Val, Numeral}

-- What the visitor calls of z3++. An operation is `none` at arguments of the wrong sort, where it throws
-- a z3::exception. `check seed fs` is `none` if the solver does not answer sat, and else the evaluation
-- by its model.
pub record Z3 (E : Type 0) : Type 0 where
  pub int_val : ℤ → E
  pub bool_val : Bool → E
  pub int_const : String → E
  pub bool_const : String → E
  pub plus : E → E → Option E
  pub minus : E → E → Option E
  pub times : E → E → Option E
  pub divided : E → E → Option E
  pub less : E → E → Option E
  pub less_eq : E → E → Option E
  pub greater : E → E → Option E
  pub greater_eq : E → E → Option E
  pub equal : E → E → Option E
  pub distinct : E → E → Option E
  pub either : E → E → Option E
  pub both : E → E → Option E
  pub negated : E → Option E
  pub is_bool : E → Bool
  pub check : ℕ → List E → Option (E → Numeral)

-- What the emitted code has stored before it calls z3_gen, and the memory that it works on: the fields
-- `current_idxs` and `current_ptr` of an ArrLookupNode, the field `addr` of the symbol with a given
-- address, the number read at a pointer, and `allocated_vals[*p].size`.
pub record Running : Type 0 where
  pub current_idxs : Position → IdentNode → Exprs → List ℤ
  pub current_ptr : Position → IdentNode → Exprs → ℕ
  pub alloca : ℕ → ℕ
  pub int32_at : ℕ → ℤ
  pub int8_at : ℕ → ℤ
  pub size_at : ℕ → ℕ

-- `thrown` is a std::runtime_error or a z3::exception.
pub data Result (A : Type 0) : Type 0 where
  done : A → Result A
  thrown crashed : Result A

infixl 5 ◌>>=◌
abbrev pub ◌>>=◌ : {A B : Type 0} → Result A → (A → Result B) → Result B
done a >>= rest = rest a
thrown >>= rest = thrown
crashed >>= rest = crashed

abbrev pub or_throw : {A : Type 0} → Option A → Result A
or_throw none = thrown
or_throw (some a) = done a

-- The access to an element throws "out of bounds" or returns.
abbrev pub of_access : {A : Type 0} → Outcome (Option A) → Result A
of_access (ok none) = thrown
of_access (ok (some a)) = done a
of_access (err _) = crashed
of_access crash = crashed

-- A Symbol* : the address of an input, and the indices of an element of it. No array is initialised
-- again between the look-up of an element and the filling, so the indices tell the elements apart.
pub record Ref : Type 0 where
  pub input : ℕ
  pub idxs : List ℤ

abbrev pub eq_idxs : List ℤ → List ℤ → Bool
eq_idxs [] [] = true
eq_idxs (i ∷ is) (j ∷ js) = if eqb_ℤ i j then eq_idxs is js else false
eq_idxs _ _ = false

abbrev pub eq_ref : Ref → Ref → Bool
eq_ref q r = if q.input == r.input then eq_idxs q.idxs r.idxs else false

-- syms_to_expr_id[r] = i
unfoldable pub insert_sym : Ref → ℕ → List (Ref × ℕ) → List (Ref × ℕ)
insert_sym r i [] = (r, i) ∷ []
insert_sym r i ((q, j) ∷ l) = if eq_ref q r then (r, i) ∷ l else (q, j) ∷ insert_sym r i l

-- The values of the inputs by the addresses of their symbols, the number of calls of std::rand, and the
-- fields `exprs` and `syms_to_expr_id` of the visitor.
pub record State (E : Type 0) : Type 0 where
  pub store : ℕ → Val
  pub calls : ℕ
  pub exprs : List E
  pub syms : List (Ref × ℕ)

abbrev pub write : ℕ → Val → (ℕ → Val) → ℕ → Val
write a v st b = if a == b then v else st b
