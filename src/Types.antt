-- ===== src/Types.antt =====
-- src/type.h and src/type.cpp: the types of the language. A `Type` is a vector of kinds, outermost
-- first, and a position in it: what stands before the position has been dropped.
pub mod View
pub mod Convert
pub mod Names
use d_gen.Prelude.{
  ℕ, zero, suc, ◌+◌, Bool, true, false, not, ◌&&◌, ◌||◌, List, [], ◌∷◌, reverse, String, concat,
  str_eq, length, get_or, drop, ℤ, pos, pos_part, sub_ℕ, ltb_ℤ, eqb_ℤ, leb, if◌then◌else◌,
}
use d_gen.Errors.{Outcome, ok, crash, ◌>>=◌}

pub data TypeKind : Type 0 where
  int string char bool arr invalid : TypeKind

-- `==` on the enumeration
abbrev pub kind_eq : TypeKind → TypeKind → Bool
kind_eq int int = true
kind_eq string string = true
kind_eq char char = true
kind_eq bool bool = true
kind_eq arr arr = true
kind_eq invalid invalid = true
kind_eq _ _ = false

pub record Ty : Type 0 where
  pub types : List TypeKind
  pub pos : ℕ

-- Type(TypeKind type)
abbrev pub of_kind : TypeKind → Ty
of_kind k = record { types = k ∷ []; pos = 0 }

-- (int)types->size() - pos
unfoldable pub type_length : Ty → ℤ
type_length t = sub_ℕ (length t.types) t.pos

-- `types->at(i)`; every call below has `i` in range
abbrev pub kind_at : Ty → ℕ → TypeKind
kind_at t i = get_or t.types i invalid

unfoldable pub get_current_type : Ty → TypeKind
get_current_type t = if leb (length t.types) t.pos then invalid else kind_at t t.pos

-- operator==(const TypeKind &)
unfoldable pub eq_kind : Ty → TypeKind → Bool
eq_kind t k = if ltb_ℤ (pos 1) (type_length t) then false else kind_eq (get_current_type t) k

-- `eq_from n i` is the loop of operator==(const Type &) at index `i`, with `n` rounds left.
unfoldable pub eq_from : ℕ → ℕ → Ty → Ty → Bool
eq_from zero i s t = true
eq_from (suc n) i s t =
    if not (kind_eq (kind_at s (i + s.pos)) (kind_at t (i + t.pos)))
    then false
    else eq_from n (i + 1) s t

-- operator==(const Type &)
unfoldable pub eq_type : Ty → Ty → Bool
eq_type s t =
    if not (eqb_ℤ (type_length s) (type_length t))
    then false
    else eq_from (pos_part (type_length s)) 0 s t

unfoldable pub drop_type : Ty → Ty
drop_type t = if eq_kind t string then of_kind char else record t { pos = t.pos + 1 }

unfoldable pub type_is_numerical : TypeKind → Bool
type_is_numerical k = kind_eq k char || kind_eq k int

unfoldable pub is_scalar : Ty → Bool
is_scalar t = eqb_ℤ (type_length t) (pos 1) && not (eq_kind t string)

unfoldable pub is_numerical : Ty → Bool
is_numerical t = is_scalar t && type_is_numerical (get_current_type t)

unfoldable pub is_string : Ty → Bool
is_string t =
    eqb_ℤ (type_length t) (pos 1) && kind_eq (get_current_type t) string
    || eqb_ℤ (type_length t) (pos 2)
      && kind_eq (get_current_type t) arr
      && eq_kind (drop_type t) char

unfoldable pub is_convertable_to : Ty → Ty → Bool
is_convertable_to t other =
    eq_type t other || is_numerical t && is_numerical other || is_string t && is_string other

-- A text that is no type fails an ASSERT.
unfoldable pub map_type : String → Outcome TypeKind
map_type s =
    if str_eq s "int"
    then ok int
    else if str_eq s "string"
    then ok string
    else if str_eq s "char"
    then ok char
    else if str_eq s "bool"
    then ok bool
    else if str_eq s "[]"
    then ok arr
    else crash

-- the loop of Type::create over the reversed tokens
unfoldable pub map_types : List String → Outcome (List TypeKind)
map_types [] = ok []
map_types (s ∷ ss) = do k ← map_type s; ks ← map_types ss; ok (k ∷ ks)

-- Type::create; the tokens by their texts
unfoldable pub create : List String → Outcome Ty
create tokens = do ks ← map_types (reverse tokens); ok (record { types = ks; pos = 0 })

unfoldable pub kind_text : TypeKind → String
kind_text int = "int"
kind_text string = "string"
kind_text char = "char"
kind_text bool = "bool"
kind_text arr = "[]"
kind_text invalid = "invalid"

unfoldable pub kinds_text : List TypeKind → List String
kinds_text [] = []
kinds_text (k ∷ ks) = kind_text k ∷ kinds_text ks

unfoldable pub to_string : Ty → String
to_string t =
    let str = concat (kinds_text (drop t.pos t.types)) in if str_eq str "" then "invalid" else str
