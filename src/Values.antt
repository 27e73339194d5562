-- ===== src/Values.antt =====
-- src/Symbol.h and src/Symbol.cpp: the values of the inputs of one test. A part of a value is drawn from
-- std::rand when it is first needed and kept until the test is over.
pub mod Range
pub mod Shape
pub mod Size
pub mod Text
pub mod Serialize
pub mod Memory
pub mod Access
pub mod Again
use d_gen.Prelude.{
  ℕ, zero, suc, ◌+◌, ◌-◌, ◌%◌, ◌^◌, Bool, true, false, Option, none, some, String, ℤ, pos, negsuc,
  ltb, ◌==◌, if◌then◌else◌,
}
use d_gen.Prelude.{text_append, set_last}
use d_gen.Errors.{Outcome, ok, crash, ◌>>=◌}
use d_gen.Types.{TypeKind, Ty, int, string, char, bool, arr, invalid, get_current_type, drop_type}

-- The subclasses of Symbol with the fields that change: `num`, `ch`, `val`, `inited_size` and `arr`. A
-- StringSym is an ArraySym too. `null_sym` is a null pointer. An `inited_size` is no negative number:
-- `init_arr` throws std::length_error at one.
mutual
  pub data Val : Type 0 where
    null_sym : Val
    number_sym : Option ℤ → Val
    char_sym : Option ℤ → Val
    bool_sym : Option Bool → Val
    array_sym string_sym : Ty → Option ℕ → Vals → Val

  pub data Vals : Type 0 where
    nil : Vals
    cons : Val → Vals → Vals

-- What the C++ library writes for a number (std::to_string) and for a character (operator+=).
pub record Texts : Type 0 where
  pub number : ℤ → String
  pub character : ℤ → String

-- Symbol::create_symbol, for the fields above
unfoldable pub fresh_of : Ty → TypeKind → Val
fresh_of t int = number_sym none
fresh_of t string = string_sym t none nil
fresh_of t char = char_sym none
fresh_of t bool = bool_sym none
fresh_of t arr = array_sym t none nil
fresh_of t invalid = null_sym

unfoldable pub fresh : Ty → Val
fresh t = fresh_of t (get_current_type t)

-- the loop of ArraySym::init_arr
unfoldable pub elements : ℕ → Val → Vals
elements zero v = nil
elements (suc n) v = cons v (elements n v)

unfoldable pub get_pointed_type_elem : Ty → Val
get_pointed_type_elem t = fresh (drop_type t)

unfoldable pub init_arr : Ty → ℕ → Vals
init_arr t size = elements size (get_pointed_type_elem t)

-- The signed number with the remainder `r` modulo `w`: `r`, less `w` from `w / 2` on.
unfoldable pub of_remainder : ℕ → ℕ → ℤ
of_remainder w r = if ltb (r + r) w then pos r else negsuc (w - 1 - r)

-- The conversion of a number to a signed type with `w` values.
unfoldable pub to_signed : ℕ → ℤ → ℤ
to_signed w (pos n) = of_remainder w (n % w)
to_signed w (negsuc n) = of_remainder w (w - 1 - n % w)

-- `z % w` on int64_t, with the sign of `z`
unfoldable pub rem : ℤ → ℕ → ℤ
rem (pos n) w = pos (n % w)
rem (negsuc n) w = let r = (n + 1) % w in if r == 0 then pos 0 else negsuc (r - 1)

-- What the model of the solver says of an input: a numeral or a truth value.
pub data Numeral : Type 0 where
  int64 : ℤ → Numeral
  truth : Bool → Numeral

-- `arr.reserve(size)` throws std::length_error at a negative size, and nothing catches that.
unfoldable pub as_size : ℤ → Outcome ℕ
as_size z = elim (to_signed (2 ^ 32) z) [ pos size ↦ ok size | negsuc _ ↦ crash ]

-- Whether get_numeral_int64 can give the numeral. It throws at any other.
unfoldable pub fits_int64 : ℤ → Bool
fits_int64 (pos n) = ltb n (2 ^ 63)
fits_int64 (negsuc n) = ltb n (2 ^ 63)

-- Symbol::fill_val and its overrides, with get_numeral_int64. A numeral that does not fit in an int64_t
-- or is of the wrong sort is an exception of the Z3 library, which is not caught here: `crash`.
unfoldable pub fill_val : Val → Numeral → Outcome Val
fill_val (number_sym _) (int64 z) =
    if fits_int64 z then ok (number_sym (some (to_signed (2 ^ 32) z))) else crash
fill_val (char_sym _) (int64 z) =
    if fits_int64 z then ok (char_sym (some (to_signed (2 ^ 8) (rem z 256)))) else crash
fill_val (bool_sym _) (truth b) = ok (bool_sym (some b))
fill_val (array_sym t _ _) (int64 z) =
    if fits_int64 z
    then (do size ← as_size z; ok (array_sym t (some size) (init_arr t size)))
    else crash
fill_val (string_sym t _ _) (int64 z) =
    if fits_int64 z
    then (do size ← as_size z; ok (string_sym t (some size) (init_arr t size)))
    else crash
fill_val _ _ = crash

unfoldable pub has_val : Val → Bool
has_val (number_sym (some _)) = true
has_val (char_sym (some _)) = true
has_val (bool_sym (some _)) = true
has_val _ = false

unfoldable pub reset_val : Val → Val
reset_val null_sym = null_sym
reset_val (number_sym _) = number_sym none
reset_val (char_sym _) = char_sym none
reset_val (bool_sym _) = bool_sym none
reset_val (array_sym t _ _) = array_sym t none nil
reset_val (string_sym t _ _) = string_sym t none nil

-- `rand i` is the result of the i-th call of std::rand, which is no negative number; the number `n` of
-- calls so far is threaded through.
module _ (rand : ℕ → ℕ) where
  unfoldable pub num_rand_gen : Option ℤ → ℕ → ℤ × Option ℤ × ℕ
  num_rand_gen (some v) n = (v, some v, n)
  num_rand_gen none n = let v = pos (rand n % 200) in (v, some v, n + 1)

  unfoldable pub char_rand_gen : Option ℤ → ℕ → ℤ × Option ℤ × ℕ
  char_rand_gen (some c) n = (c, some c, n)
  char_rand_gen none n = let c = pos (b'a' + rand n % (b'z' - b'a')) in (c, some c, n + 1)

  unfoldable pub bool_rand_gen : Option Bool → ℕ → Bool × Option Bool × ℕ
  bool_rand_gen (some b) n = (b, some b, n)
  bool_rand_gen none n = let b = rand n % 2 == 1 in (b, some b, n + 1)

  -- ArraySym::get_size, with the elements
  unfoldable pub get_size : Ty → Option ℕ → Vals → ℕ → ℕ × Vals × ℕ
  get_size t (some size) vs n = (size, vs, n)
  get_size t none vs n = let size = rand n % 10 in (size, init_arr t size, n + 1)

module _ (rand : ℕ → ℕ) (texts : Texts) where
  -- the loop of ArraySym::serialize; `f` serializes an element
  unfoldable pub serialize_all :
      (Val → ℕ → Outcome (String × Val × ℕ)) → String → Vals → ℕ → Outcome (String × Vals × ℕ)
  serialize_all f tmp nil n = ok (tmp, nil, n)
  serialize_all f tmp (cons v vs) n = do
    (s, w, m) ← f v n
    (tmp', ws, k) ← serialize_all f (text_append tmp (text_append s ",")) vs m
    ok (tmp', cons w ws, k)

  -- the loop of StringSym::serialize; an element that is no CharSym is a null pointer there
  unfoldable pub serialize_chars : String → Vals → ℕ → Outcome (String × Vals × ℕ)
  serialize_chars tmp nil n = ok (tmp, nil, n)
  serialize_chars tmp (cons (char_sym ch) vs) n = do
    let (c, ch', m) = char_rand_gen rand ch n
    (tmp', ws, k) ← serialize_chars (text_append tmp (texts.character c)) vs m
    ok (tmp', cons (char_sym ch') ws, k)
  serialize_chars tmp (cons _ vs) n = crash

  -- Symbol::serialize and its overrides, with the fuel first: the depth of the nested arrays.
  unfoldable pub serialize : ℕ → Val → ℕ → Outcome (String × Val × ℕ)
  serialize zero v n = crash
  serialize (suc k) null_sym n = crash
  serialize (suc k) (number_sym num) n =
      let (v, num', m) = num_rand_gen rand num n in ok (texts.number v, number_sym num', m)
  serialize (suc k) (char_sym ch) n =
      let (c, ch', m) = char_rand_gen rand ch n in ok (texts.number c, char_sym ch', m)
  serialize (suc k) (bool_sym val) n =
      let (b, val', m) = bool_rand_gen rand val n in
      ok (if b then "true" else "false", bool_sym val', m)
  serialize (suc k) (array_sym t size vs) n = do
    let (size', vs', m) = get_size rand t size vs n
    (tmp, ws, m') ← serialize_all (serialize k) "[" vs' m
    ok (set_last "]" tmp, array_sym t (some size') ws, m')
  serialize (suc k) (string_sym t size vs) n = do
    let (size', vs', m) = get_size rand t size vs n
    (tmp, ws, m') ← serialize_chars "\"" vs' m
    ok (text_append tmp "\"", string_sym t (some size') ws, m')
