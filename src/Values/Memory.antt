-- ===== src/Values/Memory.antt =====
-- fill_dest and arr_rand_gen (src/Symbol.cpp), which copy a value to memory, and gather_rec (src/DGen.cpp),
-- which reads a result from there. A block of memory is told by the writes to it, each with its offset;
-- a read sees the last write that touches what it reads.
pub mod Result
pub mod Reads
pub mod Elements
pub mod Copy
use d_gen.Prelude.{
  ℕ, zero, suc, ◌+◌, ◌*◌, Bool, true, false, not, ◌&&◌, Option, none, some, String, ℤ, text_append,
  ltb, leb, ◌==◌, if◌then◌else◌,
}
use d_gen.Errors.{Outcome, ok, crash, ◌>>=◌}
use d_gen.Types.{TypeKind, int, string, char, bool, arr, invalid, Ty, get_current_type, drop_type}
use d_gen.Values.{
  Val, Vals, null_sym, number_sym, char_sym, bool_sym, array_sym, string_sym, nil, cons, Texts,
  fresh, get_pointed_type_elem, num_rand_gen, char_rand_gen, bool_rand_gen, get_size,
}

-- What a memcpy writes: a number, a character, a truth value, or a pointer that malloc has just
-- returned. The pointer is told by its block: the size in `allocated_vals`, the bytes that malloc was
-- called with, and the writes to it from the first on, each with its offset.
mutual
  pub data Dest : Type 0 where
    int32 int8 : ℤ → Dest
    truth8 : Bool → Dest
    block : ℕ → ℕ → Dests → Dest

  pub data Dests : Type 0 where
    none_left : Dests
    more : ℕ → Dest → Dests → Dests

-- sizeof of the variable `v` in fill_dest, with pointers of eight bytes
unfoldable pub sizeof : Dest → ℕ
sizeof (int32 _) = 4
sizeof (int8 _) = 1
sizeof (truth8 _) = 1
sizeof (block _ _ _) = 8

-- get_sizeof and its overrides
unfoldable pub get_sizeof : Val → Outcome ℕ
get_sizeof null_sym = crash
get_sizeof (number_sym _) = ok 4
get_sizeof (char_sym _) = ok 1
get_sizeof (bool_sym _) = ok 1
get_sizeof (array_sym _ _ _) = ok 8
get_sizeof (string_sym _ _ _) = ok 8

-- `memcpy(dest, &v, size)`: with another size than that of `v` it would copy a part of it, or more than it.
unfoldable pub memcpy : Dest → ℕ → Outcome Dest
memcpy d size = if size == sizeof d then ok d else crash

-- Whether the `w` bytes from `o` on and the `u` bytes from `p` on have one in common.
unfoldable pub overlaps : ℕ → ℕ → ℕ → ℕ → Bool
overlaps o w p u = ltb o (p + u) && ltb p (o + w)

unfoldable pub touches : ℕ → ℕ → Dests → Bool
touches o w none_left = false
touches o w (more p d ds) = if overlaps o w p (sizeof d) then true else touches o w ds

-- `w` bytes are read at the offset `o`: they are what was written there last. Bytes that were never
-- written, or that belong to several values or to a part of one, have no meaning.
unfoldable pub read_at : ℕ → ℕ → Dests → Outcome Dest
read_at o w none_left = crash
read_at o w (more p d ds) =
    let rest = read_at o w ds in
    if overlaps o w p (sizeof d) && not (touches o w ds)
    then if o == p && w == sizeof d then ok d else crash
    else rest

module _ (rand : ℕ → ℕ) where
  -- the loop of arr_rand_gen from `i` on, into a block of `bytes` bytes; `f` is fill_dest
  unfoldable pub fill_all :
      (Val → ℕ → Outcome (Dest × Val × ℕ)) → ℕ → ℕ → ℕ → Vals → ℕ → Outcome (Dests × Vals × ℕ)
  fill_all f pointed_sizeof bytes i nil n = ok (none_left, nil, n)
  fill_all f pointed_sizeof bytes i (cons v vs) n = do
    (d, w, m) ← f v n
    (ds, ws, k) ← fill_all f pointed_sizeof bytes (i + 1) vs m
    if leb (i * pointed_sizeof + sizeof d) bytes
        then ok (more (i * pointed_sizeof) d ds, cons w ws, k)
        else crash

  -- arr_rand_gen, where `make` builds the array again. malloc returns a block, and the product is not
  -- reduced to 32 bits.
  unfoldable pub arr_rand_gen :
      (Val → ℕ → Outcome (Dest × Val × ℕ))
      → Ty
      → Option ℕ
      → Vals
      → (ℕ → Vals → Val)
      → ℕ
      → Outcome (Dest × Val × ℕ)
  arr_rand_gen f t size vs make n = do
    let (size', us, m) = get_size rand t size vs n
    pointed_sizeof ← get_sizeof (get_pointed_type_elem t)
    let bytes = size' * pointed_sizeof
    (ds, ws, k) ← fill_all f pointed_sizeof bytes 0 us m
    ok (block size' bytes ds, make size' ws, k)

  -- fill_dest, with the fuel first: one more than the depth of the nested arrays. A null pointer is
  -- dereferenced by the call of get_sizeof.
  unfoldable pub fill_dest : ℕ → Val → ℕ → Outcome (Dest × Val × ℕ)
  fill_dest zero v n = crash
  fill_dest (suc k) null_sym n = crash
  fill_dest (suc k) (number_sym num) n = do
    pointed_sizeof ← get_sizeof (number_sym num)
    let (v, num', m) = num_rand_gen rand num n
    d ← memcpy (int32 v) pointed_sizeof
    ok (d, number_sym num', m)
  fill_dest (suc k) (bool_sym val) n = do
    pointed_sizeof ← get_sizeof (bool_sym val)
    let (b, val', m) = bool_rand_gen rand val n
    d ← memcpy (truth8 b) pointed_sizeof
    ok (d, bool_sym val', m)
  fill_dest (suc k) (char_sym ch) n = do
    pointed_sizeof ← get_sizeof (char_sym ch)
    let (c, ch', m) = char_rand_gen rand ch n
    d ← memcpy (int8 c) pointed_sizeof
    ok (d, char_sym ch', m)
  fill_dest (suc k) (array_sym t size vs) n = do
    pointed_sizeof ← get_sizeof (array_sym t size vs)
    (v, w, m) ← arr_rand_gen (fill_dest k) t size vs (λ s ws. array_sym t (some s) ws) n
    d ← memcpy v pointed_sizeof
    ok (d, w, m)
  fill_dest (suc k) (string_sym t size vs) n = do
    pointed_sizeof ← get_sizeof (string_sym t size vs)
    (v, w, m) ← arr_rand_gen (fill_dest k) t size vs (λ s ws. string_sym t (some s) ws) n
    d ← memcpy v pointed_sizeof
    ok (d, w, m)

module _ (texts : Texts) where
  -- std::string(str_ptr, size) from the byte `i` on
  unfoldable pub chars_of : Dests → ℕ → ℕ → Outcome String
  chars_of mem zero i = ok ""
  chars_of mem (suc left) i = do
    d ← read_at i 1 mem
    s ← chars_of mem left (i + 1)
    elim d [ int8 c ↦ ok (text_append (texts.character c) s) | _ ↦ crash ]

  -- the values that the cases of the switch read
  unfoldable pub gather_scalar : TypeKind → Dest → Outcome String
  gather_scalar int (int32 z) = ok (texts.number z)
  gather_scalar char (int8 c) = ok (texts.number c)
  gather_scalar bool (truth8 b) = ok (if b then "true" else "false")
  gather_scalar _ _ = crash

  unfoldable pub gather_string : Dest → Outcome String
  gather_string (block size bytes ds) = do
    s ← chars_of ds size 0
    ok (text_append "\"" (text_append s "\""))
  gather_string _ = crash

  unfoldable pub gather_arr : (ℕ → Dests → Outcome String) → Dest → Outcome String
  gather_arr elems (block size bytes ds) = do
    s ← elems size ds
    ok (text_append "[" (text_append s "]"))
  gather_arr elems _ = crash

  -- the switch of gather_rec; `elems` is the loop over the elements of an array
  unfoldable pub gather_kind : TypeKind → Dests → ℕ → (ℕ → Dests → Outcome String) → Outcome String
  gather_kind int mem o elems = do d ← read_at o 4 mem; gather_scalar int d
  gather_kind string mem o elems = do d ← read_at o 8 mem; gather_string d
  gather_kind char mem o elems = do d ← read_at o 1 mem; gather_scalar char d
  gather_kind bool mem o elems = do d ← read_at o 1 mem; gather_scalar bool d
  gather_kind arr mem o elems = do d ← read_at o 8 mem; gather_arr elems d
  gather_kind invalid mem o elems = ok ""

  -- its loop from `i` on, with the rounds that are left; `f` is gather_rec at an offset
  unfoldable pub gather_all : (ℕ → Outcome String) → ℕ → ℕ → ℕ → ℕ → Outcome String
  gather_all f type_size size zero i = ok ""
  gather_all f type_size size (suc left) i = do
    s ← f (i * type_size)
    r ← gather_all f type_size size left (i + 1)
    ok (text_append s (text_append (if i + 1 == size then "" else ",") r))

  -- gather_rec at an offset of a block, with the fuel first: one more than the depth of the type
  unfoldable pub gather_rec : ℕ → Ty → Dests → ℕ → Outcome String
  gather_rec zero t mem o = crash
  gather_rec (suc k) t mem o = gather_kind (get_current_type t) mem o (λ size ds. do
    type_size ← get_sizeof (fresh (drop_type t))
    gather_all (gather_rec k (drop_type t) ds) type_size size size 0)
