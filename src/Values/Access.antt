-- ===== src/Values/Access.antt =====
-- ArraySym::get_symbol_by_idxs and get_val_arr (src/Symbol.cpp): access to an element of an input.
pub mod Safe
use d_gen.Prelude.{
  ℕ, zero, suc, Bool, Option, none, some, List, [], ◌∷◌, ℤ, pos, negsuc, leb, if◌then◌else◌,
}
use d_gen.Errors.{Outcome, ok, crash, ◌>>=◌}
use d_gen.Types.{Ty}
use d_gen.Values.Memory.{Dest, fill_dest}
use d_gen.Values.{
  Val, Vals, null_sym, number_sym, char_sym, bool_sym, array_sym, string_sym, nil, cons, get_size,
  num_rand_gen, char_rand_gen, bool_rand_gen,
}

-- `none` is the std::runtime_error "out of bounds"; with the value come the changed symbols and the
-- number of calls of std::rand.
abbrev pub Accessed : Type 0 → Type 0 → Type 0
Accessed A B = Outcome (Option (A × B × ℕ))

-- The element that `arr->arr[j]` points to is changed in place by `f`.
unfoldable pub at_elem : {A : Type 0} → (Val → Accessed A Val) → ℕ → Vals → Accessed A Vals
at_elem f j nil = crash
at_elem f zero (cons v vs) = do
  r ← f v
  ok (elim r [ none ↦ none | some (a, w, m) ↦ some (a, cons w vs, m) ])
at_elem f (suc j) (cons v vs) = do
  r ← at_elem f j vs
  ok (elim r [ none ↦ none | some (a, ws, m) ↦ some (a, cons v ws, m) ])

-- The check of an index and the access with it, where `make` builds the array again. `arr->arr[i]`
-- with a negative `i` is outside the vector.
unfoldable pub at_idx :
    {A : Type 0} → (Val → Accessed A Val) → ℤ → ℕ → Vals → (Vals → Val) → Accessed A Val
at_idx f (negsuc i) size vs make = crash
at_idx f (pos i) size vs make =
    if leb size i
    then ok none
    else do r ← at_elem f i vs; ok (elim r [ none ↦ none | some (a, ws, m) ↦ some (a, make ws, m) ])

-- One round: the size is drawn if it is not yet known, and `f` goes on with the element. A symbol that
-- is no array is a null pointer after the dynamic_cast.
unfoldable pub at_array :
    {A : Type 0} → (ℕ → ℕ) → (Val → ℕ → Accessed A Val) → ℤ → Val → ℕ → Accessed A Val
at_array rand f i (array_sym t size vs) n =
    let (size', us, m) = get_size rand t size vs n in
    at_idx (λ v. f v m) i size' us (array_sym t (some size'))
at_array rand f i (string_sym t size vs) n =
    let (size', us, m) = get_size rand t size vs n in
    at_idx (λ v. f v m) i size' us (string_sym t (some size'))
at_array rand f i _ n = crash

-- The rounds for the indices, and `op` on the symbol that is left.
unfoldable pub at_idxs :
    {A : Type 0} → (ℕ → ℕ) → (Val → ℕ → Accessed A Val) → List ℤ → Val → ℕ → Accessed A Val
at_idxs rand op [] v n = op v n
at_idxs rand op (i ∷ is) v n = at_array rand (at_idxs rand op is) i v n

-- ArraySym::get_symbol_by_idxs, with what its caller does with the symbol. There is an index at least.
unfoldable pub get_symbol_by_idxs :
    {A : Type 0} → (ℕ → ℕ) → (Val → ℕ → Accessed A Val) → ℤ → List ℤ → Val → ℕ → Accessed A Val
get_symbol_by_idxs rand op i is v n = at_idxs rand op (i ∷ is) v n

-- get_val_arr, with the fuel of fill_dest
unfoldable pub get_val_arr : (ℕ → ℕ) → ℕ → ℤ → List ℤ → Val → ℕ → Accessed Dest Val
get_val_arr rand k = get_symbol_by_idxs rand (λ v n. do r ← fill_dest rand k v n; ok (some r))
