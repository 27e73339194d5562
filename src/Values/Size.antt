-- ===== src/Values/Size.antt =====
-- ArraySym::get_size (src/Symbol.cpp): an array of a declared type before and after its size is drawn.
use d_gen.Prelude.{ℕ, ◌+◌, ◌%◌, ◌≡◌, refl, Option, none, some, List}
use d_gen.Types.{TypeKind, Ty}
use d_gen.Values.{Vals, array_sym, string_sym, init_arr, get_pointed_type_elem, get_size}
use d_gen.Values.Shape.{
  Filled, Fits, FitsAll, Given, Completes, Extends, ExtendsAll, new_array, more_array, new_string,
  more_string, count, count-elements, elements-FitsAll,
}

pub get_size-Filled :
    (rand : ℕ → ℕ) (ks : List TypeKind) (t : Ty) (size : Option ℕ) (vs : Vals) (n : ℕ)
    → Filled size vs
    → FitsAll ks vs
    → Fits ks (get_pointed_type_elem t)
    → (s : ℕ) × (ws : Vals) × (m : ℕ) × (get_size rand t size vs n ≡ (s, ws, m))
      × (count ws ≡ s)
      × FitsAll ks ws
      × ((us : Vals)
          → ExtendsAll ws us
          → Extends (array_sym t size vs) (array_sym t (some s) us)
            × Extends (string_sym t size vs) (string_sym t (some s) us))
      × (Given size × Completes vs → (m ≡ n) × Completes ws)
unfolding get_size init_arr
get_size-Filled rand ks t none vs n filled fits fit =
    let size = rand n % 10 in
    let elem = get_pointed_type_elem t in
    (
      size,
      init_arr t size,
      n + 1,
      refl,
      count-elements size elem,
      elements-FitsAll size ks elem fit,
      λ us x. (new_array, new_string),
      λ c. absurd c.0,
    )
get_size-Filled rand ks t (some s) vs n filled fits fit =
    (s, vs, n, refl, filled, fits, λ us x. (more_array x, more_string x), λ c. (refl, c.1))
