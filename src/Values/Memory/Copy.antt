-- ===== src/Values/Memory/Copy.antt =====
-- A value that is copied to memory and read back (fill_dest in src/Symbol.cpp, gather_rec in src/DGen.cpp).
use d_gen.Prelude.{
  ℕ, zero, suc, ◌+◌, ◌*◌, ◌-◌, ◌%◌, ◌<◌, ◌≤◌, ◌≡◌, refl, ◌∙◌, ap, subst, none, some, List, [], ◌∷◌,
  length, get_or, Bool, String, ℤ, pos, arith, text_append, ◌==◌, if◌then◌else◌,
}
use native.Mathlib.Nat.{zero-add}
use d_gen.Errors.{ok}
use d_gen.Types.{TypeKind, int, string, char, bool, arr, invalid, Ty, get_current_type, drop_type}
use d_gen.Types.View.{view, kinds_drop, current-view, view-drop_type}
use d_gen.Ast.Rank.{IsDeclared}
use d_gen.Values.{
  Val, number_sym, char_sym, bool_sym, array_sym, string_sym, Texts, fresh, get_pointed_type_elem,
  num_rand_gen, char_rand_gen, bool_rand_gen,
}
use d_gen.Values.Size.{get_size-Filled}
use d_gen.Values.Shape.{
  Fits, int_value, char_value, bool_value, string_value, array_value, more_int, more_char,
  more_bool, count, elem-Fits,
}
use d_gen.Values.Text.{chars_text}
use d_gen.Values.Memory.Elements.{
  width, Copied, get_sizeof-Fits, fill_all-Copied, fill_chars-Copied,
}
use d_gen.Values.Memory.Result.{results_text}
use d_gen.Values.Memory.{
  Dests, int32, int8, truth8, block, sizeof, get_sizeof, memcpy, read_at, arr_rand_gen, fill_dest,
  chars_of, gather_scalar, gather_string, gather_arr, gather_kind, gather_all, gather_rec,
}

current : (t : Ty) (ks : List TypeKind) → view t ≡ ks → get_current_type t ≡ get_or ks 0 invalid
current t ks e = current-view t ∙ ap (λ js. get_or js 0 invalid) e

-- What gather_rec gives, by the kind of the type and what is read.
module _ (texts : Texts) (k : ℕ) (t : Ty) (mem : Dests) (o : ℕ) where
  gather_int :
      (z : ℤ)
      → view t ≡ int ∷ []
      → read_at o 4 mem ≡ ok (int32 z)
      → gather_rec texts (suc k) t mem o ≡ ok (texts.number z)
  unfolding gather_rec gather_kind gather_scalar
  gather_int z e h = rw (current t (int ∷ []) e, h) refl

  gather_char :
      (c : ℤ)
      → view t ≡ char ∷ []
      → read_at o 1 mem ≡ ok (int8 c)
      → gather_rec texts (suc k) t mem o ≡ ok (texts.number c)
  unfolding gather_rec gather_kind gather_scalar
  gather_char c e h = rw (current t (char ∷ []) e, h) refl

  gather_bool :
      (b : Bool)
      → view t ≡ bool ∷ []
      → read_at o 1 mem ≡ ok (truth8 b)
      → gather_rec texts (suc k) t mem o ≡ ok (if b then "true" else "false")
  unfolding gather_rec gather_kind gather_scalar
  gather_bool b e h = rw (current t (bool ∷ []) e, h) refl

  gather_chars :
      (size bytes : ℕ) (ds : Dests) (s : String)
      → view t ≡ string ∷ []
      → read_at o 8 mem ≡ ok (block size bytes ds)
      → chars_of texts ds size 0 ≡ ok s
      → gather_rec texts (suc k) t mem o ≡ ok (text_append "\"" (text_append s "\""))
  unfolding gather_rec gather_kind gather_string
  gather_chars size bytes ds s e h g = rw (current t (string ∷ []) e, h, g) refl

  gather_elements :
      (ks : List TypeKind) (size bytes z : ℕ) (ds : Dests) (s : String)
      → view t ≡ arr ∷ ks
      → read_at o 8 mem ≡ ok (block size bytes ds)
      → get_sizeof (fresh (drop_type t)) ≡ ok z
      → gather_all texts (gather_rec texts k (drop_type t) ds) z size size 0 ≡ ok s
      → gather_rec texts (suc k) t mem o ≡ ok (text_append "[" (text_append s "]"))
  unfolding gather_rec gather_kind gather_arr
  gather_elements ks size bytes z ds s e h ez g = rw (current t (arr ∷ ks) e, h, ez, g) refl

module _ (rand : ℕ → ℕ) (texts : Texts) where
  -- If a value of a declared type is copied to memory, with more fuel than the type has kinds, it is
  -- generated to the last part, all that was generated before is kept, the copy has as many bytes as
  -- get_sizeof says, and from each place of memory that holds the copy gather_rec, with the same fuel,
  -- reads the text of the value, the elements of arrays at the offsets where they were written.
  pub fill_dest-Copied :
      (k : ℕ) (ks : List TypeKind) (v : Val) (n : ℕ)
      → Fits ks v
      → IsDeclared ks
      → length ks < k
      → Copied rand texts k ks v (fill_dest rand k v n)
  unfolding fill_dest arr_rand_gen num_rand_gen char_rand_gen bool_rand_gen kinds_drop get_sizeof
      memcpy sizeof get_pointed_type_elem
  fill_dest-Copied zero ks v n fit d lt = absurd (omega arith)
  fill_dest-Copied (suc k) _ _ n (int_value {num = none}) d lt =
      let x = pos (rand n % 200) in
      (
        int32 x,
        number_sym (some x),
        n + 1,
        refl,
        int_value,
        tt,
        more_int tt,
        refl,
        λ t mem o e h. gather_int texts k t mem o x e h,
      )
  fill_dest-Copied (suc k) _ _ n (int_value {num = some x}) d lt = (
    int32 x,
    number_sym (some x),
    n,
    refl,
    int_value,
    tt,
    more_int refl,
    refl,
    λ t mem o e h. gather_int texts k t mem o x e h,
  )
  fill_dest-Copied (suc k) _ _ n (char_value {ch = none}) d lt =
      let x = pos (b'a' + rand n % (b'z' - b'a')) in
      (
        int8 x,
        char_sym (some x),
        n + 1,
        refl,
        char_value,
        tt,
        more_char tt,
        refl,
        λ t mem o e h. gather_char texts k t mem o x e h,
      )
  fill_dest-Copied (suc k) _ _ n (char_value {ch = some x}) d lt = (
    int8 x,
    char_sym (some x),
    n,
    refl,
    char_value,
    tt,
    more_char refl,
    refl,
    λ t mem o e h. gather_char texts k t mem o x e h,
  )
  fill_dest-Copied (suc k) _ _ n (bool_value {val = none}) d lt =
      let x = rand n % 2 == 1 in
      (
        truth8 x,
        bool_sym (some x),
        n + 1,
        refl,
        bool_value,
        tt,
        more_bool tt,
        refl,
        λ t mem o e h. gather_bool texts k t mem o x e h,
      )
  fill_dest-Copied (suc k) _ _ n (bool_value {val = some x}) d lt = (
    truth8 x,
    bool_sym (some x),
    n,
    refl,
    bool_value,
    tt,
    more_bool refl,
    refl,
    λ t mem o e h. gather_bool texts k t mem o x e h,
  )
  fill_dest-Copied (suc zero) _ _ n (string_value e filled fits) d lt = absurd (omega arith)
  fill_dest-Copied (suc (suc k)) _ _ n (string_value {t = t} {size = size} {vs = vs} e filled fits)
        d lt =
      let fresh_elem = elem-Fits t (char ∷ []) (ap kinds_drop e) tt in
      let ez = get_sizeof-Fits (char ∷ []) (get_pointed_type_elem t) fresh_elem in
      let (s, us, m, es, cs, fus, xus, qus) =
        get_size-Filled rand (char ∷ []) t size vs n filled fits fresh_elem in
      let one : s * 1 ≡ s = omega arith in
      let (ds, ws, j, ew, fws, cws, xws, same, laid, g) =
        fill_chars-Copied rand texts k us m 0 (s * 1) fus (omega arith) in
      (
        block s (s * 1) ds,
        string_sym t (some s) ws,
        j,
        rw (es, ez, ew) refl,
        string_value e (same ∙ cs) fws,
        (tt, cws),
        (xus ws xws).1,
        refl,
        λ u mem o eu h. gather_chars texts (suc k) u mem o s (s * 1) ds (chars_text texts ws) eu h (
            subst (λ c. chars_of texts ds c 0 ≡ ok (chars_text texts ws)) (same ∙ cs)
              (g ds (λ p le. refl))),
      )
  fill_dest-Copied (suc k) _ _ n
        (array_value {t = t} {ks = ks} {size = size} {vs = vs} e filled fits) d lt =
      let z = width ks in
      let fresh_elem = elem-Fits t ks (ap kinds_drop e) d in
      let ez = get_sizeof-Fits ks (get_pointed_type_elem t) fresh_elem in
      let (s, us, m, es, cs, fus, xus, qus) =
        get_size-Filled rand ks t size vs n filled fits fresh_elem in
      let room : (0 + count us) * z ≤ s * z = rw cs (omega arith) in
      let (ds, ws, j, ew, fws, cws, xws, same, laid, g) =
        fill_all-Copied rand texts (fill_dest rand k) k ks
          (λ v' n' fit. fill_dest-Copied k ks v' n' fit d (omega arith)) us m 0 (s * z) fus room in
      (
        block s (s * z) ds,
        array_sym t (some s) ws,
        j,
        rw (es, ez, ew) refl,
        array_value e (same ∙ cs) fws,
        (tt, cws),
        (xus ws xws).0,
        refl,
        λ u mem o eu h.
            let eu' : view (drop_type u) ≡ ks = view-drop_type u ∙ ap kinds_drop eu in
            gather_elements texts k u mem o ks s (s * z) z ds (results_text texts ws) eu h
              (get_sizeof-Fits ks (get_pointed_type_elem u) (elem-Fits u ks (ap kinds_drop eu) d))
              (subst
                (λ c.
                  gather_all texts (gather_rec texts k (drop_type u) ds) z s c 0
                  ≡ ok (results_text texts ws))
                (same ∙ cs)
                (g (drop_type u) ds s eu' (λ p le. refl) (zero-add (count ws) ∙ same ∙ cs))),
      )
