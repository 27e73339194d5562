-- ===== src/Values/Memory/Elements.antt =====
-- The elements of an array in memory (arr_rand_gen in src/Symbol.cpp, gather_rec in src/DGen.cpp).
use d_gen.Prelude.{
  ℕ, suc, ◌+◌, ◌*◌, ◌-◌, ◌%◌, ◌<◌, ◌≤◌, ◌≡◌, refl, ◌∙◌, ap, none, some, List, [], ◌∷◌, pos, arith,
  text_append, leb, true,
}
use d_gen.Errors.{Outcome, ok}
use d_gen.Types.{TypeKind, int, string, char, bool, arr, Ty}
use d_gen.Types.View.{view}
use d_gen.Values.{Val, Vals, char_sym, nil, cons, Texts, char_rand_gen}
use d_gen.Values.Shape.{
  Fits, FitsAll, int_value, char_value, bool_value, string_value, array_value, no_values,
  and_values, Complete, Completes, Extends, ExtendsAll, more_char, no_more, and_more, count,
}
use d_gen.Values.Text.{chars_text}
use d_gen.Values.Memory.Result.{result_text, results_text, comma_if}
use d_gen.Values.Memory.Reads.{Laid, read_at-first, read_at-behind}
use d_gen.Values.Memory.{
  Dest, Dests, int8, none_left, more, sizeof, get_sizeof, memcpy, read_at, fill_all, fill_dest,
  chars_of, gather_rec, gather_all,
}

-- The bytes of a value of a type with these kinds.
abbrev pub width : List TypeKind → ℕ
width (int ∷ _) = 4
width (char ∷ _) = 1
width (bool ∷ _) = 1
width (string ∷ _) = 8
width (arr ∷ _) = 8
width _ = 0

pub width-Fits : (ks : List TypeKind) (v : Val) → Fits ks v → 0 < width ks
width-Fits _ _ int_value = omega arith
width-Fits _ _ char_value = omega arith
width-Fits _ _ bool_value = omega arith
width-Fits _ _ (string_value _ _ _) = omega arith
width-Fits _ _ (array_value _ _ _) = omega arith

pub get_sizeof-Fits : (ks : List TypeKind) (v : Val) → Fits ks v → get_sizeof v ≡ ok (width ks)
unfolding get_sizeof
get_sizeof-Fits _ _ int_value = refl
get_sizeof-Fits _ _ char_value = refl
get_sizeof-Fits _ _ bool_value = refl
get_sizeof-Fits _ _ (string_value _ _ _) = refl
get_sizeof-Fits _ _ (array_value _ _ _) = refl

-- The element with the number `i` ends within the block if all of them do.
fits_in : (i c z bytes : ℕ) → (i + suc c) * z ≤ bytes → leb (i * z + z) bytes ≡ true
fits_in i c z bytes h = let low : i * z + z ≤ bytes = grind arith in ground arith

further : (i c z bytes : ℕ) → (i + suc c) * z ≤ bytes → (i + 1 + c) * z ≤ bytes
further i c z bytes h = omega arith

next_at : (i z : ℕ) → (i + 1) * z ≡ i * z + z
next_at i z = omega arith

-- What is read of `mem` from the offset `o` on is what is read of `ds`.
abbrev ReadsAs : ℕ → ℕ → Dests → Dests → Type 0
ReadsAs z o mem ds = (p : ℕ) → o ≤ p → read_at p z mem ≡ read_at p z ds

ReadsAs-next :
    (z o u : ℕ) (mem ds : Dests) (d : Dest)
    → sizeof d ≡ z
    → u ≡ o + z
    → ReadsAs z o mem (more o d ds)
    → ReadsAs z u mem ds
ReadsAs-next z o u mem ds d e eu as_written p lt =
    as_written p (omega arith) ∙ read_at-behind p z o d ds (omega arith)

module _ (rand : ℕ → ℕ) (texts : Texts) where
  -- `v` has been generated to the last part and copied with the bytes of its type, and gather_rec reads
  -- its text from each place of memory where the copy stands.
  abbrev pub Copied : ℕ → List TypeKind → Val → Outcome (Dest × Val × ℕ) → Type 0
  Copied k ks v r =
      (d : Dest) × (w : Val) × (m : ℕ) × (r ≡ ok (d, w, m))
      × Fits ks w
      × Complete w
      × Extends v w
      × (sizeof d ≡ width ks)
      × ((t : Ty) (mem : Dests) (o : ℕ)
          → view t ≡ ks
          → read_at o (width ks) mem ≡ ok d
          → gather_rec texts k t mem o ≡ ok (result_text texts w))

  abbrev CopiedAll : ℕ → List TypeKind → ℕ → Vals → Outcome (Dests × Vals × ℕ) → Type 0
  CopiedAll k ks i vs r =
      (ds : Dests) × (ws : Vals) × (m : ℕ) × (r ≡ ok (ds, ws, m))
      × FitsAll ks ws
      × Completes ws
      × ExtendsAll vs ws
      × (count ws ≡ count vs)
      × Laid (width ks) (i * width ks) ds
      × ((t : Ty) (mem : Dests) (size : ℕ)
          → view t ≡ ks
          → ReadsAs (width ks) (i * width ks) mem ds
          → i + count ws ≡ size
          → gather_all texts (gather_rec texts k t mem) (width ks) size (count ws) i
            ≡ ok (results_text texts ws))

  pub fill_all-Copied :
      (f : Val → ℕ → Outcome (Dest × Val × ℕ)) (k : ℕ) (ks : List TypeKind)
      → ((v : Val) (n : ℕ) → Fits ks v → Copied k ks v (f v n))
      → (vs : Vals) (n i bytes : ℕ) → FitsAll ks vs
      → (i + count vs) * width ks ≤ bytes
      → CopiedAll k ks i vs (fill_all rand f (width ks) bytes i vs n)
  unfolding fill_all gather_all
  fill_all-Copied f k ks each _ n i bytes no_values lt =
      (none_left, nil, n, refl, no_values, tt, no_more, refl, tt, λ t mem size e r h. refl)
  fill_all-Copied f k ks each _ n i bytes (and_values {v = v} {vs = vs} fit fits) lt =
      let z = width ks in
      let (d, w, m, e, fw, cw, xw, ed, g) = each v n fit in
      let (ds, ws, j, es, fws, cws, xws, same, laid, gs) =
        fill_all-Copied f k ks each vs m (i + 1) bytes fits (further i (count vs) z bytes lt) in
      let laid' : Laid z (i * z + z) ds = rw (next_at i z) at laid in
      (
        more (i * z) d ds,
        cons w ws,
        j,
        rw (e, es, ed, fits_in i (count vs) z bytes lt) refl,
        and_values fw fws,
        (cw, cws),
        and_more xw xws,
        ap suc same,
        (refl, ed, laid'),
        λ t mem size et r h.
            let here =
              r (i * z) (omega arith)
              ∙ read_at-first z (i * z) d ds (width-Fits ks v fit) ed laid' in
            rw
              (
                g t mem (i * z) et here,
                gs t mem size et (ReadsAs-next z (i * z) ((i + 1) * z) mem ds d ed (next_at i z) r)
                    (omega arith),
              )
              (ap (λ s. ok (text_append (result_text texts w) s))
                (comma_if texts ws (i + 1) size (omega arith))),
      )

  -- the same of the characters of a string
  pub fill_chars-Copied :
      (k : ℕ) (vs : Vals) (n i bytes : ℕ)
      → FitsAll (char ∷ []) vs
      → i + count vs ≤ bytes
      → (ds : Dests) × (ws : Vals) × (m : ℕ) × (fill_all rand
            (fill_dest rand (suc k))
            1
            bytes
            i
            vs
            n
          ≡ ok (ds, ws, m))
        × FitsAll (char ∷ []) ws
        × Completes ws
        × ExtendsAll vs ws
        × (count ws ≡ count vs)
        × Laid 1 i ds
        × ((mem : Dests)
            → ReadsAs 1 i mem ds
            → chars_of texts mem (count ws) i ≡ ok (chars_text texts ws))
  unfolding fill_all fill_dest char_rand_gen chars_of get_sizeof memcpy sizeof
  fill_chars-Copied k _ n i bytes no_values lt =
      (none_left, nil, n, refl, no_values, tt, no_more, refl, tt, λ mem r. refl)
  fill_chars-Copied k _ n i bytes (and_values {vs = vs} (char_value {ch = some c}) fits) lt =
      let (ds, ws, j, es, fws, cws, xws, same, laid, gs) =
        fill_chars-Copied k vs n (i + 1) bytes fits (omega arith) in
      let at_i : i * 1 ≡ i = omega arith in
      let low : leb (i + 1) bytes ≡ true = ground arith in
      (
        more i (int8 c) ds,
        cons (char_sym (some c)) ws,
        j,
        rw (es, at_i, low) refl,
        and_values char_value fws,
        (tt, cws),
        and_more (more_char refl) xws,
        ap suc same,
        (refl, refl, laid),
        λ mem r.
            let here = r i (omega arith) ∙ read_at-first 1 i (int8 c) ds (omega arith) refl laid in
            rw (here, gs mem (ReadsAs-next 1 i (i + 1) mem ds (int8 c) refl refl r)) refl,
      )
  fill_chars-Copied k _ n i bytes (and_values {vs = vs} (char_value {ch = none}) fits) lt =
      let c = pos (b'a' + rand n % (b'z' - b'a')) in
      let (ds, ws, j, es, fws, cws, xws, same, laid, gs) =
        fill_chars-Copied k vs (n + 1) (i + 1) bytes fits (omega arith) in
      let at_i : i * 1 ≡ i = omega arith in
      let low : leb (i + 1) bytes ≡ true = ground arith in
      (
        more i (int8 c) ds,
        cons (char_sym (some c)) ws,
        j,
        rw (es, at_i, low) refl,
        and_values char_value fws,
        (tt, cws),
        and_more (more_char tt) xws,
        ap suc same,
        (refl, refl, laid),
        λ mem r.
            let here = r i (omega arith) ∙ read_at-first 1 i (int8 c) ds (omega arith) refl laid in
            rw (here, gs mem (ReadsAs-next 1 i (i + 1) mem ds (int8 c) refl refl r)) refl,
      )
