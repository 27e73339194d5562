-- ===== src/Values/Serialize.antt =====
-- ArraySym::serialize, StringSym::serialize and the others (src/Symbol.cpp) against the text of a value
-- that is generated to the last part.
use d_gen.Prelude.{
  ℕ, zero, suc, ◌+◌, ◌≤◌, ◌≡◌, refl, ◌∙◌, ap, none, some, List, [], ◌∷◌, length, String, pos, ◌-◌,
  ◌%◌, ◌==◌, arith, text_append,
}
use text.Mathlib.TextLemmas.{append_assoc, append-nil}
use d_gen.Errors.{Outcome, ok}
use d_gen.Types.{TypeKind, char}
use d_gen.Types.View.{kinds_drop}
use d_gen.Ast.Rank.{IsDeclared}
use d_gen.Values.{
  Val, Vals, number_sym, char_sym, bool_sym, array_sym, string_sym, nil, cons, Texts, num_rand_gen,
  char_rand_gen, bool_rand_gen, serialize_all, serialize_chars, serialize,
}
use d_gen.Values.Text.{json_text, chars_text, before_commas, last_comma}
use d_gen.Values.Size.{get_size-Filled}
use d_gen.Values.Shape.{
  Fits, FitsAll, int_value, char_value, bool_value, string_value, array_value, no_values,
  and_values, Complete, Completes, Extends, ExtendsAll, more_int, more_char, more_bool, no_more,
  and_more, count, elem-Fits,
}

module _ (rand : ℕ → ℕ) (texts : Texts) where
  -- The text is that of a complete value of the type, which extends `v`; a complete `v` needs no call of
  -- std::rand.
  abbrev pub Written : List TypeKind → Val → ℕ → Outcome (String × Val × ℕ) → Type 0
  Written ks v n r =
      (w : Val) × (m : ℕ) × (r ≡ ok (json_text texts w, w, m))
      × Fits ks w
      × Complete w
      × Extends v w
      × (Complete v → m ≡ n)

  abbrev WrittenAll : List TypeKind → String → Vals → ℕ → Outcome (String × Vals × ℕ) → Type 0
  WrittenAll ks tmp vs n r =
      (ws : Vals) × (m : ℕ) × (r ≡ ok (text_append tmp (before_commas texts ws), ws, m))
      × FitsAll ks ws
      × Completes ws
      × ExtendsAll vs ws
      × (Completes vs → m ≡ n)
      × (count ws ≡ count vs)

  serialize_all-Written :
      (f : Val → ℕ → Outcome (String × Val × ℕ)) (ks : List TypeKind)
      → ((v : Val) (n : ℕ) → Fits ks v → Written ks v n (f v n))
      → (tmp : String) (vs : Vals) (n : ℕ) → FitsAll ks vs
      → WrittenAll ks tmp vs n (serialize_all rand texts f tmp vs n)
  unfolding serialize_all before_commas
  serialize_all-Written f ks each tmp _ n no_values =
      (nil, n, rw (append-nil tmp) refl, no_values, tt, no_more, λ c. refl, refl)
  serialize_all-Written f ks each tmp _ n (and_values {v = v} {vs = vs} fit fits) =
      let (w, m, e, fw, cw, xw, qw) = each v n fit in
      let tmp' = text_append tmp (text_append (json_text texts w) ",") in
      let (ws, j, es, fws, cws, xws, qws, same) = serialize_all-Written f ks each tmp' vs m fits in
      (
        cons w ws,
        j,
        rw (e, es) (joined w ws j),
        and_values fw fws,
        (cw, cws),
        and_more xw xws,
        λ c. qws c.1 ∙ qw c.0,
        ap suc same,
      )
    where
      joined :
          (w : Val) (ws : Vals) (j : ℕ)
          → Path
              (Outcome (String × Vals × ℕ))
              (ok (
                text_append
                    (text_append tmp (text_append (json_text texts w) ","))
                    (before_commas texts ws),
                cons w ws,
                j,
              ))
              (ok (text_append tmp (before_commas texts (cons w ws)), cons w ws, j))
      joined w ws j =
          ap (λ s. ok (s, cons w ws, j))
            (append_assoc tmp (text_append (json_text texts w) ",") (before_commas texts ws)
              ∙ ap (text_append tmp)
                  (append_assoc (json_text texts w) "," (before_commas texts ws)))

  serialize_chars-Written :
      (tmp : String) (vs : Vals) (n : ℕ)
      → FitsAll (char ∷ []) vs
      → (ws : Vals) × (m : ℕ) × (serialize_chars rand texts tmp vs n
          ≡ ok (text_append tmp (chars_text texts ws), ws, m))
        × FitsAll (char ∷ []) ws
        × Completes ws
        × ExtendsAll vs ws
        × (Completes vs → m ≡ n)
        × (count ws ≡ count vs)
  unfolding serialize_chars char_rand_gen
  serialize_chars-Written tmp _ n no_values =
      (nil, n, rw (append-nil tmp) refl, no_values, tt, no_more, λ c. refl, refl)
  serialize_chars-Written tmp _ n (and_values {vs = vs} (char_value {ch = some c}) fits) =
      let (ws, j, es, fws, cws, xws, qws, same) =
        serialize_chars-Written (text_append tmp (texts.character c)) vs n fits in
      (
        cons (char_sym (some c)) ws,
        j,
        rw (es, append_assoc tmp (texts.character c) (chars_text texts ws)) refl,
        and_values char_value fws,
        (tt, cws),
        and_more (more_char refl) xws,
        λ c. qws c.1,
        ap suc same,
      )
  serialize_chars-Written tmp _ n (and_values {vs = vs} (char_value {ch = none}) fits) =
      let c = pos (b'a' + rand n % (b'z' - b'a')) in
      let (ws, j, es, fws, cws, xws, qws, same) =
        serialize_chars-Written (text_append tmp (texts.character c)) vs (n + 1) fits in
      (
        cons (char_sym (some c)) ws,
        j,
        rw (es, append_assoc tmp (texts.character c) (chars_text texts ws)) refl,
        and_values char_value fws,
        (tt, cws),
        and_more (more_char tt) xws,
        λ c. absurd c.0,
        ap suc same,
      )

  -- On a value of a declared type, with as much fuel as the type has kinds, serialize returns: the
  -- value that it leaves is of the type, is generated to the last part, has all that was generated
  -- before, and the text is the text of that value. Nothing is drawn if nothing is missing.
  pub serialize-Written :
      (k : ℕ) (ks : List TypeKind) (v : Val) (n : ℕ)
      → Fits ks v
      → IsDeclared ks
      → length ks ≤ k
      → Written ks v n (serialize rand texts k v n)
  unfolding serialize num_rand_gen char_rand_gen bool_rand_gen kinds_drop
  serialize-Written zero [] v n fit d le = absurd d
  serialize-Written zero (i ∷ ks) v n fit d le = absurd (omega arith)
  serialize-Written (suc k) _ _ n (int_value {num = none}) d le =
      let z = pos (rand n % 200) in
      (number_sym (some z), n + 1, refl, int_value, tt, more_int tt, λ c. absurd c)
  serialize-Written (suc k) _ _ n (int_value {num = some z}) d le =
      (number_sym (some z), n, refl, int_value, tt, more_int refl, λ c. refl)
  serialize-Written (suc k) _ _ n (char_value {ch = none}) d le =
      let c = pos (b'a' + rand n % (b'z' - b'a')) in
      (char_sym (some c), n + 1, refl, char_value, tt, more_char tt, λ c. absurd c)
  serialize-Written (suc k) _ _ n (char_value {ch = some z}) d le =
      (char_sym (some z), n, refl, char_value, tt, more_char refl, λ c. refl)
  serialize-Written (suc k) _ _ n (bool_value {val = none}) d le =
      let b = rand n % 2 == 1 in
      (bool_sym (some b), n + 1, refl, bool_value, tt, more_bool tt, λ c. absurd c)
  serialize-Written (suc k) _ _ n (bool_value {val = some b}) d le =
      (bool_sym (some b), n, refl, bool_value, tt, more_bool refl, λ c. refl)
  serialize-Written (suc k) _ _ n (string_value {t = t} {size = size} {vs = vs} e filled fits) d
        le =
      let fresh_elem = elem-Fits t (char ∷ []) (ap kinds_drop e) tt in
      let (s, us, m, es, cs, fus, xus, qus) =
        get_size-Filled rand (char ∷ []) t size vs n filled fits fresh_elem in
      let (ws, j, ew, fws, cws, xws, qws, same) = serialize_chars-Written "\"" us m fus in
      (
        string_sym t (some s) ws,
        j,
        rw (es, ew, append_assoc "\"" (chars_text texts ws) "\"") refl,
        string_value e (same ∙ cs) fws,
        (tt, cws),
        (xus ws xws).1,
        λ c. qws (qus c).1 ∙ (qus c).0,
      )
  serialize-Written (suc k) _ _ n
        (array_value {t = t} {ks = ks} {size = size} {vs = vs} e filled fits) d le =
      let fresh_elem = elem-Fits t ks (ap kinds_drop e) d in
      let (s, us, m, es, cs, fus, xus, qus) =
        get_size-Filled rand ks t size vs n filled fits fresh_elem in
      let (ws, j, ew, fws, cws, xws, qws, same) =
        serialize_all-Written (serialize rand texts k) ks
          (λ v' n' fit. serialize-Written k ks v' n' fit d (omega arith)) "[" us m fus in
      (
        array_sym t (some s) ws,
        j,
        rw (es, ew, last_comma texts ws t (some s)) refl,
        array_value e (same ∙ cs) fws,
        (tt, cws),
        (xus ws xws).0,
        λ c. qws (qus c).1 ∙ (qus c).0,
      )
