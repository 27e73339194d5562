-- ===== src/Values/Text.antt =====
-- What a value that is generated to the last part is written as (serialize in src/Symbol.cpp).
use d_gen.Prelude.{
  ℕ, ◌≡◌, refl, ◌∙◌, sym, ap, Bool, Option, none, some, String, ℤ, text_append, set_last,
  set_last_only, set_last-append_all, if◌then◌else◌,
}
use text.Mathlib.TextLemmas.{append_assoc, append-nil}
use d_gen.Types.{Ty}
use d_gen.Values.{
  Val, Vals, null_sym, number_sym, char_sym, bool_sym, array_sym, string_sym, nil, cons, Texts,
}

module _ (texts : Texts) where
  abbrev number_text : Option ℤ → String
  number_text none = ""
  number_text (some z) = texts.number z

  abbrev bool_text : Option Bool → String
  bool_text none = ""
  bool_text (some b) = if b then "true" else "false"

  -- the characters of a string, one after the other
  abbrev pub chars_text : Vals → String
  chars_text nil = ""
  chars_text (cons (char_sym (some c)) vs) = text_append (texts.character c) (chars_text vs)
  chars_text (cons _ vs) = chars_text vs

  -- What a value is written as: an array between brackets, with commas between its elements; but an
  -- empty array is written as `]`.
  abbrev mutual
    pub json_text : Val → String
    json_text null_sym = ""
    json_text (number_sym num) = number_text num
    json_text (char_sym ch) = number_text ch
    json_text (bool_sym val) = bool_text val
    json_text (array_sym t size nil) = "]"
    json_text (array_sym t size (cons v vs)) =
        text_append "[" (text_append (json_text v) (text_append (after_commas vs) "]"))
    json_text (string_sym t size vs) = text_append "\"" (text_append (chars_text vs) "\"")

    pub after_commas : Vals → String
    after_commas nil = ""
    after_commas (cons v vs) = text_append "," (text_append (json_text v) (after_commas vs))

  -- each element with a comma behind it
  unfoldable pub before_commas : Vals → String
  before_commas nil = ""
  before_commas (cons v vs) = text_append (json_text v) (text_append "," (before_commas vs))

  commas_moved :
      (v : Val) (vs : Vals)
      → before_commas (cons v vs) ≡ text_append (json_text v) (text_append (after_commas vs) ",")
  unfolding before_commas
  commas_moved v nil = rw (append-nil ",") refl
  commas_moved v (cons w ws) =
      ap (λ s. text_append (json_text v) (text_append "," s)) (commas_moved w ws)
      ∙ ap (text_append (json_text v)) (
          sym (
            append_assoc "," (text_append (json_text w) (after_commas ws)) ","
            ∙ ap (text_append ",") (append_assoc (json_text w) (after_commas ws) ",")))

  pub last_comma :
      (ws : Vals) (t : Ty) (size : Option ℕ)
      → set_last "]" (text_append "[" (before_commas ws)) ≡ json_text (array_sym t size ws)
  unfolding before_commas
  last_comma nil t size = rw (append-nil "[") (set_last_only _ _)
  last_comma (cons w ws) t size =
      ap (λ s. set_last "]" (text_append "[" s)) (commas_moved w ws)
      ∙ set_last-append_all _ _ "[" (json_text w) (after_commas ws)
