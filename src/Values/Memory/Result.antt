-- ===== src/Values/Memory/Result.antt =====
-- The text of a result (gather_rec in src/DGen.cpp).
use d_gen.Prelude.{
  ℕ, ◌+◌, ◌≡◌, refl, Bool, true, false, Option, none, some, String, ℤ, arith, text_append, ◌==◌,
  if◌then◌else◌,
}
use d_gen.Values.{
  Val, Vals, null_sym, number_sym, char_sym, bool_sym, array_sym, string_sym, nil, cons, Texts,
}
use d_gen.Values.Shape.{count}
use d_gen.Values.Text.{chars_text}

module _ (texts : Texts) where
  abbrev number_text : Option ℤ → String
  number_text none = ""
  number_text (some z) = texts.number z

  abbrev bool_text : Option Bool → String
  bool_text none = ""
  bool_text (some b) = if b then "true" else "false"

  -- What a result is written as: like an input, but an empty array is written as `[]`.
  abbrev mutual
    pub result_text : Val → String
    result_text null_sym = ""
    result_text (number_sym num) = number_text num
    result_text (char_sym ch) = number_text ch
    result_text (bool_sym val) = bool_text val
    result_text (array_sym t size vs) = text_append "[" (text_append (results_text vs) "]")
    result_text (string_sym t size vs) = text_append "\"" (text_append (chars_text texts vs) "\"")

    pub results_text : Vals → String
    results_text nil = ""
    results_text (cons v vs) = text_append (result_text v) (further_text vs)

    pub further_text : Vals → String
    further_text nil = ""
    further_text (cons v vs) = text_append "," (text_append (result_text v) (further_text vs))

  pub comma_if :
      (ws : Vals) (i size : ℕ)
      → i + count ws ≡ size
      → text_append (if i == size then "" else ",") (results_text ws) ≡ further_text ws
  comma_if nil i size h = let last : (i == size) ≡ true = ground arith in rw last refl
  comma_if (cons w ws) i size h = let isnt : (i == size) ≡ false = ground arith in rw isnt refl
