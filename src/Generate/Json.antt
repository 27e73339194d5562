-- ===== src/Generate/Json.antt =====
-- The text around the tests (DGen::generate_json in src/DGen.cpp).
use d_gen.Prelude.{
  ℕ, ◌+◌, ◌-◌, ◌≡◌, refl, ap, sym, ◌∙◌, List, [], ◌∷◌, length, String, concat, text_append, ◌==◌,
  arith, true, false,
}
use text.Mathlib.TextLemmas.{append_assoc, append-nil}
use d_gen.Generate.{json_rows, json_tests}

-- Each row behind a comma and a line break.
pub further_rows : List String → List String
further_rows [] = []
further_rows (t ∷ ts) = ",\n\t" ∷ t ∷ further_rows ts

comma_line :
    (u f : String)
    → text_append ","
        (text_append "\n" (text_append (text_append "\t" (text_append u (text_append f "\n"))) ""))
      ≡ text_append (text_append ",\n\t" (text_append u f)) "\n"
comma_line u f =
    ap (λ x. text_append "," (text_append "\n" x)) (append-nil (text_append "\t" row))
    ∙ sym (append_assoc "," "\n" (text_append "\t" row))
    ∙ sym (append_assoc ",\n" "\t" row)
    ∙ sym (
        append_assoc ",\n\t" (text_append u f) "\n"
        ∙ ap (text_append ",\n\t") (append_assoc u f "\n"))
  where
    row : String
    row = text_append u (text_append f "\n")

row_end :
    (t f : String)
    → text_append (text_append "\t" (text_append t (text_append f "\n"))) "\t]\n}"
      ≡ text_append "\t" (text_append t (text_append f "\n\t]\n}"))
row_end t f =
    append_assoc "\t" (text_append t (text_append f "\n")) "\t]\n}"
    ∙ ap (text_append "\t") (
        append_assoc t (text_append f "\n") "\t]\n}"
        ∙ ap (text_append t) (append_assoc f "\n" "\t]\n}"))

json_rows-eq :
    (i size : ℕ) (t : String) (ts : List String)
    → i + length (t ∷ ts) ≡ size
    → json_rows i size (t ∷ ts)
      ≡ text_append "\t" (text_append t (text_append (concat (further_rows ts)) "\n"))
unfolding json_rows further_rows
json_rows-eq i size t [] h = let last : (i == size - 1) ≡ true = ground arith in rw last refl
json_rows-eq i size t (u ∷ us) h =
    let more : (i == size - 1) ≡ false = ground arith in
    let ih = json_rows-eq (i + 1) size u us (omega arith) in
    rw (more, ih)
      (ap (λ x. text_append "\t" (text_append t x)) (comma_line u (concat (further_rows us))))

-- The tests are written in their order, one in each line, with a comma between each two of them and
-- none behind the last.
pub json_tests-eq :
    (t : String) (ts : List String)
    → json_tests (t ∷ ts)
      ≡ concat ("{\n\t\"tests\": [\n\t" ∷ t ∷ concat (further_rows ts) ∷ "\n\t]\n}" ∷ [])
unfolding json_tests
json_tests-eq t ts = rw (json_rows-eq 0 (length (t ∷ ts)) t ts (omega arith)) (
    ap (text_append "{\n\t\"tests\": [\n") (row_end t (concat (further_rows ts)))
    ∙ sym (append_assoc "{\n\t\"tests\": [\n" "\t" _))
