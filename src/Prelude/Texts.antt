-- ===== src/Prelude/Texts.antt =====
-- The operations of std::string that change it, and their lemmas.
use Prim.Native.Char.{Char}
use Prim.Native.String.{String, [], ◌∷◌, ◌++◌}
use mathlib.Core.Path.{◌≡◌, refl, ap, sym, ◌∙◌}
use text.Mathlib.TextLemmas.{append_assoc, nil-append, cons-append}

abbrev pub text_append : String → String → String
text_append s t = s ++ t

-- tmp[tmp.size() - 1] = c, where the text is not empty
unfoldable pub set_last : Char → String → String
set_last c [] = []
set_last c (d ∷ []) = c ∷ []
set_last c (d ∷ e ∷ s) = d ∷ set_last c (e ∷ s)

pub set_last-append : (c d : Char) (s : String) → set_last c (s ++ (d ∷ [])) ≡ s ++ (c ∷ [])
unfolding set_last
set_last-append c d [] = rw (nil-append (d ∷ []), nil-append (c ∷ []))
set_last-append c d (e ∷ []) =
    rw (
      cons-append e [] (d ∷ []),
      cons-append e [] (c ∷ []),
      nil-append (d ∷ []),
      nil-append (c ∷ []),
    )
set_last-append c d (e ∷ a ∷ s) =
    let ih = set_last-append c d (a ∷ s) in
    rw (cons-append e (a ∷ s) (d ∷ []), cons-append e (a ∷ s) (c ∷ []), cons-append a s (d ∷ []))
      (ap (λ x. e ∷ x) (rw (cons-append a s (d ∷ [])) at ih))

pub set_last_only : (c d : Char) → set_last c (d ∷ []) ≡ c ∷ []
unfolding set_last
set_last_only c d = refl

pub append_left : (a b c d : String) → a ++ (b ++ (c ++ d)) ≡ ((a ++ b) ++ c) ++ d
append_left a b c d = sym (append_assoc (a ++ b) c d ∙ append_assoc a b (c ++ d))

pub set_last-append_all :
    (c d : Char) (r s t : String)
    → set_last c (r ++ (s ++ (t ++ (d ∷ [])))) ≡ r ++ (s ++ (t ++ (c ∷ [])))
set_last-append_all c d r s t =
    ap (set_last c) (append_left r s t (d ∷ []))
    ∙ set_last-append c d ((r ++ s) ++ t)
    ∙ sym (append_left r s t (c ∷ []))
