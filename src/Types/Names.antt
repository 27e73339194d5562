-- ===== src/Types/Names.antt =====
-- Type::create and Type::to_string (src/type.cpp): the tokens of a type and its printed name.
use text.Mathlib.TextLemmas.{append-eq-nil_iff}
use mathlib.Core.List.{reverse-reverse}
use d_gen.Prelude.{
  ◌≡◌, ◌≢◌, refl, ap, ◌∙◌, inl, inr, true, List, [], ◌∷◌, reverse, String, concat, str_eq, eq_iff,
  arith, Bool-cases,
}
use d_gen.Errors.{ok, ◌>>=◌, >>=-eq-ok}
use d_gen.Types.{
  TypeKind, int, string, char, bool, arr, invalid, Ty, map_type, map_types, create, kind_text,
  kinds_text, to_string,
}

map_type-kind_text : (k : TypeKind) → k ≢ invalid → map_type (kind_text k) ≡ ok k
unfolding map_type kind_text
map_type-kind_text int h = refl
map_type-kind_text string h = refl
map_type-kind_text char h = refl
map_type-kind_text bool h = refl
map_type-kind_text arr h = refl
map_type-kind_text invalid h = absurd (h refl)

kind_text-map_type : (s : String) (k : TypeKind) → map_type s ≡ ok k → kind_text k ≡ s
unfolding map_type kind_text
kind_text-map_type s k h =
    ground
      (arith, eq_iff s "int", eq_iff s "string", eq_iff s "char", eq_iff s "bool", eq_iff s "[]")

kinds_text-map_types :
    (ss : List String) (ks : List TypeKind) → map_types ss ≡ ok ks → kinds_text ks ≡ ss
unfolding map_types kinds_text
kinds_text-map_types [] ks h = ground arith
kinds_text-map_types (s ∷ ss) ks h =
    let (k, hk, h') = >>=-eq-ok (map_type s) (λ k. do js ← map_types ss; ok (k ∷ js)) h in
    let (js, hj, e) = >>=-eq-ok (map_types ss) (λ js. ok (k ∷ js)) h' in
    ground (arith, kind_text-map_type s k hk, kinds_text-map_types ss js hj)

kind_text_nonempty : (k : TypeKind) → kind_text k ≢ ""
unfolding kind_text
kind_text_nonempty int h = cc
kind_text_nonempty string h = cc
kind_text_nonempty char h = cc
kind_text_nonempty bool h = cc
kind_text_nonempty arr h = cc
kind_text_nonempty invalid h = cc

concat_nonempty :
    (k : TypeKind) (ss : List String) → str_eq (concat (kind_text k ∷ ss)) "" ≡ true → ⊥
concat_nonempty k ss h =
    kind_text_nonempty k (append-eq-nil_iff.0 ((eq_iff (concat (kind_text k ∷ ss)) "").0 h)).0

to_string_kinds :
    (k : TypeKind) (ks : List TypeKind)
    → to_string (record { types = k ∷ ks; pos = 0 }) ≡ concat (kinds_text (k ∷ ks))
unfolding to_string kinds_text
to_string_kinds k ks = elim (Bool-cases (str_eq (concat (kind_text k ∷ kinds_text ks)) "")) [
  | inl is ↦ absurd (concat_nonempty k (kinds_text ks) is)
  | inr isnt ↦ rw isnt
]

print_tokens :
    (token : String) (tokens : List String) (ks : List TypeKind)
    → kinds_text ks ≡ reverse (token ∷ tokens)
    → to_string (record { types = ks; pos = 0 }) ≡ concat (reverse (token ∷ tokens))
unfolding kinds_text
print_tokens token tokens [] h = cc (ap reverse h ∙ reverse-reverse (token ∷ tokens))
print_tokens token tokens (k ∷ ks) h = to_string_kinds k ks ∙ ap concat h

-- If a type is made of the tokens `token`, `tokens`, it prints as them in reverse order, one after
-- the other.
pub to_string-create :
    (token : String) (tokens : List String) (t : Ty)
    → create (token ∷ tokens) ≡ ok t
    → to_string t ≡ concat (reverse (token ∷ tokens))
unfolding create
to_string-create token tokens t h =
    let made =
      >>=-eq-ok (map_types (reverse (token ∷ tokens)))
        (λ (ks : List TypeKind). ok (record { types = ks; pos = 0 })) h in
    let (ks, hk, e) = made in
    ground
      (arith, print_tokens token tokens ks (kinds_text-map_types (reverse (token ∷ tokens)) ks hk))
