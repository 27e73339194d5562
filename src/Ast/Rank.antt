-- ===== src/Ast/Rank.antt =====
-- How often a variable can be indexed (ArrLookupNode::get_type in src/ast.cpp).
use d_gen.Prelude.{ℕ, zero, suc, ◌≤◌, ◌<◌, ◌≡◌, refl, ◌∙◌, ap, false, List, [], ◌∷◌, some, arith}
use d_gen.Errors.{Position, ok, throw}
use d_gen.Types.{TypeKind, int, string, char, bool, arr, invalid, Ty, drop_type}
use d_gen.Types.View.{view, kinds_are, kinds_drop, eq_kind-view, view-drop_type}
use d_gen.Ast.{Symbol, IdentNode, Exprs, nil, cons}
use d_gen.Ast.Typing.{ident_type, drop_types, arr_lookup_type}

-- The kinds of a type that a program can declare: arrays of `int`, `string`, `char` or `bool`.
abbrev pub IsDeclared : List TypeKind → Type 0
IsDeclared (arr ∷ ks) = IsDeclared ks
IsDeclared (invalid ∷ ks) = ⊥
IsDeclared (k ∷ []) = Unit
IsDeclared _ = ⊥

-- One index for each array, and one more into a string.
unfoldable pub rank : List TypeKind → ℕ
rank (arr ∷ ks) = suc (rank ks)
rank (string ∷ []) = 1
rank _ = 0

abbrev pub count : Exprs → ℕ
count nil = 0
count (cons e es) = suc (count es)

abbrev kinds_drops : Exprs → List TypeKind → List TypeKind
kinds_drops nil ks = ks
kinds_drops (cons e es) ks = kinds_drops es (kinds_drop ks)

view-drop_types : (es : Exprs) (t : Ty) → view (drop_types es t) ≡ kinds_drops es (view t)
unfolding drop_types
view-drop_types nil t = refl
view-drop_types (cons e es) t =
    view-drop_types es (drop_type t) ∙ ap (kinds_drops es) (view-drop_type t)

kinds_drops-nil : (es : Exprs) → kinds_drops es [] ≡ []
unfolding kinds_drop
kinds_drops-nil nil = refl
kinds_drops-nil (cons e es) = kinds_drops-nil es

-- One index lowers the rank by one, as long as there is some left.
pub kinds_drop-rank :
    (ks : List TypeKind) (n : ℕ)
    → IsDeclared ks
    → rank ks ≡ suc n
    → IsDeclared (kinds_drop ks) × (rank (kinds_drop ks) ≡ n)
unfolding kinds_drop rank
kinds_drop-rank [] n d r = absurd d
kinds_drop-rank (arr ∷ ks) n d r = (d, omega arith)
kinds_drop-rank (string ∷ []) n d r = (tt, omega arith)
kinds_drop-rank (string ∷ k ∷ ks) n d r = absurd d
kinds_drop-rank (int ∷ ks) n d r = absurd (omega arith)
kinds_drop-rank (char ∷ ks) n d r = absurd (omega arith)
kinds_drop-rank (bool ∷ ks) n d r = absurd (omega arith)
kinds_drop-rank (invalid ∷ ks) n d r = absurd d

kinds_drop-rank_zero : (ks : List TypeKind) → IsDeclared ks → rank ks ≡ 0 → kinds_drop ks ≡ []
unfolding kinds_drop rank
kinds_drop-rank_zero [] d r = refl
kinds_drop-rank_zero (arr ∷ ks) d r = absurd (omega arith)
kinds_drop-rank_zero (string ∷ []) d r = absurd (omega arith)
kinds_drop-rank_zero (int ∷ []) d r = refl
kinds_drop-rank_zero (char ∷ []) d r = refl
kinds_drop-rank_zero (bool ∷ []) d r = refl
kinds_drop-rank_zero (invalid ∷ ks) d r = absurd d
kinds_drop-rank_zero (string ∷ k ∷ ks) d r = absurd d
kinds_drop-rank_zero (int ∷ k ∷ ks) d r = absurd d
kinds_drop-rank_zero (char ∷ k ∷ ks) d r = absurd d
kinds_drop-rank_zero (bool ∷ k ∷ ks) d r = absurd d

within_rank :
    (n : ℕ) (es : Exprs) (ks : List TypeKind)
    → rank ks ≡ n
    → IsDeclared ks
    → count es ≤ n
    → IsDeclared (kinds_drops es ks)
within_rank n nil ks r d le = d
within_rank zero (cons e es) ks r d le = absurd (omega arith)
within_rank (suc n) (cons e es) ks r d le =
    let (d', r') = kinds_drop-rank ks n d r in within_rank n es (kinds_drop ks) r' d' (omega arith)

past_rank :
    (n : ℕ) (es : Exprs) (ks : List TypeKind)
    → rank ks ≡ n
    → IsDeclared ks
    → n < count es
    → kinds_drops es ks ≡ []
past_rank n nil ks r d lt = absurd (omega arith)
past_rank zero (cons e es) ks r d lt =
    ap (kinds_drops es) (kinds_drop-rank_zero ks d r) ∙ kinds_drops-nil es
past_rank (suc n) (cons e es) ks r d lt =
    let (d', r') = kinds_drop-rank ks n d r in past_rank n es (kinds_drop ks) r' d' (omega arith)

not_invalid : (ks : List TypeKind) → IsDeclared ks → kinds_are ks invalid ≡ false
not_invalid [] d = absurd d
not_invalid (arr ∷ []) d = absurd d
not_invalid (arr ∷ k ∷ ks) d = refl
not_invalid (invalid ∷ ks) d = absurd d
not_invalid (int ∷ []) d = refl
not_invalid (string ∷ []) d = refl
not_invalid (char ∷ []) d = refl
not_invalid (bool ∷ []) d = refl
not_invalid (k ∷ j ∷ ks) d = refl

-- A variable of a declared type can be indexed exactly as often as its type has arrays, and once more
-- if their elements are strings: up to there a lookup has a declared type, beyond it a BuildError.
pub arr_lookup_type-rank :
    (p : Position) (i : IdentNode) (es : Exprs) (s : Symbol)
    → i.symbol ≡ some s
    → IsDeclared (view s.type)
    → (count es ≤ rank (view s.type)
        → (t : Ty) × (arr_lookup_type p i es ≡ ok t) × IsDeclared (view t))
      × (rank (view s.type) < count es
          → arr_lookup_type p i es ≡ throw p "array dereference on non array variable")
unfolding arr_lookup_type ident_type
arr_lookup_type-rank p i es s e d = (inside, outside)
  where
    left : view (drop_types es s.type) ≡ kinds_drops es (view s.type)
    left = view-drop_types es s.type

    inside :
        count es ≤ rank (view s.type)
        → (t : Ty) × (arr_lookup_type p i es ≡ ok t) × IsDeclared (view t)
    inside le =
        let declared = within_rank (rank (view s.type)) es (view s.type) refl d le in
        (
          drop_types es s.type,
          rw (
            e,
            arr_lookup_type,
            ident_type,
            eq_kind-view (drop_types es s.type) invalid,
            left,
            not_invalid (kinds_drops es (view s.type)) declared,
          ),
          rw left declared,
        )

    outside :
        rank (view s.type) < count es
        → arr_lookup_type p i es ≡ throw p "array dereference on non array variable"
    outside lt = rw (
      e,
      arr_lookup_type,
      ident_type,
      eq_kind-view (drop_types es s.type) invalid,
      left,
      past_rank (rank (view s.type)) es (view s.type) refl d lt,
    )
