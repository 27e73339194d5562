-- ===== src/Values/Again.antt =====
-- What the values of the inputs are from one use to the next within a test, and from one test to the next
-- (src/Symbol.cpp).
use d_gen.Prelude.{ℕ, ◌≤◌, ◌≡◌, refl, ◌∙◌, sym, ap₂, subst, List, String, length, arith}
use d_gen.Errors.{ok, ok_injective}
use d_gen.Types.{TypeKind, int, string, char, bool, arr, invalid, Ty, get_current_type}
use d_gen.Types.View.{view}
use d_gen.Ast.Rank.{IsDeclared}
use d_gen.Values.{Val, Texts, serialize, reset_val, fresh, fresh_of}
use d_gen.Values.Shape.{
  Fits, Extends, Extends-Complete, more_int, more_char, more_bool, new_array, more_array,
  new_string, more_string, fresh-Fits,
}
use d_gen.Values.Text.{json_text}
use d_gen.Values.Serialize.{serialize-Written}

-- Once a value of a declared type has been written, it is written the same way again, whatever std::rand
-- would give, and it neither changes nor draws from std::rand.
pub serialize_again :
    (rand other : ℕ → ℕ) (texts : Texts) (k : ℕ) (ks : List TypeKind) (v w : Val) (n m i : ℕ)
    {s : String}
    → Fits ks v
    → IsDeclared ks
    → length ks ≤ k
    → serialize rand texts k v n ≡ ok (s, w, m)
    → serialize other texts k w i ≡ ok (s, w, i)
serialize_again rand other texts k ks v w n m i {s} fit d le h =
    let (w', m', e, fw, cw, xw, qw) = serialize-Written rand texts k ks v n fit d le in
    let (w'', i', e', fw', cw', xw', qw') = serialize-Written other texts k ks w' i fw d le in
    let same : w'' ≡ w' = Extends-Complete w' w'' cw xw' in
    let first : Path (String × Val × ℕ) (json_text texts w', w', m') (s, w, m) =
      ok_injective (sym e ∙ h) in
    subst (λ (x : String × Val × ℕ). serialize other texts k x.1 i ≡ ok (x.0, x.1, i)) first
      (e' ∙ ap₂ (λ u j. ok (json_text texts u, u, j)) same (qw' cw))

pub reset-Extends : (v w : Val) → Extends v w → reset_val w ≡ reset_val v
unfolding reset_val
reset-Extends _ _ (more_int h) = refl
reset-Extends _ _ (more_char h) = refl
reset-Extends _ _ (more_bool h) = refl
reset-Extends _ _ new_array = refl
reset-Extends _ _ (more_array x) = refl
reset-Extends _ _ new_string = refl
reset-Extends _ _ (more_string x) = refl

reset-fresh_of : (t : Ty) (k : TypeKind) → reset_val (fresh_of t k) ≡ fresh_of t k
unfolding reset_val fresh_of
reset-fresh_of t int = refl
reset-fresh_of t string = refl
reset-fresh_of t char = refl
reset-fresh_of t bool = refl
reset-fresh_of t arr = refl
reset-fresh_of t invalid = refl

pub reset-fresh : (t : Ty) → reset_val (fresh t) ≡ fresh t
unfolding fresh
reset-fresh t = reset-fresh_of t (get_current_type t)

-- The new symbol of a declared type is written, and a reset after that brings it back to what it was
-- when it was created, so that no test depends on the one before it.
pub reset-serialize :
    (rand : ℕ → ℕ) (texts : Texts) (t : Ty) (n : ℕ)
    → IsDeclared (view t)
    → (s : String) × (w : Val) × (m : ℕ) × (serialize rand texts (length (view t)) (fresh t) n
        ≡ ok (s, w, m))
      × (reset_val w ≡ fresh t)
reset-serialize rand texts t n d =
    let (w, m, e, fw, cw, xw, qw) =
      serialize-Written rand texts (length (view t)) (view t) (fresh t) n (fresh-Fits t d) d
        (omega arith) in
    (json_text texts w, w, m, e, reset-Extends (fresh t) w xw ∙ reset-fresh t)
