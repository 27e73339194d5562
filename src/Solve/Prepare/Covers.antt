-- ===== src/Solve/Prepare/Covers.antt =====
-- What one call of prepare_eval_ctx stores in the nodes (src/CodegenZ3Visitor.cpp).
use d_gen.Prelude.{
  ◌≡◌, inl, inr, refl, ◌∙◌, sym, subst, Bool, true, false, none, some, Option, List, [], ◌∷◌, ◌++◌,
  length, if◌then◌else◌, Bool-cases,
}
use d_gen.Errors.{Position, Outcome, ok, crash, ◌>>=◌, >>=-eq-ok, ok_injective}
use d_gen.Ast.{Symbol, IdentNode, Exprs}
use d_gen.Codegen.Blocks.{Prefix-refl}
use d_gen.Codegen.Operands.{alloca, symbol_of, gen_address, gen_idxs}
use d_gen.Codegen.Operands.Grow.{gen_address-Prefix, gen_idxs-Prefix}
use d_gen.Solve.Prepare.{
  Call, upd_ident_addr, upd_arr_lookup_addr, upd_arr_idxs, Emitted, emit_call, prepare_ident,
  prepare_lookup, update_lookup, prepare_property,
}
use d_gen.Solve.Prepare.Wants.{
  Serves, Want, addr_of, current_ptr_of, current_idxs_of, reads_ident, reads_lookup, AllServed-More,
  AllServed-append, Stores, emit-Stores,
}

if_true : {A : Type 0} (b : Bool) (x y : A) → b ≡ true → (if b then x else y) ≡ x
if_true b x y e = rw e refl

if_false : {A : Type 0} (b : Bool) (x y : A) → b ≡ false → (if b then x else y) ≡ y
if_false b x y e = rw e refl

if_input :
    (b : Bool) (c : Call) (w : Want) (p q : Emitted)
    → Serves p.ops (length p.ops) c w
    → ok (if b then p else emit_call c p.ops p) ≡ ok q
    → Stores (if b then [] else w ∷ []) p q
if_input true c w p q s h = let e : p ≡ q = cc in rw (← e) (tt, λ v k. k)
if_input false c w p q s h =
    let e : emit_call c p.ops p ≡ q = cc in rw (← e) (emit-Stores c w p.ops p (Prefix-refl p.ops) s)

pub prepare_ident-Stores :
    (i : IdentNode) (p q : Emitted) → prepare_ident i p ≡ ok q → Stores (reads_ident i.symbol) p q
unfolding prepare_ident symbol_of
prepare_ident-Stores i p q h = of_symbol i.symbol h
  where
    of_symbol :
        (o : Option Symbol)
        → ◌>>=◌
            (elim o as (λ x. Outcome Symbol) [ none ↦ crash | some s ↦ ok s ])
            (λ s.
              ok (
                if s.is_input
                then p
                else emit_call (upd_ident_addr s.addr (alloca s.addr)) p.ops p))
          ≡ ok q
        → Stores (reads_ident o) p q
    of_symbol none e = cc
    of_symbol (some s) e =
        if_input s.is_input (upd_ident_addr s.addr (alloca s.addr)) (addr_of s.addr) p q
          (refl, refl) e

update_lookup-Stores :
    (b : Bool) (s : Symbol) (k : Position) (i : IdentNode) (es : Exprs) (p q : Emitted)
    → i.symbol ≡ some s
    → update_lookup b s.addr k i es p ≡ ok q
    → Stores (if b then current_idxs_of k i es ∷ [] else current_ptr_of k i es ∷ []) p q
unfolding update_lookup
update_lookup-Stores false s k i es p q is h =
    let ((addr, ops), e, h') = >>=-eq-ok (gen_address (alloca s.addr) es p.ops) _ h in
    let same : emit_call (upd_arr_lookup_addr k i es addr) ops p ≡ q = ok_injective h' in
    rw (← same) (
      emit-Stores (upd_arr_lookup_addr k i es addr) (current_ptr_of k i es) ops p
        (gen_address-Prefix (alloca s.addr) es p.ops addr ops e)
        ((refl, refl, refl), (s, is, p.ops, ops, e, refl, Prefix-refl ops)))
update_lookup-Stores true s k i es p q is h =
    let ((vs, ops), e, h') = >>=-eq-ok (gen_idxs es p.ops) _ h in
    let same : emit_call (upd_arr_idxs k i es vs) ops p ≡ q = ok_injective h' in
    rw (← same) (
      emit-Stores (upd_arr_idxs k i es vs) (current_idxs_of k i es) ops p
        (gen_idxs-Prefix es p.ops vs ops e)
        ((refl, refl, refl), (p.ops, ops, e, refl, Prefix-refl ops)))

-- A node without a symbol is refused.
symbol_inv : (i : IdentNode) (s : Symbol) → symbol_of i ≡ ok s → i.symbol ≡ some s
unfolding symbol_of
symbol_inv i s h = inv i.symbol h
  where
    inv :
        (o : Option Symbol)
        → elim o as (λ x. Outcome Symbol) [ none ↦ crash | some x ↦ ok x ] ≡ ok s
        → o ≡ some s
    inv none e = cc
    inv (some x) e = cc

pub prepare_lookup-Stores :
    (k : Position) (i : IdentNode) (es : Exprs) (p q : Emitted)
    → prepare_lookup k i es p ≡ ok q
    → Stores (reads_lookup k i es i.symbol) p q
unfolding prepare_lookup
prepare_lookup-Stores k i es p q h =
    let (s, e, h') = >>=-eq-ok (symbol_of i) _ h in
    subst (λ o. Stores (reads_lookup k i es o) p q) (sym (symbol_inv i s e))
      (update_lookup-Stores s.is_input s k i es p q (symbol_inv i s e) h')

pub Stores-same : (p q : Emitted) → p ≡ q → Stores [] p q
Stores-same p q e = rw (← e) (tt, λ w h. h)

pub prepare_property-Stores :
    (i : IdentNode) (p q : Emitted)
    → prepare_property i p ≡ ok q
    → Stores (reads_ident i.symbol) p q
unfolding prepare_property
prepare_property-Stores i p q h =
    let (s, e, h') = >>=-eq-ok (symbol_of i) _ h in
    subst (λ o. Stores (reads_ident o) p q) (sym (symbol_inv i s e))
      (elim (Bool-cases s.is_input) [
        | inl isin ↦
            let same : ok p ≡ ok q =
              sym (if_true s.is_input (ok p) (prepare_ident i p) isin) ∙ h' in
            subst (λ ws. Stores ws p q) (sym (if_true s.is_input [] (addr_of s.addr ∷ []) isin))
              (Stores-same p q (ok_injective same))
        | inr local ↦
            subst (λ o. Stores (reads_ident o) p q) (symbol_inv i s e)
              (prepare_ident-Stores i p q
                (sym (if_false s.is_input (ok p) (prepare_ident i p) local) ∙ h'))
      ])

pub Stores-then :
    (ws vs : List Want) (p q r : Emitted) → Stores ws p q → Stores vs q r → Stores (ws ++ vs) p r
Stores-then ws vs p q r (h, m) (k, n) =
    (AllServed-append r.ops r.calls ws vs (AllServed-More q r ws n h) k, λ w s. n w (m w s))

pub Stores-keep :
    (ws vs : List Want) (p q r : Emitted) → Stores ws p q → Stores vs q r → Stores ws p r
Stores-keep ws vs p q r (h, m) (k, n) = (AllServed-More q r ws n h, λ w s. n w (m w s))

pub Stores-none : (ws : List Want) (p q : Emitted) → Stores ws p q → Stores [] p q
Stores-none ws p q (h, m) = (tt, m)
