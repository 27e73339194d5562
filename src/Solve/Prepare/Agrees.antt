-- ===== src/Solve/Prepare/Agrees.antt =====
-- What gen_expr (src/CodegenZ3Visitor.cpp) reads of the running program.
use d_gen.Prelude.{
  ℕ, ◌≡◌, refl, ◌∙◌, ap, Bool, true, false, none, some, Option, List, [], ◌∷◌, ◌++◌, ℤ, String,
  if◌then◌else◌, pos, eqb_ℤ,
}
use d_gen.Errors.{Position, Outcome, ok, err, crash}
use d_gen.Types.{Ty, TypeKind, int, string, char, bool, arr, invalid, get_current_type}
use d_gen.Ast.{
  Symbol, IdentNode, Expr, char_node, string_node, number_node, bool_node, ident_node, bin_op_node,
  arr_lookup_node, arr_create_node, property_lookup_node, Exprs,
}
use d_gen.Ast.Typing.{arr_lookup_type}
use d_gen.Values.{Val, null_sym, number_sym, char_sym, bool_sym, array_sym, string_sym}
use d_gen.Solve.{
  get_expr_from_void, operation, gen_symbol, gen_element, gen_typed, gen_arr_lookup, gen_len,
  local_len, gen_property, gen_expr,
}
use d_gen.Solve.Setting.{Z3, Running, State, Result, done, or_throw, ◌>>=◌}
use d_gen.Solve.Prepare.Wants.{
  Want, addr_of, current_ptr_of, current_idxs_of, reads_ident, reads_lookup, reads,
}
use mathlib.Core.Path.{fun_ext}

-- Two programs that have the same numbers in memory.
pub record SameMemory (env other : Running) : Type 0 where
  pub ints : (p : ℕ) → env.int32_at p ≡ other.int32_at p
  pub chars : (p : ℕ) → env.int8_at p ≡ other.int8_at p
  pub sizes : (p : ℕ) → env.size_at p ≡ other.size_at p

abbrev pub Agree : Running → Running → Want → Type 0
Agree env other (addr_of a) = env.alloca a ≡ other.alloca a
Agree env other (current_ptr_of p i es) = env.current_ptr p i es ≡ other.current_ptr p i es
Agree env other (current_idxs_of p i es) = env.current_idxs p i es ≡ other.current_idxs p i es

abbrev pub AllAgree : Running → Running → List Want → Type 0
AllAgree env other [] = Unit
AllAgree env other (w ∷ ws) = Agree env other w × AllAgree env other ws

module _ {E : Type 0} (z : Z3 E) (rand : ℕ → ℕ) (number : ℤ → String) (env other : Running) where
  AllAgree-split :
      (ws vs : List Want)
      → AllAgree env other (ws ++ vs)
      → AllAgree env other ws × AllAgree env other vs
  AllAgree-split [] vs h = (tt, h)
  AllAgree-split (w ∷ ws) vs (h, hs) = let (k, l) = AllAgree-split ws vs hs in ((h, k), l)

  if_local :
      {A : Type 0} (b : Bool) (w : Want) (x y y' : A)
      → AllAgree env other (if b then [] else w ∷ [])
      → (Agree env other w → y ≡ y')
      → (if b then x else y) ≡ (if b then x else y')
  if_local true w x y y' h f = refl
  if_local false w x y y' h f = f h.0

  if_either :
      {A : Type 0} (b : Bool) (v w : Want) (x x' y y' : A)
      → AllAgree env other (if b then v ∷ [] else w ∷ [])
      → (Agree env other v → x ≡ x')
      → (Agree env other w → y ≡ y')
      → (if b then x else y) ≡ (if b then x' else y')
  if_either true v w x x' y y' h f g = f h.0
  if_either false v w x x' y y' h f g = g h.0

  cell_same :
      (m : SameMemory env other) (p q : ℕ) (k : TypeKind)
      → p ≡ q
      → get_expr_from_void z env p k ≡ get_expr_from_void z other q k
  unfolding get_expr_from_void
  cell_same m p q int e = ap (λ v. done (z.int_val v)) (m.ints p ∙ ap other.int32_at e)
  cell_same m p q char e = ap (λ v. done (z.int_val v)) (m.chars p ∙ ap other.int8_at e)
  cell_same m p q bool e =
      ap (λ v. done (z.bool_val (if eqb_ℤ v (pos 0) then false else true)))
        (m.chars p ∙ ap other.int8_at e)
  cell_same m p q string e = refl
  cell_same m p q arr e = refl
  cell_same m p q invalid e = refl

  symbol_same :
      (m : SameMemory env other) (sm : Symbol) (s : State E)
      → AllAgree env other (reads_ident (some sm))
      → gen_symbol z rand number env sm s ≡ gen_symbol z rand number other sm s
  unfolding gen_symbol
  symbol_same m sm s h = if_local sm.is_input (addr_of sm.addr) _ _ _ h (λ e.
      ap (λ r. r >>= λ t. done (t, s))
        (cell_same m (env.alloca sm.addr) (other.alloca sm.addr) (get_current_type sm.type) e))

  element_same :
      (sm : Symbol) (is : List ℤ) (s : State E)
      → gen_element z rand number env sm is s ≡ gen_element z rand number other sm is s
  unfolding gen_element
  element_same sm [] s = refl
  element_same sm (i ∷ is) s = refl

  typed_same :
      (m : SameMemory env other) (p q : ℕ) (o : Outcome Ty) (s : State E)
      → p ≡ q
      → gen_typed z rand number env p o s ≡ gen_typed z rand number other q o s
  unfolding gen_typed
  typed_same m p q (ok t) s e =
      ap (λ r. r >>= λ u. done (u, s)) (cell_same m p q (get_current_type t) e)
  typed_same m p q (err _) s e = refl
  typed_same m p q crash s e = refl

  lookup_same :
      (m : SameMemory env other) (p : Position) (i : IdentNode) (es : Exprs) (sm : Symbol)
      (s : State E)
      → AllAgree env other (reads_lookup p i es (some sm))
      → gen_arr_lookup z rand number env p i es sm s
        ≡ gen_arr_lookup z rand number other p i es sm s
  unfolding gen_arr_lookup
  lookup_same m p i es sm s h =
      if_either sm.is_input (current_idxs_of p i es) (current_ptr_of p i es) _ _ _ _ h
        (λ e.
          ap (λ is. gen_element z rand number env sm is s) e
          ∙ element_same sm (other.current_idxs p i es) s)
        (λ e.
          typed_same m (env.current_ptr p i es) (other.current_ptr p i es) (arr_lookup_type p i es)
            s e)

  len_same :
      (sm : Symbol) (v : Val) (s : State E)
      → gen_len z rand number env sm v s ≡ gen_len z rand number other sm v s
  unfolding gen_len
  len_same sm null_sym s = refl
  len_same sm (number_sym _) s = refl
  len_same sm (char_sym _) s = refl
  len_same sm (bool_sym _) s = refl
  len_same sm (array_sym _ none _) s = refl
  len_same sm (array_sym _ (some n) _) s = refl
  len_same sm (string_sym _ none _) s = refl
  len_same sm (string_sym _ (some n) _) s = refl

  size_same :
      (m : SameMemory env other) (sm : Symbol) (k : TypeKind) (s : State E)
      → env.alloca sm.addr ≡ other.alloca sm.addr
      → local_len z rand number env sm k s ≡ local_len z rand number other sm k s
  unfolding local_len
  size_same m sm arr s e =
      ap (λ n. done (z.int_val (pos n), s)) (m.sizes (env.alloca sm.addr) ∙ ap other.size_at e)
  size_same m sm string s e =
      ap (λ n. done (z.int_val (pos n), s)) (m.sizes (env.alloca sm.addr) ∙ ap other.size_at e)
  size_same m sm int s e = refl
  size_same m sm char s e = refl
  size_same m sm bool s e = refl
  size_same m sm invalid s e = refl

  property_same :
      (m : SameMemory env other) (sm : Symbol) (s : State E)
      → AllAgree env other (reads_ident (some sm))
      → gen_property z rand number env sm s ≡ gen_property z rand number other sm s
  unfolding gen_property
  property_same m sm s h =
      ap
        (λ x.
          if sm.is_input then x else local_len z rand number env sm (get_current_type sm.type) s)
        (len_same sm (s.store sm.addr) s)
      ∙ if_local sm.is_input (addr_of sm.addr) _ _ _ h
          (λ e. size_same m sm (get_current_type sm.type) s e)

  of_symbol :
      (o : Option Symbol) (ws : Option Symbol → List Want) (f g : Symbol → Result (E × State E))
      → AllAgree env other (ws o)
      → ((sm : Symbol) → AllAgree env other (ws (some sm)) → f sm ≡ g sm)
      → ◌≡◌ {A = Result (E × State E)}
          (elim o [ none ↦ Result.crashed | some sm ↦ f sm ])
          (elim o [ none ↦ Result.crashed | some sm ↦ g sm ])
  of_symbol none ws f g h each = refl
  of_symbol (some sm) ws f g h each = each sm h

  -- The translation of a condition depends on no more of the running program than its memory, and what
  -- `reads` lists of its nodes.
  pub gen_expr_agrees :
      (m : SameMemory env other) (e : Expr) (s : State E)
      → AllAgree env other (reads e)
      → gen_expr z rand number env e s ≡ gen_expr z rand number other e s
  unfolding gen_expr
  gen_expr_agrees m (char_node p c) s h = refl
  gen_expr_agrees m (string_node p c) s h = refl
  gen_expr_agrees m (number_node p c) s h = refl
  gen_expr_agrees m (bool_node p c) s h = refl
  gen_expr_agrees m (arr_create_node p t n) s h = refl
  gen_expr_agrees m (ident_node i) s h =
      of_symbol i.symbol reads_ident _ _ h (λ sm k. symbol_same m sm s k)
  gen_expr_agrees m (arr_lookup_node p i es) s h =
      of_symbol i.symbol (reads_lookup p i es) _ _ h (λ sm k. lookup_same m p i es sm s k)
  gen_expr_agrees m (property_lookup_node p i n) s h =
      of_symbol i.symbol reads_ident _ _ h (λ sm k. property_same m sm s k)
  gen_expr_agrees m (bin_op_node p o a b) s h =
      let (ha, hb) = AllAgree-split (reads a) (reads b) h in
      ap
        (λ r. r >>= λ l. gen_expr z rand number env b l.1 >>= λ k.
          or_throw (operation z o l.0 k.0) >>= λ t. done (t, k.1))
        (gen_expr_agrees m a s ha)
      ∙ ap
          (λ (f : State E → Result (E × State E)). gen_expr z rand number other a s >>= λ l.
            f l.1 >>= λ k. or_throw (operation z o l.0 k.0) >>= λ t. done (t, k.1))
          (fun_ext (λ s'. gen_expr_agrees m b s' hb))
