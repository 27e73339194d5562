-- ===== src/Solve/Prepare/Wants.antt =====
-- What the translation of a condition reads of its nodes, and when calls of prepare_eval_ctx store it
-- (src/CodegenZ3Visitor.cpp).
use d_gen.Prelude.{
  ℕ, ◌≡◌, ◌⊎◌, inl, inr, none, some, Option, List, [], ◌∷◌, ◌++◌, length, if◌then◌else◌,
}
use d_gen.Errors.{Position, ok}
use d_gen.Ast.{
  Symbol, IdentNode, Expr, ident_node, bin_op_node, arr_lookup_node, property_lookup_node, Exprs,
}
use d_gen.Codegen.Blocks.{Prefix, Prefix-trans}
use d_gen.Codegen.Operands.{Operand, alloca, Op, gen_address, gen_idxs}
use d_gen.Solve.Prepare.{
  Call, upd_ident_addr, upd_arr_lookup_addr, upd_arr_idxs, z3_gen, Emitted, emit_call,
}

-- What gen_expr reads: `addr` of the symbol of a local variable, and the fields of a lookup.
pub data Want : Type 0 where
  addr_of : ℕ → Want
  current_ptr_of : Position → IdentNode → Exprs → Want
  current_idxs_of : Position → IdentNode → Exprs → Want

abbrev pub reads_ident : Option Symbol → List Want
reads_ident none = []
reads_ident (some s) = if s.is_input then [] else addr_of s.addr ∷ []

abbrev pub reads_lookup : Position → IdentNode → Exprs → Option Symbol → List Want
reads_lookup p i es none = []
reads_lookup p i es (some s) =
    if s.is_input then current_idxs_of p i es ∷ [] else current_ptr_of p i es ∷ []

-- The indices of a lookup are not translated.
abbrev pub reads : Expr → List Want
reads (ident_node i) = reads_ident i.symbol
reads (arr_lookup_node p i es) = reads_lookup p i es i.symbol
reads (property_lookup_node _ i _) = reads_ident i.symbol
reads (bin_op_node _ _ lhs rhs) = reads lhs ++ reads rhs
reads _ = []

abbrev pub pre_reads : Option Expr → List Want
pre_reads none = []
pre_reads (some e) = reads e

-- The operand `v` is the place with the indices `es` that the instructions of `out` compute which end
-- with its `n`-th.
abbrev pub IsPlaceOf : List Op → ℕ → IdentNode → Exprs → Operand → Type 0
IsPlaceOf out n i es v =
    (s : Symbol) × (i.symbol ≡ some s)
    × (from to : List Op) × (gen_address (alloca s.addr) es from ≡ ok (v, to))
    × (n ≡ length to)
    × Prefix to out

-- The operands `vs` are the values of the indices `es`, in their order, that the instructions of `out`
-- compute which end with its `n`-th.
abbrev pub AreIdxsOf : List Op → ℕ → Exprs → List Operand → Type 0
AreIdxsOf out n es vs =
    (from to : List Op) × (gen_idxs es from ≡ ok (vs, to)) × (n ≡ length to) × Prefix to out

-- The call, behind `n` of the instructions `out`, stores what is wanted: the place of the variable, or
-- in the field of this very node the place of the element or the values of the indices, as the
-- instructions that end there compute them.
abbrev pub Serves : List Op → ℕ → Call → Want → Type 0
Serves out n (upd_ident_addr a v) (addr_of b) = (a ≡ b) × (v ≡ alloca b)
Serves out n (upd_arr_lookup_addr p i es v) (current_ptr_of q j fs) =
    ((p ≡ q) × (i ≡ j) × (es ≡ fs)) × IsPlaceOf out n j fs v
Serves out n (upd_arr_idxs p i es vs) (current_idxs_of q j fs) =
    ((p ≡ q) × (i ≡ j) × (es ≡ fs)) × AreIdxsOf out n fs vs
Serves out n _ _ = ⊥

abbrev pub Served : List Op → List (ℕ × Call) → Want → Type 0
Served out [] w = ⊥
Served out ((n, c) ∷ cs) w = Serves out n c w ⊎ Served out cs w

abbrev pub AllServed : List Op → List (ℕ × Call) → List Want → Type 0
AllServed out cs [] = Unit
AllServed out cs (w ∷ ws) = Served out cs w × AllServed out cs ws

abbrev pub More : Emitted → Emitted → Type 0
More p q = (w : Want) → Served p.ops p.calls w → Served q.ops q.calls w

pub Serves-longer :
    (out more : List Op) (n : ℕ) (c : Call) (w : Want)
    → Prefix out more
    → Serves out n c w
    → Serves more n c w
Serves-longer out more n (upd_ident_addr a v) (addr_of b) x h = h
Serves-longer out more n (upd_ident_addr a v) (current_ptr_of q j fs) x h = absurd h
Serves-longer out more n (upd_ident_addr a v) (current_idxs_of q j fs) x h = absurd h
Serves-longer out more n (upd_arr_lookup_addr p i es v) (addr_of b) x h = absurd h
Serves-longer out more n (upd_arr_lookup_addr p i es v) (current_ptr_of q j fs) x
      (same, (s, e, from, to, g, l, pre)) =
    (same, (s, e, from, to, g, l, Prefix-trans to pre x))
Serves-longer out more n (upd_arr_lookup_addr p i es v) (current_idxs_of q j fs) x h = absurd h
Serves-longer out more n (upd_arr_idxs p i es vs) (addr_of b) x h = absurd h
Serves-longer out more n (upd_arr_idxs p i es vs) (current_ptr_of q j fs) x h = absurd h
Serves-longer out more n (upd_arr_idxs p i es vs) (current_idxs_of q j fs) x
      (same, (from, to, g, l, pre)) =
    (same, (from, to, g, l, Prefix-trans to pre x))
Serves-longer out more n (z3_gen a b) w x h = absurd h

pub Served-append :
    (out more : List Op) (cs ds : List (ℕ × Call)) (w : Want)
    → Prefix out more
    → Served out cs w
    → Served more (cs ++ ds) w
Served-append out more [] ds w x h = elim h [ ]
Served-append out more ((n, c) ∷ cs) ds w x (inl h) = inl (Serves-longer out more n c w x h)
Served-append out more ((n, c) ∷ cs) ds w x (inr h) = inr (Served-append out more cs ds w x h)

pub Served-last :
    (out : List Op) (cs : List (ℕ × Call)) (n : ℕ) (c : Call) (w : Want)
    → Serves out n c w
    → Served out (cs ++ (n, c) ∷ []) w
Served-last out [] n c w h = inl h
Served-last out ((m, d) ∷ cs) n c w h = inr (Served-last out cs n c w h)

pub AllServed-More :
    (p q : Emitted) (ws : List Want)
    → More p q
    → AllServed p.ops p.calls ws
    → AllServed q.ops q.calls ws
AllServed-More p q [] m h = tt
AllServed-More p q (w ∷ ws) m (h, hs) = (m w h, AllServed-More p q ws m hs)

pub AllServed-append :
    (out : List Op) (cs : List (ℕ × Call)) (ws vs : List Want)
    → AllServed out cs ws
    → AllServed out cs vs
    → AllServed out cs (ws ++ vs)
AllServed-append out cs [] vs h k = k
AllServed-append out cs (w ∷ ws) vs (h, hs) k = (h, AllServed-append out cs ws vs hs k)

-- A step that stores `ws` and keeps what is stored.
abbrev pub Stores : List Want → Emitted → Emitted → Type 0
Stores ws p q = AllServed q.ops q.calls ws × More p q

pub emit-Stores :
    (c : Call) (w : Want) (ops : List Op) (p : Emitted)
    → Prefix p.ops ops
    → Serves ops (length ops) c w
    → Stores (w ∷ []) p (emit_call c ops p)
emit-Stores c w ops p x h = (
  (Served-last ops p.calls (length ops) c w h, tt),
  λ v k. Served-append p.ops ops p.calls ((length ops, c) ∷ []) v x k,
)
