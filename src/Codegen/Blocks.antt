-- ===== src/Codegen/Blocks.antt =====
-- The blocks that code_gen of a statement leaves, with the labels of the loop around it given
-- (src/CodegenVisitor.cpp), and the blocks that it may change.
use mathlib.Core.List.{append_assoc, append-nil}
use d_gen.Prelude.{
  ℕ, ◌≤◌, ◌<◌, ◌≡◌, ◌≢◌, refl, sym, ◌∙◌, ap, ◌⊎◌, inl, inr, Option, none, some, List, [], ◌∷◌, ◌++◌,
  ◌==◌, ==_iff, arith, Bool-cases,
}
use d_gen.Ast.{AsgNode, ForHead, Stmts}
use d_gen.Codegen.{
  Label, Instr, assign, br, Ir, emit, set_insert_point, emit_asg, is_last_stmt_br, close, close_for,
}

-- What is inserted later into a block stands behind what it holds.
abbrev pub Prefix {ℓ} : {A : Type ℓ} → List A → List A → Type ℓ
Prefix {A = A} xs ys = (rest : List A) × (xs ++ rest ≡ ys)

pub Prefix-refl {ℓ} : {A : Type ℓ} (xs : List A) → Prefix xs xs
Prefix-refl xs = ([], append-nil xs)

pub Prefix-trans {ℓ} :
    {A : Type ℓ} (xs : List A) {ys zs : List A} → Prefix xs ys → Prefix ys zs → Prefix xs zs
Prefix-trans xs (r, e) (t, d) = (r ++ t, sym (append_assoc xs r t) ∙ ap (λ l. l ++ t) e ∙ d)

-- `h` and the blocks from `n` on are those that a statement may change.
pub record Inside (h : Label) (n : ℕ) (b : Ir) : Type 0 where
  pub own : (b.here ≡ h) ⊎ (n ≤ b.here)
  pub low : h < n
  pub lt : b.here < b.next
  pub le : n ≤ b.next
  pub fresh : (l : Label) → b.next ≤ l → b.code l ≡ []

pub record Frame (h : Label) (n : ℕ) (b b' : Ir) : Type 0 where
  pub inside : Inside h n b'
  pub grows : b.next ≤ b'.next
  pub kept : (l : Label) → l < n → l ≢ h → b'.code l ≡ b.code l
  pub longer : (l : Label) → Prefix (b.code l) (b'.code l)

pub emit-code_here : (i : Instr) (b : Ir) → (emit i b).code b.here ≡ b.code b.here ++ i ∷ []
unfolding emit
emit-code_here i b = rw ((==_iff b.here b.here).1 refl) refl

pub emit-code_other : (i : Instr) (b : Ir) (l : Label) → l ≢ b.here → (emit i b).code l ≡ b.code l
unfolding emit
emit-code_other i b l ne = elim (Bool-cases (l == b.here)) [
  | inl e ↦ absurd (ne ((==_iff l b.here).0 e))
  | inr e ↦ rw e refl
]

pub emit-longer : (i : Instr) (b : Ir) (l : Label) → Prefix (b.code l) ((emit i b).code l)
unfolding emit
emit-longer i b l = elim (Bool-cases (l == b.here)) [
  | inl e ↦ rw e (i ∷ [], refl)
  | inr e ↦ rw e (Prefix-refl _)
]

module _ {h : Label} {n : ℕ} where
  pub Frame-stay : {b : Ir} → Inside h n b → Frame h n b b
  Frame-stay {b} p = record {
    inside = p;
    grows = omega arith;
    kept = λ l lt ne. refl;
    longer = λ l. Prefix-refl _;
  }

  infixr 30 ◌then_frame◌
  pub ◌then_frame◌ : {b b' b'' : Ir} → Frame h n b b' → Frame h n b' b'' → Frame h n b b''
  p then_frame q = record {
    inside = q.inside;
    grows = omega (arith, p.grows, q.grows);
    kept = λ l lt ne. q.kept l lt ne ∙ p.kept l lt ne;
    longer = λ l. Prefix-trans _ (p.longer l) (q.longer l);
  }

  -- What a part may change belongs to the whole.
  pub Frame-of_part : {b b' : Ir} → Inside h n b → Frame b.here b.next b b' → Frame h n b b'
  Frame-of_part {b} {b'} p q = record {
    inside = record {
      own = elim q.inside.own [
        | inl e ↦ elim p.own [ inl d ↦ inl (e ∙ d) | inr d ↦ inr (omega (arith, d, e)) ]
        | inr g ↦ inr (omega (arith, g, p.le))
      ];
      low = p.low;
      lt = q.inside.lt;
      le = omega (arith, p.le, q.grows);
      fresh = q.inside.fresh;
    };
    grows = q.grows;
    kept = λ l lt ne.
        q.kept l (omega (arith, lt, p.le))
          λ e. elim p.own [ inl d ↦ ne (e ∙ d) | inr d ↦ absurd (omega (arith, d, e, lt)) ];
    longer = q.longer;
  }

  pub Frame-emit : (i : Instr) {b : Ir} → Inside h n b → Frame h n b (emit i b)
  unfolding emit
  Frame-emit i {b} p = record {
    inside = record {
      own = p.own;
      low = p.low;
      lt = p.lt;
      le = p.le;
      fresh =
          λ l le. emit-code_other i b l (λ e. absurd (omega (arith, e, p.lt, le))) ∙ p.fresh l le;
    };
    grows = omega arith;
    kept = λ l lt ne.
        emit-code_other i b l
          λ e. elim p.own [ inl d ↦ ne (e ∙ d) | inr d ↦ absurd (omega (arith, d, e, lt)) ];
    longer = emit-longer i b;
  }

  pub Frame-set_insert_point :
      (k : Label) {b : Ir} → Inside h n b → n ≤ k → k < b.next → Frame h n b (set_insert_point k b)
  unfolding set_insert_point
  Frame-set_insert_point k {b} p from to = record {
    inside = record { own = inr from; low = p.low; lt = to; le = p.le; fresh = p.fresh };
    grows = omega arith;
    kept = λ l lt ne. refl;
    longer = λ l. Prefix-refl _;
  }

  pub Frame-emit_asg : (o : Option AsgNode) {b : Ir} → Inside h n b → Frame h n b (emit_asg o b)
  unfolding emit_asg
  Frame-emit_asg none p = Frame-stay p
  Frame-emit_asg (some a) p = Frame-emit (assign a) p

  pub Frame-close : (k : Label) (t : Stmts) {b : Ir} → Inside h n b → Frame h n b (close k t b)
  unfolding close
  Frame-close k t p = elim (Bool-cases (is_last_stmt_br t)) [
    | inl e ↦ rw e (Frame-stay p)
    | inr e ↦ rw e (Frame-emit (br k) p)
  ]

  pub Frame-close_for :
      (f : ForHead) (k : Label) (t : Stmts) {b : Ir}
      → Inside h n b
      → Frame h n b (close_for f k t b)
  unfolding close_for
  Frame-close_for f k t p = elim (Bool-cases (is_last_stmt_br t)) [
    | inl e ↦ rw e (Frame-stay p)
    | inr e ↦ let q = Frame-emit_asg f.inc_asg p in rw e (q then_frame Frame-emit (br k) q.inside)
  ]

pub Inside-here : {h : Label} {n : ℕ} {b : Ir} → Inside h n b → Inside b.here b.next b
Inside-here {b = b} p = record {
  own = inl refl;
  low = p.lt;
  lt = p.lt;
  le = omega arith;
  fresh = p.fresh;
}
