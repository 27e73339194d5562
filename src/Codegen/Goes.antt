-- ===== src/Codegen/Goes.antt =====
-- Where the code of a body leads with the branch behind it, and how a loop goes round
-- (src/CodegenVisitor.cpp).
use d_gen.Prelude.{
  ℕ, ◌+◌, ◌≡◌, ◌≢◌, refl, sym, ◌∙◌, subst, some, List, [], length, get_elem?, arith,
}
use d_gen.Ast.{ForHead, Stmts}
use d_gen.Semantics.Reach.{
  Machine, Signal, normal, broke, continued, returned, before, step, Rounds, done, again, skip,
  leave, finish, Exec,
}
use d_gen.Codegen.{
  Label, Code, Instr, br, cond_br, Ir, emit, set_insert_point, emit_asg, three_blocks, set_loop,
  close, open_for,
}
use d_gen.Codegen.Blocks.{Inside, Prefix-trans, emit-code_other, emit-longer, Frame-emit_asg}
use d_gen.Codegen.Lay.{emit_asg-next}
use d_gen.Codegen.Run.{Config, at, halted, Step, Steps, stay, go, ◌then_steps◌, target}
use d_gen.Codegen.Run
use d_gen.Codegen.Moves.{Ext, spot, emit-found, emit-br-Steps, emit_asg-Steps, close-Steps}

module _ {S : Type 0} (m : Machine S) (c : Code) where
  abbrev pub Goes : Config S → Signal → S → Label × Label → Label → ℕ → Type 0
  Goes x g s ls l n = Steps m c x (target ls.0 ls.1 l n g s)

  -- Where a body goes that a branch to `k` ends.
  pub Goes-close :
      (x : Config S) (g : Signal) (s : S) (ls : Label × Label) (l k : Label) (n : ℕ)
      → Goes x g s ls l n
      → (g ≡ normal → Steps m c (at l n s) (at k 0 s))
      → Goes x g s ls k 0
  Goes-close x normal s ls l k n p q = p then_steps q refl
  Goes-close x broke s ls l k n p q = p
  Goes-close x continued s ls l k n p q = p
  Goes-close x returned s ls l k n p q = p

  pub Goes-end :
      (x : Config S) (g : Signal) (s : S) (ls : Label × Label) (k : Label) (b : Ir)
      → b.code k ≡ []
      → Goes x g s ls k 0
      → Goes x g s ls
          (set_insert_point k b).here
          (length ((set_insert_point k b).code (set_insert_point k b).here))
  unfolding set_insert_point
  Goes-end x g s ls k b e p = subst (λ (l : List Instr). Goes x g s ls k (length l)) (sym e) p

  pub Goes-start :
      (g : Signal) (s s' : S) (ls : Label × Label) (l : Label) (n : ℕ) (b : Ir)
      → b.code b.here ≡ []
      → Goes (spot b s) g s' ls l n
      → Goes (at b.here 0 s) g s' ls l n
  Goes-start g s s' ls l n b e p =
      subst (λ (is : List Instr). Goes (at b.here (length is) s) g s' ls l n) e p

  -- A body with the branch behind it, from the start of its block on.
  pub Goes-branch :
      (ls : Label × Label) (t : Stmts) (k : Label) (b b' : Ir) (g : Signal) (s s' : S)
      → b.code b.here ≡ []
      → Ext (close k t b') c
      → Exec m t s g s'
      → Goes (spot b s) g s' ls b'.here (length (b'.code b'.here))
      → Goes (at b.here 0 s) g s' ls k 0
  Goes-branch ls t k b b' g s s' e ext d p =
      Goes-close _ g s' ls b'.here k _ (Goes-start g s s' ls b'.here _ b e p)
        λ q. close-Steps m c k t b' s s' ext (subst (λ (k : Signal). Exec m t s k s') q d)

  pub Goes-stop :
      (x : Config S) (g : Signal) (s : S) (ls : Label × Label) (l k : Label) (n j : ℕ)
      → g ≢ normal
      → Goes x g s ls l n
      → Goes x g s ls k j
  Goes-stop x normal s ls l k n j ne p = absurd (ne refl)
  Goes-stop x broke s ls l k n j ne p = p
  Goes-stop x continued s ls l k n j ne p = p
  Goes-stop x returned s ls l k n j ne p = p

  -- Where the body of a loop goes, with the assignment and the branch behind it.
  pub Goes-round :
      (x : Config S) (g : Signal) (s : S) (cond merge l : Label) (n : ℕ) (h : ForHead)
      → Goes x g s (cond, merge) l n
      → (g ≡ normal → Steps m c (at l n s) (at cond 0 (step m h s)))
      → Steps m c x (target cond merge cond 0 g (elim g [ normal ↦ step m h s | _ ↦ s ]))
  Goes-round x normal s cond merge l n h p q = p then_steps q refl
  Goes-round x broke s cond merge l n h p q = p
  Goes-round x continued s cond merge l n h p q = p
  Goes-round x returned s cond merge l n h p q = p

  -- An assignment before a loop, and the branch to its condition.
  pub open_for-Steps :
      (f : ForHead) (b : Ir) {h : Label} {n : ℕ}
      → Inside h n b
      → (s : S) → Ext (open_for f b) c
      → Steps m c (spot b s) (at b.next 0 (before m f s))
        × (get_elem? (c b.next) 0 ≡ some (cond_br f.precond f.cond (b.next + 1) (b.next + 2)))
  unfolding open_for set_insert_point set_loop three_blocks
  open_for-Steps f b p s ext =
      let q = Frame-emit_asg f.pre_asg p in
      let b₀ = set_loop f.addr b.next (b.next + 2) (three_blocks (emit_asg f.pre_asg b)) in
      let b₁ = set_insert_point b.next (emit (br b.next) b₀) in
      let test = cond_br f.precond f.cond (b.next + 1) (b.next + 2) in
      let ext₁ : Ext b₁ c = λ l. Prefix-trans _ (emit-longer test b₁ l) (ext l) in
      let empty : b₁.code b.next ≡ [] =
        emit-code_other (br b.next) b₀ b.next
          (λ e. omega (arith, e, q.inside.lt, emit_asg-next f.pre_asg b))
        ∙ q.inside.fresh b.next (omega (arith, emit_asg-next f.pre_asg b)) in
      (
        emit_asg-Steps m c f.pre_asg b s
              (λ l. Prefix-trans _ (emit-longer (br b.next) b₀ l) (ext₁ l))
            then_steps emit-br-Steps m c b.next b₀ (before m f s) ext₁,
        subst (λ (is : List Instr). get_elem? (c b.next) (length is) ≡ some test) empty
            (emit-found test b₁ c ext),
      )

  -- The rounds of a loop whose condition stands at the start of block `cond`.
  pub Rounds-Steps :
      (cond body merge : Label) (ls : Label × Label) (h : ForHead) (t : Stmts)
      → get_elem? (c cond) 0 ≡ some (cond_br h.precond h.cond body merge)
      → ((s s' : S) (g : Signal)
          → Exec m t s g s'
          → Steps m c
              (at body 0 s)
              (target cond merge cond 0 g (elim g [ normal ↦ step m h s' | _ ↦ s' ])))
      → (s s' : S) (g : Signal) → Rounds m h t s g s'
      → Goes (at cond 0 s) g s' ls merge 0
  Rounds-Steps cond body merge ls h t test run s _ _ (done p) = go (Run.passes test p) stay
  Rounds-Steps cond body merge ls h t test run s s' g (again p d r) =
      go (Run.takes test p) (run _ _ normal d)
      then_steps Rounds-Steps cond body merge ls h t test run _ s' g r
  Rounds-Steps cond body merge ls h t test run s s' g (skip p d r) =
      go (Run.takes test p) (run _ _ continued d)
      then_steps Rounds-Steps cond body merge ls h t test run _ s' g r
  Rounds-Steps cond body merge ls h t test run s _ _ (leave p d) =
      go (Run.takes test p) (run _ _ broke d)
  Rounds-Steps cond body merge ls h t test run s _ _ (finish p d) =
      go (Run.takes test p) (run _ _ returned d)
