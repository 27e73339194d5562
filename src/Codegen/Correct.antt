-- ===== src/Codegen/Correct.antt =====
-- The blocks that the visitor emits for a function run as its body does (src/CodegenVisitor.cpp).
use d_gen.Prelude.{◌≡◌, refl, subst, ◌⊎◌, inr, none, inl, length, arith}
use d_gen.Errors.{ok}
use d_gen.Ast.{
  ForHead, Stmt, if_node, if_else_node, for_node, def_node, continue_node, break_node, return_node,
  asg_node, Stmts, end, ◌⨾◌, FunctionNode,
}
use d_gen.Ast.Loops.{LoopsApart}
use d_gen.Semantics.Loops.Connect.{ConnectedStmt, Connected}
use d_gen.Semantics.Reach.{
  Machine, Signal, normal, broke, continued, returned, ExecStmt, defines, assigns, continues,
  breaks, returns, if_true, if_false, then_branch, else_branch, loops, Rounds, done, again, skip,
  leave, finish, Exec, falls, next, stop,
}
use d_gen.Codegen.{Ir, new_ir, gen_function}
use d_gen.Codegen.Blocks.{Inside, Prefix-refl}
use d_gen.Codegen.Lay.{lay_body, gen_body-lay}
use d_gen.Codegen.Moves.{spot}
use d_gen.Codegen.Run.{Config, at, halted, Steps, target}
use d_gen.Codegen.Sim.{lay_body-Steps}

pub new_ir-Inside : Inside 0 1 new_ir
new_ir-Inside = record {
  own = inl refl;
  low = omega arith;
  lt = omega arith;
  le = omega arith;
  fresh = λ l le. refl;
}

-- A jump outside of loops is not connected, so its labels do not matter.
pub gen_function-lay :
    (f : FunctionNode)
    → Connected none f.body
    → LoopsApart f.body
    → gen_function f ≡ ok (lay_body (0, 0) f.body new_ir)
unfolding gen_function
gen_function-lay f c apart = gen_body-lay none (0, 0) f.body new_ir c apart (λ a e. cc) tt

module _ {S : Type 0} {m : Machine S} where
  -- A loop hands on no jump of its own.
  Rounds-signal :
      {h : ForHead} {b : Stmts} {s s' : S} {g : Signal}
      → Rounds m h b s g s'
      → (g ≡ normal) ⊎ (g ≡ returned)
  Rounds-signal (done p) = inl refl
  Rounds-signal (again p d r) = Rounds-signal r
  Rounds-signal (skip p d r) = Rounds-signal r
  Rounds-signal (leave p d) = inl refl
  Rounds-signal (finish p d) = inr refl

  mutual
    ExecStmt-signal :
        (t : Stmt) {s s' : S} {g : Signal}
        → ConnectedStmt none t
        → ExecStmt m t s g s'
        → (g ≡ normal) ⊎ (g ≡ returned)
    ExecStmt-signal (def_node d) c defines = inl refl
    ExecStmt-signal (asg_node a) c assigns = inl refl
    ExecStmt-signal (continue_node p l) c continues = absurd (c.1 refl)
    ExecStmt-signal (break_node p l) c breaks = absurd (c.1 refl)
    ExecStmt-signal (return_node p e) c returns = inr refl
    ExecStmt-signal (if_node h b) c (if_true p d) = Exec-signal b c d
    ExecStmt-signal (if_node h b) c (if_false p) = inl refl
    ExecStmt-signal (if_else_node h b e) c (then_branch p d) = Exec-signal b c.0 d
    ExecStmt-signal (if_else_node h b e) c (else_branch p d) = Exec-signal e c.1 d
    ExecStmt-signal (for_node h b) c (loops r) = Rounds-signal r

    -- A body in which each jump is in a loop reaches its end or returns.
    Exec-signal :
        (t : Stmts) {s s' : S} {g : Signal}
        → Connected none t
        → Exec m t s g s'
        → (g ≡ normal) ⊎ (g ≡ returned)
    Exec-signal end c falls = inl refl
    Exec-signal (t ⨾ b) c (next d e) = Exec-signal b c.1 e
    Exec-signal (t ⨾ b) c (stop d ne) = ExecStmt-signal t c.0 d

-- Where the blocks of a function lead: out of it by a `ret`, or to the end of the block where the
-- visitor stands last, behind its last instruction.
abbrev pub outcome : {S : Type 0} → Ir → Signal → S → Config S
outcome b returned s = halted s
outcome b _ s = spot b s

outcome-target :
    {S : Type 0} (b : Ir) (g : Signal) (s : S)
    → (g ≡ normal) ⊎ (g ≡ returned)
    → target 0 0 b.here (length (b.code b.here)) g s ≡ outcome b g s
outcome-target b normal s h = refl
outcome-target b returned s h = refl
outcome-target b broke s h = elim h [ inl e ↦ cc | inr e ↦ cc ]
outcome-target b continued s h = elim h [ inl e ↦ cc | inr e ↦ cc ]

-- If each `continue` and each `break` of a function holds the address of the innermost loop around
-- it, and no loop has the address of a loop inside it, then the blocks are emitted. On every machine
-- they run from the start of the entry block as the body does: to a `ret`, in the same final state,
-- if the body returns; and otherwise to the end of the block where the visitor stands last, behind
-- its last instruction.
pub gen_function-Steps :
    (f : FunctionNode)
    → Connected none f.body
    → LoopsApart f.body
    → {S : Type 0} (m : Machine S) (s s' : S) (g : Signal) → Exec m f.body s g s'
    → (b : Ir) × (gen_function f ≡ ok b) × Steps m b.code (at 0 0 s) (outcome b g s')
gen_function-Steps f c apart m s s' g d =
    let b = lay_body (0, 0) f.body new_ir in
    (
      b,
      gen_function-lay f c apart,
      subst (λ (x : Config _). Steps m b.code (at 0 0 s) x)
          (outcome-target b g s' (Exec-signal f.body c d))
          (lay_body-Steps m b.code (0, 0) f.body new_ir new_ir-Inside (λ l. Prefix-refl _) s s' g
            d),
    )
