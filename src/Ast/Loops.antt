-- ===== src/Ast/Loops.antt =====
-- The addresses of the loops of a tree (class ForNode of src/ast.h): a `continue` or a `break` refers to
-- its loop by address.
use d_gen.Prelude.{ℕ, ◌≤◌, ◌<◌, arith}
use d_gen.Ast.{
  Stmt, if_node, if_else_node, for_node, def_node, continue_node, break_node, return_node, asg_node,
  Stmts, end, ◌⨾◌,
}

-- Every loop, at any depth, has an address below `a`.
abbrev mutual
  pub LoopBelow : ℕ → Stmt → Type 0
  LoopBelow a (for_node h b) = (h.addr < a) × LoopsBelow a b
  LoopBelow a (if_node h b) = LoopsBelow a b
  LoopBelow a (if_else_node h b e) = LoopsBelow a b × LoopsBelow a e
  LoopBelow a _ = Unit

  pub LoopsBelow : ℕ → Stmts → Type 0
  LoopsBelow a end = Unit
  LoopsBelow a (s ⨾ b) = LoopBelow a s × LoopsBelow a b

-- No loop has the address of a loop around it: the addresses grow outwards.
abbrev mutual
  pub LoopApart : Stmt → Type 0
  LoopApart (for_node h b) = LoopsBelow h.addr b × LoopsApart b
  LoopApart (if_node h b) = LoopsApart b
  LoopApart (if_else_node h b e) = LoopsApart b × LoopsApart e
  LoopApart _ = Unit

  pub LoopsApart : Stmts → Type 0
  LoopsApart end = Unit
  LoopsApart (s ⨾ b) = LoopApart s × LoopsApart b

mutual
  pub LoopBelow-le : (a c : ℕ) (s : Stmt) → a ≤ c → LoopBelow a s → LoopBelow c s
  LoopBelow-le a c (for_node h b) le (lt, below) = (omega arith, LoopsBelow-le a c b le below)
  LoopBelow-le a c (if_node h b) le below = LoopsBelow-le a c b le below
  LoopBelow-le a c (if_else_node h b e) le (below, below') =
      (LoopsBelow-le a c b le below, LoopsBelow-le a c e le below')
  LoopBelow-le a c (def_node d) le below = tt
  LoopBelow-le a c (asg_node d) le below = tt
  LoopBelow-le a c (continue_node p l) le below = tt
  LoopBelow-le a c (break_node p l) le below = tt
  LoopBelow-le a c (return_node p e) le below = tt

  pub LoopsBelow-le : (a c : ℕ) (b : Stmts) → a ≤ c → LoopsBelow a b → LoopsBelow c b
  LoopsBelow-le a c end le below = tt
  LoopsBelow-le a c (s ⨾ b) le (below, below') =
      (LoopBelow-le a c s le below, LoopsBelow-le a c b le below')
