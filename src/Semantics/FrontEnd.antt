-- ===== src/Semantics/FrontEnd.antt =====
-- The passes in the order of DGen::generate_json (src/DGen.cpp), from the parsed function to the
-- one that the code generator reads.
pub mod Safe
pub mod Keeps
pub mod Apart
pub mod Ready
use d_gen.Prelude.{Option, List}
use d_gen.Errors.{Outcome, ok, ◌>>=◌, ◌>>◌}
use d_gen.Ast.{Symbol, FunctionNode}
use d_gen.Semantics.Loops.{connect_loops, eliminate_unreachable_code}
use d_gen.Semantics.Resolve.{type_ast}
use d_gen.Semantics.Check.{type_check}

unfoldable pub front_end : FunctionNode → Outcome (FunctionNode × List (Option Symbol))
front_end f = do
  g ← connect_loops f
  (h, inputs) ← type_ast g
  type_check h
  ok (eliminate_unreachable_code h, inputs)
