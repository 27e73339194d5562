-- ===== src/Lib.antt =====
-- A model of d_gen, the generator of test data: its compiler from the parse tree to the branches of the
-- emitted code, the values of the inputs and the loop over the tests.
--
-- include/d_gen/BuildError.h, include/d_gen/Position.h, src/utils/assert.h -> Errors.antt. A function
-- that may throw a BuildError returns an `Outcome`; `crash` is a failed ASSERT or a null pointer that
-- is dereferenced. Errors/Ends.antt and Errors/Passes.antt hold the rules to reason about outcomes.
--
-- src/type.h, src/type.cpp -> Types.antt: a type is a vector of kinds, outermost first, with the
-- position up to which it has been dropped. Types/View.antt tells each operation by the kinds left.
--
-- src/ast.h, src/ast.cpp -> Ast.antt with Ast/Ops.antt (operator tables), Ast/Build.antt (copies and
-- the desugaring of assignments) and Ast/Typing.antt (get_type). ASTNode* is one of two types, `Expr`
-- and `Stmt`, by the class of the node; visitChildren is the recursion of each visitor. A node is a
-- value: pointers between nodes (`loop`, `symbol`) are addresses in them.
--
-- src/SymbolTable.h, src/SymbolTable.cpp -> Scope.antt.
--
-- src/Semantics.h, src/Semantics.cpp -> Semantics.antt: Semantics/Loops.antt (connect_loops,
-- eliminate_unreachable_code), Semantics/Resolve.antt (type_ast), Semantics/Check.antt (type_check),
-- Semantics/FrontEnd.antt (their order in DGen::generate_json of src/DGen.cpp). Semantics/Reach.antt is
-- the meaning of statements that eliminate_unreachable_code is held to: branches as the code
-- generator emits them, over a machine that stands for expressions and assignments.
--
-- d_gen.g4 -> Grammar.antt: the parse trees, as ANTLR's parser gives them to the visitor.
--
-- src/ASTBuilderVisitor.cpp -> Builder.antt (expressions) and Builder/Program.antt (statements and
-- functions); a method is the function of its name, and a ForNode gets its address from a counter.
-- std::atoi is a parameter. Builder/Meaning.antt is what an expression means, told by its parse tree
-- and by its syntax tree.
--
-- src/CodegenVisitor.h, src/CodegenVisitor.cpp -> Codegen.antt: the blocks and branches that code_gen
-- emits, as explicit state of the builder. The instructions of an expression or an assignment are one
-- instruction there: no branch is among them. Codegen/Operands.antt has the instructions that they are,
-- with what they compute over a machine that stands for arithmetic and memory. Codegen/Run.antt says how blocks run, as LLVM
-- documents its branches, on the same machine as Semantics/Reach.antt. Codegen/Lay.antt is code_gen with
-- the loop's blocks given; Codegen/Blocks, Keeps, Shape, Moves, Goes and Sim.antt lead from there to
-- Codegen/Correct.antt. Codegen/Compile.antt composes the parts as DGen::generate_json does;
-- Codegen/Tidy.antt is about terminators, Codegen/Halts.antt about where the blocks end.
--
-- src/Symbol.h, src/Symbol.cpp -> Values.antt (generation, serialize, fill_val, reset_val) and
-- Values/Access.antt (get_symbol_by_idxs, get_val_arr). std::rand is a sequence of numbers with the number
-- of calls so far; std::to_string is a parameter. Values/Shape.antt says which values belong to a type.
--
-- Values/Memory.antt is what is copied to memory and read back (fill_dest, arr_rand_gen of
-- src/Symbol.cpp and gather_rec of src/DGen.cpp): a pointer is the block that it points to, and a block is
-- the writes to it with their offsets. Values/Memory/Reads.antt says what a read gives.
--
-- src/DGen.cpp -> Generate.antt (generate_json from std::srand on, gather_res, reset). The compiled
-- function is a parameter, with the text of its result.
--
-- Symbol::allocated_vals of src/Symbol.h -> Heap.antt, with create_arr, get_property and
-- set_global_ptr_size of src/CodegenVisitor.cpp and the freeing in DGen::reset of src/DGen.cpp. malloc is
-- a parameter, which sees the blocks that are live.
--
-- src/CodegenZ3Visitor.h, src/CodegenZ3Visitor.cpp -> Solve/Setting.antt (the fields, and Z3 and the
-- running program as records), Solve.antt (the overloads of gen_expr, with
-- Symbol::get_expr of src/Symbol.cpp) and Solve/Run.antt (start_z3_gen and the filling of the symbols). Z3
-- is a parameter: a record of the functions of z3++ that are called. What the running code has stored in
-- nodes and symbols before the call is another. Solve/Meaning.antt says what a condition means and what
-- the library documents; Solve/Prepare.antt is prepare_eval_ctx
-- with ASTNode::visitChildren of src/ast.cpp: the calls that are emitted before a condition.
-- Solve/Sight.antt is what is known of a value, Solve/Gather.antt what holds of
-- the registered symbols, Solve/Fill.antt is about the loop that fills them, and Solve/Start.antt about
-- the whole.
--
-- The front end recurs on the tree and needs no fuel. `serialize` makes the elements that it recurs on,
-- so it has fuel, as fill_dest has; a type has more kinds than its values are deep, and gather_inputs
-- gives that many.
--
-- tool/main.cpp -> Tool.antt: the arguments, up to the call of generate_json. A read behind the end of
-- an argument is a `crash`.
--
-- Not modelled: the parser (ANTLR generates it from d_gen.g4), the instructions of a `return`, the
-- printing of trees (debug output), the Z3 and LLVM libraries, the passes of LLVM that optimize the
-- emitted code, and the wrapping of the JIT compiler (src/DGenJIT.cpp). The instructions work on values
-- and places of a machine that is a parameter; addresses are in Heap.antt and Solve/Setting.antt only.
pub mod Prelude
pub mod Errors
pub mod Types
pub mod Ast
pub mod Scope
pub mod Grammar
pub mod Builder
pub mod Semantics
pub mod Solve
pub mod Heap
pub mod Codegen
pub mod Values
pub mod Generate
pub mod Tool
pub mod Examples
