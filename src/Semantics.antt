-- ===== src/Semantics.antt =====
-- src/Semantics.h and src/Semantics.cpp: the passes between the parser and the code generator.
pub mod Loops
pub mod Reach
pub mod Resolve
pub mod Check
pub mod FrontEnd
