-- ===== src/Codegen/Operands.antt =====
-- src/CodegenVisitor.cpp: the instructions that are emitted for expressions, definitions and assignments.
pub mod Runs
pub mod Steps
pub mod Elements
pub mod Right
pub mod Assign
pub mod Grow
use d_gen.Prelude.{
  ℕ, ℤ, Bool, true, false, not, ◌&&◌, Option, none, some, List, [], ◌∷◌, ◌++◌, String, length,
  if◌then◌else◌,
}
use d_gen.Errors.{Position, Outcome, ok, crash, ◌>>=◌}
use d_gen.Types.{
  TypeKind, int, string, char, bool, arr, invalid, Ty, kind_eq, get_current_type, eq_type,
  is_convertable_to,
}
use d_gen.Ast.{
  Symbol, IdentNode, BinOpType, Expr, char_node, string_node, number_node, bool_node, ident_node,
  bin_op_node, arr_lookup_node, arr_create_node, property_lookup_node, Exprs, nil, cons, AsgNode,
  DefNode,
}
use d_gen.Ast.Typing.{get_type, arr_lookup_type}
use d_gen.Values.{get_pointed_type_elem}
use d_gen.Values.Memory.{get_sizeof}

-- llvm::Value*: a constant, the `alloca` of a symbol by its address, or the result of an instruction by
-- the number of instructions before it.
pub data Operand : Type 0 where
  int8 : ℕ → Operand
  int32 : ℤ → Operand
  null_ptr : Operand
  alloca : ℕ → Operand
  register : ℕ → Operand

pub data Opcode : Type 0 where
  add sub mul sdiv or and icmp_slt icmp_sle icmp_sgt icmp_sge icmp_eq icmp_ne : Opcode

-- What the builder inserts. `string_ptr` is the pointer to a global text with the call of
-- set_global_ptr_size on it; `input`, `input_element` are what Symbol::code_gen and
-- ArraySym::code_gen_idx insert; `get_property` and `create_arr` are the calls of these functions.
pub data Op : Type 0 where
  string_ptr : String → Op
  bin : Opcode → Operand → Operand → Op
  load : Operand → Op
  gep : Operand → Operand → Op
  input : Symbol → Op
  input_element : Symbol → List Operand → Op
  get_property : Symbol → Operand → Op
  create_arr : Operand → ℕ → Op
  allocate : Symbol → Op
  int_cast : Ty → Operand → Op
  store : Operand → Operand → Op

-- The switch of code_gen(BinOpNode). `&&` and `||` are instructions on two values like the others.
unfoldable pub opcode : BinOpType → Opcode
opcode BinOpType.sum = add
opcode BinOpType.sub = sub
opcode BinOpType.mul = mul
opcode BinOpType.div = sdiv
opcode BinOpType.or = or
opcode BinOpType.and = and
opcode BinOpType.lt = icmp_slt
opcode BinOpType.le = icmp_sle
opcode BinOpType.gt = icmp_sgt
opcode BinOpType.ge = icmp_sge
opcode BinOpType.eq = icmp_eq
opcode BinOpType.neq = icmp_ne

unfoldable pub insert_op : Op → List Op → Outcome (Operand × List Op)
insert_op o ops = ok (register (length ops), ops ++ o ∷ [])

-- node->symbol, which is dereferenced
unfoldable pub symbol_of : IdentNode → Outcome Symbol
symbol_of i = elim i.symbol [ none ↦ crash | some s ↦ ok s ]

unfoldable pub gen_ident : Symbol → List Op → Outcome (Operand × List Op)
gen_ident s ops =
    if s.is_input then insert_op (input s) ops else insert_op (load (alloca s.addr)) ops

unfoldable pub gen_property : Symbol → List Op → Outcome (Operand × List Op)
gen_property s ops =
    if s.is_input
    then insert_op (get_property s null_ptr) ops
    else do (ptr, ops₁) ← insert_op (load (alloca s.addr)) ops; insert_op (get_property s ptr) ops₁

-- The ASSERT of Symbol::map_type_to_llvm_type on the last of the kinds of a type.
unfoldable pub check_scalar : List TypeKind → Outcome (Unit {0})
check_scalar [] = crash
check_scalar (int ∷ []) = ok tt
check_scalar (string ∷ []) = ok tt
check_scalar (char ∷ []) = ok tt
check_scalar (bool ∷ []) = ok tt
check_scalar (arr ∷ []) = crash
check_scalar (invalid ∷ []) = crash
check_scalar (_ ∷ k ∷ ks) = check_scalar (k ∷ ks)

unfoldable pub map_type_to_llvm_type : Ty → Outcome (Unit {0})
map_type_to_llvm_type t = check_scalar t.types

-- Whether create_symbol made an ArraySym of this type; a StringSym is one too.
unfoldable pub is_array_sym : Symbol → Bool
is_array_sym s = let k = get_current_type s.type in if kind_eq k arr then true else kind_eq k string

-- `arr_sym->code_gen_idx(idxs)` on the result of dynamic_pointer_cast<ArraySym>, which is a null pointer at
-- any other symbol. It drops an array of the type for each index, which leaves the last kind.
unfoldable pub code_gen_idx : Symbol → List Operand → List Op → Outcome (Operand × List Op)
code_gen_idx s vs ops =
    if is_array_sym s
    then (do _ ← map_type_to_llvm_type s.type; insert_op (input_element s vs) ops)
    else crash

-- code_gen(ArrLookupNode), with `is_input` of the symbol and what the loops over the indices give, of which
-- only one is used
unfoldable pub gen_lookup :
    Bool
    → Position
    → IdentNode
    → Exprs
    → Symbol
    → Outcome (Operand × List Op)
    → Outcome (List Operand × List Op)
    → Outcome (Operand × List Op)
gen_lookup false p i idxs s place elems = do
  t ← arr_lookup_type p i idxs
  _ ← map_type_to_llvm_type t
  (addr, ops₁) ← place
  insert_op (load addr) ops₁
gen_lookup true p i idxs s place elems = do (vs, ops₁) ← elems; code_gen_idx s vs ops₁

unfoldable mutual
  pub gen_expr : Expr → List Op → Outcome (Operand × List Op)
  gen_expr (bool_node _ b) ops = ok (int8 (if b then 1 else 0), ops)
  gen_expr (number_node _ z) ops = ok (int32 z, ops)
  gen_expr (char_node _ c) ops = ok (int8 c, ops)
  gen_expr (string_node _ s) ops = insert_op (string_ptr s) ops
  gen_expr (bin_op_node _ o l r) ops = do
    (lhs, ops₁) ← gen_expr l ops
    (rhs, ops₂) ← gen_expr r ops₁
    insert_op (bin (opcode o) lhs rhs) ops₂
  gen_expr (ident_node i) ops = do s ← symbol_of i; gen_ident s ops
  gen_expr (arr_lookup_node p i idxs) ops = do
    s ← symbol_of i
    gen_lookup s.is_input p i idxs s (gen_address (alloca s.addr) idxs ops) (gen_idxs idxs ops)
  gen_expr (property_lookup_node _ i _) ops = do s ← symbol_of i; gen_property s ops
  gen_expr (arr_create_node _ t len) ops = do
    pointed_sizeof ← get_sizeof (get_pointed_type_elem t)
    (n, ops₁) ← gen_expr len ops
    insert_op (create_arr n pointed_sizeof) ops₁

  -- the loop of get_address over the indices
  pub gen_address : Operand → Exprs → List Op → Outcome (Operand × List Op)
  gen_address addr nil ops = ok (addr, ops)
  gen_address addr (cons idx idxs) ops = do
    (ptr, ops₁) ← insert_op (load addr) ops
    (n, ops₂) ← gen_expr idx ops₁
    (next, ops₃) ← insert_op (gep ptr n) ops₂
    gen_address next idxs ops₃

  -- the loop of code_gen(ArrLookupNode) over the indices
  pub gen_idxs : Exprs → List Op → Outcome (List Operand × List Op)
  gen_idxs nil ops = ok ([], ops)
  gen_idxs (cons idx idxs) ops = do
    (v, ops₁) ← gen_expr idx ops
    (vs, ops₂) ← gen_idxs idxs ops₁
    ok (v ∷ vs, ops₂)

-- `alloca` of the symbol, which is a null pointer at an input: neither a load nor a store can use it.
unfoldable pub alloca_of : IdentNode → Outcome Operand
alloca_of i = do s ← symbol_of i; if s.is_input then crash else ok (alloca s.addr)

unfoldable pub get_address : Expr → List Op → Outcome (Operand × List Op)
get_address (ident_node i) ops = do addr ← alloca_of i; ok (addr, ops)
get_address (arr_lookup_node _ i idxs) ops = do addr ← alloca_of i; gen_address addr idxs ops
get_address _ ops = crash

unfoldable pub convert_val_if_convertible :
    Operand → Ty → Ty → List Op → Outcome (Operand × List Op)
convert_val_if_convertible val src_t dest_t ops =
    if not (eq_type dest_t src_t) && is_convertable_to src_t dest_t
    then insert_op (int_cast dest_t val) ops
    else ok (val, ops)

-- The store that ends a definition or an assignment.
unfoldable pub gen_store : Operand → Ty → Ty → Operand → List Op → Outcome (List Op)
gen_store v src_t dest_t addr ops = do
  (w, ops₁) ← convert_val_if_convertible v src_t dest_t ops
  (_, ops₂) ← insert_op (store w addr) ops₁
  ok ops₂

-- code_gen(DefNode), with Symbol::create_alloca
unfoldable pub gen_def : DefNode → List Op → Outcome (List Op)
gen_def d ops = elim d.sym [
  | none ↦ crash
  | some s ↦ do
    _ ← map_type_to_llvm_type s.type
    (_, ops₁) ← insert_op (allocate s) ops
    elim d.rhs [
      | none ↦ ok ops₁
      | some rhs ↦ do
        (v, ops₂) ← gen_expr rhs ops₁
        rhs_t ← get_type rhs
        gen_store v rhs_t d.type (alloca s.addr) ops₂
    ]
]

-- code_gen(AsgNode)
unfoldable pub gen_asg : AsgNode → List Op → Outcome (List Op)
gen_asg a ops = do
  (addr, ops₁) ← get_address a.lhs ops
  (v, ops₂) ← gen_expr a.rhs ops₁
  rhs_t ← get_type a.rhs
  lhs_t ← get_type a.lhs
  gen_store v rhs_t lhs_t addr ops₂
