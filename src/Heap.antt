-- ===== src/Heap.antt =====
-- Symbol::allocated_vals (src/Symbol.h) and the callbacks of the emitted code that keep it: create_arr,
-- get_property and set_global_ptr_size (src/CodegenVisitor.cpp), the allocation of arr_rand_gen
-- (src/Symbol.cpp), and DGen::reset (src/DGen.cpp). malloc is the parameter `malloc`.
pub mod Free
pub mod Sound
use d_gen.Prelude.{
  ℕ, ◌+◌, ◌*◌, ◌%◌, ◌^◌, Bool, true, false, Option, none, some, List, [], ◌∷◌, ℤ, pos, negsuc, ◌==◌,
  if◌then◌else◌,
}

-- Symbol::alloc_data
pub record AllocData : Type 0 where
  pub is_alloc : Bool
  pub size : ℕ

-- `live` has the blocks that malloc has given and that are not yet freed, `vals` is `allocated_vals`.
pub record Heap : Type 0 where
  pub live : List ℕ
  pub vals : List (ℕ × AllocData)

abbrev pub empty_heap : Heap
empty_heap = record { live = []; vals = [] }

-- allocated_vals[p] = a
unfoldable pub set_val : ℕ → AllocData → List (ℕ × AllocData) → List (ℕ × AllocData)
set_val p a [] = (p, a) ∷ []
set_val p a ((q, b) ∷ l) = if p == q then (p, a) ∷ l else (q, b) ∷ set_val p a l

unfoldable pub find_val : ℕ → List (ℕ × AllocData) → Option AllocData
find_val p [] = none
find_val p ((q, b) ∷ l) = if p == q then some b else find_val p l

-- `allocated_vals[p].size`; operator[] adds an entry where there is none.
unfoldable pub size_at : ℕ → Heap → ℕ × Heap
size_at p h = elim (find_val p h.vals) [
  | some a ↦ (a.size, h)
  | none ↦ (0, record h { vals = set_val p (record { is_alloc = false; size = 0 }) h.vals })
]

-- free, where none stands for a block that is not live
unfoldable pub free : ℕ → List ℕ → Option (List ℕ)
free p [] = none
free p (q ∷ l) =
    let rest = free p l in
    if p == q then some l else elim rest [ none ↦ none | some k ↦ some (q ∷ k) ]

-- DGen::reset, but for the inputs
unfoldable pub free_all : List (ℕ × AllocData) → List ℕ → Option (List ℕ)
free_all [] live = some live
free_all ((p, a) ∷ l) live = elim (if a.is_alloc then free p live else some live) [
  | none ↦ none
  | some rest ↦ free_all l rest
]

unfoldable pub reset_heap : Heap → Option Heap
reset_heap h = elim (free_all h.vals h.live) [
  | none ↦ none
  | some live ↦ some (record { live = live; vals = [] })
]

module _ (malloc : List ℕ → ℕ → ℕ) where
  -- malloc(size * pointed_sizeof), computed on uint32_t, and the entry for it
  unfoldable pub new_block : ℕ → ℕ → Heap → ℕ × Heap
  new_block size pointed_sizeof h =
      let p = malloc h.live (size * pointed_sizeof % 2 ^ 32) in
      (
        p,
        record {
          live = p ∷ h.live;
          vals = set_val p (record { is_alloc = true; size = size }) h.vals;
        },
      )

  -- `none` is the std::runtime_error of a negative length.
  unfoldable pub create_arr : ℤ → ℕ → Heap → Option (ℕ × Heap)
  create_arr (negsuc n) pointed_sizeof h = none
  create_arr (pos len) pointed_sizeof h = some (new_block len pointed_sizeof h)

-- `length` is strlen(str).
unfoldable pub set_global_ptr_size : ℕ → ℕ → Heap → Heap
set_global_ptr_size str length h = record h {
  vals = set_val str (record { is_alloc = false; size = length }) h.vals;
}

-- The calls of one run of the compiled function, in any order. `draw_arr` is the allocation of
-- arr_rand_gen, and `get_property` the branch for a local variable.
pub data HeapCall : Type 0 where
  create : ℤ → ℕ → HeapCall
  draw_arr : ℕ → ℕ → HeapCall
  global_text : ℕ → ℕ → HeapCall
  get_property : ℕ → HeapCall

module _ (malloc : List ℕ → ℕ → ℕ) where
  unfoldable pub heap_call : HeapCall → Heap → Option Heap
  heap_call (create len k) h = elim (create_arr malloc len k h) [ none ↦ none | some r ↦ some r.1 ]
  heap_call (draw_arr size k) h = some (new_block malloc size k h).1
  heap_call (global_text str length) h = some (set_global_ptr_size str length h)
  heap_call (get_property p) h = some (size_at p h).1

  -- A run ends early where create_arr throws.
  unfoldable pub heap_run : List HeapCall → Heap → Heap
  heap_run [] h = h
  heap_run (c ∷ cs) h = elim (heap_call c h) [ none ↦ h | some h' ↦ heap_run cs h' ]
