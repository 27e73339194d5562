-- ===== src/Examples/Allocating.antt =====
-- Runs of the allocations of the emitted code (src/CodegenVisitor.cpp) on small inputs, and the theorems at
-- them.
use d_gen.Prelude.{
  ℕ, ◌+◌, ◌≡◌, ◌<◌, refl, true, false, some, List, [], ◌∷◌, pos, negsuc, ◌==◌, if◌then◌else◌, arith,
}
use d_gen.Heap.{
  Heap, empty_heap, create_arr, new_block, set_val, size_at, reset_heap, create, draw_arr,
  global_text, get_property, heap_run,
}
use d_gen.Heap.Free.{is_live}
use d_gen.Heap.Sound.{Allocates, reset_heap-heap_run, size_at-create_arr}

-- A block above all that are live.
abbrev total : List ℕ → ℕ
total [] = 0
total (p ∷ l) = p + total l

abbrev next_block : List ℕ → ℕ → ℕ
next_block live n = total live + 1

above_total : (p : ℕ) (l : List ℕ) → total l < p → is_live p l ≡ false
above_total p [] h = refl
above_total p (q ∷ l) h =
    let e : (p == q) ≡ false = ground arith in rw e (above_total p l (omega arith))

next_block-Allocates : Allocates next_block (λ p. p == 0)
next_block-Allocates = record {
  fresh = λ live n. above_total (total live + 1) live (omega arith);
  outside = λ live n. ground arith;
}

reset_heap-heap_run_example :
    reset_heap (
      heap_run next_block
        (global_text 0 5
          ∷ create (pos 3) 4
          ∷ draw_arr 2 8
          ∷ get_property 1
          ∷ get_property 77
          ∷ create (negsuc 0) 4
          ∷ [])
        empty_heap)
    ≡ some empty_heap
reset_heap-heap_run_example =
    reset_heap-heap_run next_block (λ p. p == 0) next_block-Allocates
      (global_text 0 5
        ∷ create (pos 3) 4
        ∷ draw_arr 2 8
        ∷ get_property 1
        ∷ get_property 77
        ∷ create (negsuc 0) 4
        ∷ [])
      (refl, tt)

abbrev one_block : Heap
one_block = record { live = 1 ∷ []; vals = (1, record { is_alloc = true; size = 3 }) ∷ [] }

created : create_arr next_block (pos 3) 4 empty_heap ≡ some (1, one_block)
unfolding create_arr new_block set_val
created = refl

size_at-create_arr_example :
    (size_at 1 one_block).0 ≡ (if 1 == 1 then 3 else (size_at 1 empty_heap).0)
size_at-create_arr_example = size_at-create_arr next_block 3 4 1 1 empty_heap one_block created
