-- ===== src/Heap/Sound.antt =====
-- Each block that a run allocates is freed exactly once by the reset after it (src/CodegenVisitor.cpp,
-- src/Symbol.cpp, src/DGen.cpp).
use d_gen.Prelude.{
  ℕ, ◌*◌, ◌%◌, ◌^◌, ◌≡◌, refl, ◌∙◌, sym, ap, Bool, true, false, Option, none, some, List, [], ◌∷◌,
  ℤ, pos, negsuc, ◌==◌, ==_iff, if◌then◌else◌, inl, inr, Bool-cases, Option-cases,
}
use d_gen.Heap.{
  AllocData, Heap, empty_heap, set_val, find_val, size_at, reset_heap, new_block, create_arr,
  set_global_ptr_size, HeapCall, create, draw_arr, global_text, get_property, heap_call, heap_run,
}
use d_gen.Heap.Free.{is_live, owned_by, Once, Keyed, find_val-set_val, Keyed-set_val, free_all-nil}

-- The blocks are the entries that say so, each once, and no block is the place of a global text.
record IsSound (is_global : ℕ → Bool) (h : Heap) : Type 0 where
  keyed : Keyed h.vals
  once : Once h.live
  owned : (p : ℕ) → is_live p h.live ≡ owned_by (find_val p h.vals)
  apart : (p : ℕ) → is_live p h.live ≡ true → is_global p ≡ false

IsSound-reset :
    (is_global : ℕ → Bool) (h : Heap) → IsSound is_global h → reset_heap h ≡ some empty_heap
unfolding reset_heap
IsSound-reset is_global h s =
    rw (free_all-nil h.vals h.live s.keyed s.once s.owned, reset_heap) refl

empty-IsSound : (is_global : ℕ → Bool) → IsSound is_global empty_heap
unfolding find_val
empty-IsSound is_global = record { keyed = tt; once = tt; owned = λ p. refl; apart = λ p h. cc }

-- An entry that is no block, at an address that is none.
set_val-IsSound :
    (is_global : ℕ → Bool) (p size : ℕ) (h : Heap)
    → is_live p h.live ≡ false
    → IsSound is_global h
    → IsSound is_global
        (record h { vals = set_val p (record { is_alloc = false; size = size }) h.vals })
set_val-IsSound is_global p size h out s = record {
  keyed = Keyed-set_val p (record { is_alloc = false; size = size }) h.vals s.keyed;
  once = s.once;
  owned = λ q. elim (Bool-cases (q == p)) [
    | inl e ↦
        ap (λ r. is_live r h.live) ((==_iff q p).0 e)
        ∙ out
        ∙ sym (
            ap owned_by (find_val-set_val p q (record { is_alloc = false; size = size }) h.vals)
            ∙ ap
                (λ b. owned_by (
                  if b then some (record { is_alloc = false; size = size }) else find_val q h.vals))
                e)
    | inr e ↦
        s.owned q
        ∙ sym (
            ap owned_by (find_val-set_val p q (record { is_alloc = false; size = size }) h.vals)
            ∙ ap
                (λ b. owned_by (
                  if b then some (record { is_alloc = false; size = size }) else find_val q h.vals))
                e)
  ];
  apart = s.apart;
}

-- What the texts of a run are: constants of the module.
abbrev pub AreGlobal : (ℕ → Bool) → List HeapCall → Type 0
AreGlobal is_global [] = Unit
AreGlobal is_global (global_text str n ∷ cs) = (is_global str ≡ true) × AreGlobal is_global cs
AreGlobal is_global (create _ _ ∷ cs) = AreGlobal is_global cs
AreGlobal is_global (draw_arr _ _ ∷ cs) = AreGlobal is_global cs
AreGlobal is_global (get_property _ ∷ cs) = AreGlobal is_global cs

-- malloc gives a block that is not live, and none that lies in a constant of the module.
pub record Allocates (malloc : List ℕ → ℕ → ℕ) (is_global : ℕ → Bool) : Type 0 where
  pub fresh : (live : List ℕ) (n : ℕ) → is_live (malloc live n) live ≡ false
  pub outside : (live : List ℕ) (n : ℕ) → is_global (malloc live n) ≡ false

module _ (malloc : List ℕ → ℕ → ℕ) (is_global : ℕ → Bool) (m : Allocates malloc is_global) where
  new_block-IsSound :
      (size k : ℕ) (h : Heap)
      → IsSound is_global h
      → IsSound is_global (new_block malloc size k h).1
  unfolding new_block
  new_block-IsSound size k h s =
      let p = malloc h.live (size * k % 2 ^ 32) in
      let a : AllocData = record { is_alloc = true; size = size } in
      record {
        keyed = Keyed-set_val p a h.vals s.keyed;
        once = (m.fresh h.live (size * k % 2 ^ 32), s.once);
        owned = λ q. elim (Bool-cases (q == p)) [
          | inl e ↦
              ap (λ b. if b then true else is_live q h.live) e
              ∙ sym (
                  ap owned_by (find_val-set_val p q a h.vals)
                  ∙ ap (λ b. owned_by (if b then some a else find_val q h.vals)) e)
          | inr e ↦
              ap (λ b. if b then true else is_live q h.live) e
              ∙ s.owned q
              ∙ sym (
                  ap owned_by (find_val-set_val p q a h.vals)
                  ∙ ap (λ b. owned_by (if b then some a else find_val q h.vals)) e)
        ];
        apart = λ q here. elim (Bool-cases (q == p)) [
          | inl e ↦ ap is_global ((==_iff q p).0 e) ∙ m.outside h.live (size * k % 2 ^ 32)
          | inr e ↦ s.apart q (sym (ap (λ b. if b then true else is_live q h.live) e) ∙ here)
        ];
      }

  global-IsSound :
      (str n : ℕ) (h : Heap)
      → is_global str ≡ true
      → IsSound is_global h
      → IsSound is_global (set_global_ptr_size str n h)
  unfolding set_global_ptr_size
  global-IsSound str n h g s =
      set_val-IsSound is_global str n h
        (elim (Bool-cases (is_live str h.live)) [
          | inl e ↦ let no = s.apart str e in cc
          | inr e ↦ e
        ])
        s

  size_at-IsSound : (p : ℕ) (h : Heap) → IsSound is_global h → IsSound is_global (size_at p h).1
  unfolding size_at
  size_at-IsSound p h s = elim (Option-cases (find_val p h.vals)) [
    | inl e ↦ rw (e, size_at) (set_val-IsSound is_global p 0 h (s.owned p ∙ ap owned_by e) s)
    | inr (a, e) ↦ rw (e, size_at) s
  ]

  create-IsSound :
      (len : ℤ) (k : ℕ) (h g : Heap)
      → heap_call malloc (create len k) h ≡ some g
      → IsSound is_global h
      → IsSound is_global g
  unfolding heap_call create_arr
  create-IsSound (pos n) k h g e s =
      let same : (new_block malloc n k h).1 ≡ g = cc in rw (← same) (new_block-IsSound n k h s)
  create-IsSound (negsuc n) k h g e s = cc

  heap_run-IsSound :
      (cs : List HeapCall) (h : Heap)
      → AreGlobal is_global cs
      → IsSound is_global h
      → IsSound is_global (heap_run malloc cs h)
  unfolding heap_run heap_call
  heap_run-IsSound [] h g s = s
  heap_run-IsSound (create len k ∷ cs) h g s =
      elim (Option-cases (heap_call malloc (create len k) h)) [
        | inl e ↦ rw (e, heap_run) s
        | inr (h', e) ↦ rw (e, heap_run) (heap_run-IsSound cs h' g (create-IsSound len k h h' e s))
      ]
  heap_run-IsSound (draw_arr n k ∷ cs) h g s =
      heap_run-IsSound cs (new_block malloc n k h).1 g (new_block-IsSound n k h s)
  heap_run-IsSound (global_text str n ∷ cs) h (here, g) s =
      heap_run-IsSound cs (set_global_ptr_size str n h) g (global-IsSound str n h here s)
  heap_run-IsSound (get_property p ∷ cs) h g s =
      heap_run-IsSound cs (size_at p h).1 g (size_at-IsSound p h s)

  -- Whatever calls a run makes, the reset after it frees every block that they have allocated, and
  -- nothing twice: it ends with no block and an empty table.
  pub reset_heap-heap_run :
      (cs : List HeapCall)
      → AreGlobal is_global cs
      → reset_heap (heap_run malloc cs empty_heap) ≡ some empty_heap
  reset_heap-heap_run cs g =
      IsSound-reset is_global (heap_run malloc cs empty_heap)
        (heap_run-IsSound cs empty_heap g (empty-IsSound is_global))

abbrev size_of : Option AllocData → ℕ
size_of none = 0
size_of (some a) = a.size

size_at-find_val : (q : ℕ) (h : Heap) → (size_at q h).0 ≡ size_of (find_val q h.vals)
unfolding size_at
size_at-find_val q h = elim (Option-cases (find_val q h.vals)) [
  | inl e ↦ rw (e, size_at) refl
  | inr (a, e) ↦ rw (e, size_at) refl
]

size_of_if :
    (b : Bool) (a : AllocData) (o : Option AllocData)
    → size_of (if b then some a else o) ≡ (if b then a.size else size_of o)
size_of_if true a o = refl
size_of_if false a o = refl

pair_injective :
    {A B : Type 0} {a c : A} {b d : B}
    → ◌≡◌ {A = Option (A × B)} (some (a, b)) (some (c, d))
    → (a ≡ c) × (b ≡ d)
pair_injective h = (cc, cc)

-- The length of a new array is the one that it was created with, and no other length changes.
pub size_at-create_arr :
    (malloc : List ℕ → ℕ → ℕ) (len k p q : ℕ) (h h' : Heap)
    → create_arr malloc (pos len) k h ≡ some (p, h')
    → (size_at q h').0 ≡ (if q == p then len else (size_at q h).0)
unfolding create_arr new_block
size_at-create_arr malloc len k p q h h' e =
    let a : AllocData = record { is_alloc = true; size = len } in
    let (ep, eh) = pair_injective e in
    size_at-find_val q h'
    ∙ ap (λ (g : Heap). size_of (find_val q g.vals)) (sym eh)
    ∙ ap size_of (find_val-set_val (malloc h.live (len * k % 2 ^ 32)) q a h.vals)
    ∙ size_of_if (q == malloc h.live (len * k % 2 ^ 32)) a (find_val q h.vals)
    ∙ ap (λ r. if q == r then len else size_of (find_val q h.vals)) ep
    ∙ ap (λ n. if q == p then len else n) (sym (size_at-find_val q h))
