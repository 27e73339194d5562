-- ===== src/Values/Memory/Reads.antt =====
-- What a read of a block gives whose elements stand one behind the other (src/Symbol.cpp, src/DGen.cpp).
use d_gen.Prelude.{ℕ, ◌+◌, ◌<◌, ◌≤◌, ◌≡◌, refl, true, false, arith, ◌==◌}
use d_gen.Errors.{ok}
use d_gen.Values.Memory.{Dest, Dests, none_left, more, sizeof, overlaps, touches, read_at}

-- The values have `s` bytes each and stand one behind the other from `o` on.
abbrev pub Laid : ℕ → ℕ → Dests → Type 0
Laid s o none_left = Unit
Laid s o (more p d ds) = (p ≡ o) × (sizeof d ≡ s) × Laid s (o + s) ds

overlaps_before : (o w p u : ℕ) → o + w ≤ p → overlaps o w p u ≡ false
unfolding overlaps
overlaps_before o w p u h = ground arith

overlaps_behind : (o w p u : ℕ) → p + u ≤ o → overlaps o w p u ≡ false
unfolding overlaps
overlaps_behind o w p u h = ground arith

overlaps_same : (o w : ℕ) → 0 < w → overlaps o w o w ≡ true
unfolding overlaps
overlaps_same o w h = ground arith

touches_before : (s o p w : ℕ) (ds : Dests) → Laid s o ds → p + w ≤ o → touches p w ds ≡ false
unfolding touches
touches_before s o p w none_left laid h = refl
touches_before s o p w (more q d ds) (e, e', laid) h =
    rw (overlaps_before p w q (sizeof d) (omega arith))
      (touches_before s (o + s) p w ds laid (omega arith))

-- The first value is read at its place.
pub read_at-first :
    (s o : ℕ) (d : Dest) (ds : Dests)
    → 0 < s
    → sizeof d ≡ s
    → Laid s (o + s) ds
    → read_at o s (more o d ds) ≡ ok d
unfolding read_at
read_at-first s o d ds lt e laid =
    let here : (o == o) ≡ true = ground arith in
    let whole : (s == s) ≡ true = ground arith in
    rw (e, overlaps_same o s lt, touches_before s (o + s) o s ds laid (omega arith), here, whole)
      refl

-- A read behind the first value does not see it.
pub read_at-behind :
    (p s o : ℕ) (d : Dest) (ds : Dests)
    → o + sizeof d ≤ p
    → read_at p s (more o d ds) ≡ read_at p s ds
unfolding read_at
read_at-behind p s o d ds h = rw (overlaps_behind p s o (sizeof d) h) refl
