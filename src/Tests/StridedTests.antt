-- ===== src/Tests/StridedTests.antt =====
-- A generator that reads from the first half of a region of memory.
use gwr.Base.{[], ◌∷◌, arith}
use gwr.Memory.Map.{MemoryMap}
use gwr.Memory.Strided.{Strided, new, next}
use gwr.Memory.Strided.Range.{Emitted, next-Emitted}

abbrev memory_map : MemoryMap
memory_map = record {
  regions =
      record { start = 0; end = 15; device = 1 }
      ∷ record { start = 64; end = 127; device = 2 }
      ∷ [];
}

abbrev generator : Strided
generator = new 9 memory_map 4 64 96 8 8 4 3

next-Emitted_example : Emitted generator (next generator 5)
unfolding new
next-Emitted_example = next-Emitted generator 5 (omega arith)
