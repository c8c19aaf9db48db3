-- ===== src/Tests/MapTests.antt =====
-- A memory map with two regions and a gap between them.
use gwr.Base.{◌≡◌, refl, none, some, [], ◌∷◌, arith}
use gwr.Memory.Access.{MemoryAccess, read_request, read_response, allocate}
use gwr.Memory.Map.{MemoryRegion, MemoryMap, insert, lookup, last_at_most, offset_in}
use gwr.Memory.Map.Regions.{resolve}
use gwr.Memory.Map.Laws.{IsValid, lookup-eq-resolve, Inserted, insert-Inserted}

abbrev ram : MemoryRegion
ram = record { start = 16; end = 31; device = 1 }

abbrev rom : MemoryRegion
rom = record { start = 64; end = 95; device = 2 }

abbrev memory_map : MemoryMap
memory_map = record { regions = ram ∷ rom ∷ [] }

memory_map-IsValid : IsValid memory_map
memory_map-IsValid = omega arith

lookup_examples : (lookup memory_map 70 ≡ some (2, 6)) × (lookup memory_map 40 ≡ none)
unfolding lookup last_at_most offset_in
lookup_examples = (refl, refl)

lookup-eq-resolve_example : lookup memory_map 70 ≡ resolve 70 memory_map.regions
lookup-eq-resolve_example = lookup-eq-resolve memory_map 70 memory_map-IsValid

insert-Inserted_example : Inserted memory_map 32 32 3 (insert memory_map 32 32 3)
insert-Inserted_example = insert-Inserted memory_map 32 32 3 memory_map-IsValid

abbrev read_access : MemoryAccess
read_access = record {
  created_by = 0;
  id = 5;
  access_type = read_request;
  access_size_bytes = 64;
  dst_addr = 70;
  src_addr = 0;
  dst_device = 2;
  src_device = 9;
  cache_hint = allocate;
  overhead_size_bytes = 8;
}

abbrev answer : MemoryAccess
answer = record read_access { access_type = read_response; dst_device = 9; src_device = 2 }
