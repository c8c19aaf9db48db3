-- ===== src/Memory/Map.antt =====
-- gwr-models/src/memory/memory_map.rs. The `BTreeMap` from start addresses to regions is the list of
-- its regions in the order of their keys, each key being the region's own start address.
pub mod Regions
pub mod Laws
use gwr.Base.{
  ℕ, ◌+◌, ◌-◌, ◌<◌, ◌≤◌, ◌≡◌, Option, none, some, List, [], ◌∷◌, Bool, true, false, ◌==◌, ◌&&◌, ltb,
  leb, if◌then◌else◌, Outcome, ok, error, panic, ◌>>=◌, add_u64, invalid_size, region_overlap,
  length,
}

pub record MemoryRegion : Type 0 where
  pub start : ℕ
  pub end : ℕ
  pub device : ℕ

pub record MemoryMap : Type 0 where
  pub regions : List MemoryRegion

unfoldable pub new : MemoryMap
new = record { regions = [] }

-- `range(..=addr).next_back()`
unfoldable pub last_at_most : ℕ → List MemoryRegion → Option MemoryRegion
last_at_most addr [] = none
last_at_most addr (r ∷ rs) = elim (last_at_most addr rs) [
  | some q ↦ some q
  | none ↦ if leb r.start addr then some r else none
]

-- `range(addr..).next()`
unfoldable pub first_at_least : ℕ → List MemoryRegion → Option MemoryRegion
first_at_least addr [] = none
first_at_least addr (r ∷ rs) = if leb addr r.start then some r else first_at_least addr rs

-- `BTreeMap::insert` and `BTreeMap::remove`
unfoldable pub insert_region : MemoryRegion → List MemoryRegion → List MemoryRegion
insert_region r [] = r ∷ []
insert_region r (q ∷ qs) =
    if ltb r.start q.start
    then r ∷ q ∷ qs
    else if r.start == q.start
    then r ∷ qs
    else q ∷ insert_region r qs

unfoldable pub remove_region : ℕ → List MemoryRegion → List MemoryRegion
remove_region start [] = []
remove_region start (q ∷ qs) = if q.start == start then qs else q ∷ remove_region start qs

unfoldable pub find_region : ℕ → List MemoryRegion → Option MemoryRegion
find_region start [] = none
find_region start (q ∷ qs) = if q.start == start then some q else find_region start qs

-- The two overlap checks of `insert`.
unfoldable pub previous_overlaps : ℕ → List MemoryRegion → Bool
previous_overlaps start rs = elim (last_at_most start rs) [
  | some prev ↦ leb start prev.end
  | none ↦ false
]

unfoldable pub next_overlaps : ℕ → ℕ → List MemoryRegion → Bool
next_overlaps start end rs = elim (first_at_least start rs) [
  | some next ↦ leb next.start end
  | none ↦ false
]

-- The last address of a region: `start + size - 1`, whose sum overflows with a panic.
unfoldable pub region_end : ℕ → ℕ → Outcome ℕ
region_end start size =
    if ltb 0 size then (add_u64 start size >>= λ sum. ok (sum - 1)) else error invalid_size

-- Past the checks of the size, with the last address of the region.
unfoldable pub insert_at_end : MemoryMap → ℕ → ℕ → ℕ → Outcome MemoryMap
insert_at_end m start end device =
    if previous_overlaps start m.regions
    then error region_overlap
    else if next_overlaps start end m.regions
    then error region_overlap
    else ok (record {
      regions = insert_region (record { start = start; end = end; device = device }) m.regions;
    })

unfoldable pub insert : MemoryMap → ℕ → ℕ → ℕ → Outcome MemoryMap
insert m start size device = do end ← region_end start size; insert_at_end m start end device

unfoldable pub unmap : MemoryMap → ℕ → MemoryMap × Option MemoryRegion
unmap m start = (record { regions = remove_region start m.regions }, find_region start m.regions)

-- The device and the offset of an address that the region holds.
unfoldable pub offset_in : MemoryRegion → ℕ → Option (ℕ × ℕ)
offset_in region addr =
    if leb addr region.end then some (region.device, addr - region.start) else none

unfoldable pub lookup : MemoryMap → ℕ → Option (ℕ × ℕ)
lookup m addr = elim (last_at_most addr m.regions) [
  | some region ↦ offset_in region addr
  | none ↦ none
]

pub num_regions : MemoryMap → ℕ
num_regions m = length m.regions
