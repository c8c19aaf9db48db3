-- ===== src/Memory/Map/Laws.antt =====
-- `insert`, `unmap` and `lookup` against the address map that the regions stand for.
use gwr.Base.{
  ℕ, ◌+◌, ◌-◌, ◌<◌, ◌≤◌, ◌≡◌, refl, sym, ◌∙◌, ◌≢◌, inl, inr, none, some, false, ◌&&◌, ltb, leb,
  if◌then◌else◌, Outcome, ok, error, panic, u64_mod, invalid_size, region_overlap, arith,
  Bool-cases,
}
use gwr.Memory.Map.{
  MemoryMap, MemoryRegion, find_region, insert_region, region_end, previous_overlaps, next_overlaps,
  insert, insert_at_end, unmap, lookup,
}
use gwr.Memory.Map.Regions.{
  Ordered, Apart, holds, resolve, lookup-resolve, checks-Apart, previous_overlaps-mapped,
  next_overlaps-mapped, Apart-unmapped, insert_region-Ordered, resolve-insert_region,
  remove_region-Ordered, resolve-remove_region,
}

-- The regions are ordered and disjoint.
abbrev pub IsValid : MemoryMap → Type 0
IsValid m = Ordered 0 m.regions

-- `lookup` finds the region that holds an address, wherever it stands, and the offset in it.
pub lookup-eq-resolve :
    (m : MemoryMap) (addr : ℕ) → IsValid m → lookup m addr ≡ resolve addr m.regions
unfolding lookup
lookup-eq-resolve m addr v = lookup-resolve 0 addr m.regions v

-- What `insert` answers, for a region of `size` bytes at `start`.
pub data Inserted (m : MemoryMap) (start size device : ℕ) (r : Outcome MemoryMap) : Type 0 where
  empty : size ≡ 0 → r ≡ error invalid_size → Inserted m start size device r
  overflows : 0 < size → u64_mod ≤ start + size → r ≡ panic → Inserted m start size device r
  overlaps :
      (addr : ℕ)
      → start ≤ addr
      → addr < start + size
      → lookup m addr ≢ none
      → r ≡ error region_overlap
      → Inserted m start size device r
  maps :
      (m' : MemoryMap)
      → r ≡ ok m'
      → ((addr : ℕ) → start ≤ addr → addr < start + size → lookup m addr ≡ none)
      → IsValid m'
      → ((addr : ℕ)
          → lookup m' addr ≡ (
              if leb start addr && ltb addr (start + size)
              then some (device, addr - start)
              else lookup m addr))
      → Inserted m start size device r

module _ (m : MemoryMap) (start size device : ℕ) (v : IsValid m) where
  insert_clear :
      0 < size
      → start + size < u64_mod
      → previous_overlaps start m.regions ≡ false
      → next_overlaps start (start + size - 1) m.regions ≡ false
      → Inserted m start size device (insert_at_end m start (start + size - 1) device)
  unfolding insert_at_end lookup
  insert_clear pos fits p n =
      maps (record { regions = insert_region r m.regions }) (rw (p, n))
        (λ addr h k.
          lookup-resolve 0 addr m.regions v ∙ Apart-unmapped r addr m.regions clear h (omega arith))
        valid
        λ addr.
          lookup-resolve 0 addr (insert_region r m.regions) valid
          ∙ resolve-insert_region 0 r m.regions addr v (omega arith) clear
          ∙ ground (arith, lookup-resolve 0 addr m.regions v)
    where
      r : MemoryRegion
      r = record { start = start; end = start + size - 1; device = device }

      clear : Apart r m.regions
      clear = checks-Apart 0 r m.regions v (omega arith) p n

      valid : Ordered 0 (insert_region r m.regions)
      valid = insert_region-Ordered 0 r m.regions v (omega arith) (omega arith) (omega arith) clear

  insert_checked :
      0 < size
      → start + size < u64_mod
      → Inserted m start size device (insert_at_end m start (start + size - 1) device)
  unfolding insert_at_end lookup
  insert_checked pos fits = elim (Bool-cases (previous_overlaps start m.regions)) [
    | inl p ↦
        overlaps start (omega arith) (omega arith)
          (λ e.
            previous_overlaps-mapped 0 start m.regions v p
              (sym (lookup-resolve 0 start m.regions v) ∙ e))
          (rw p)
    | inr p ↦ elim (Bool-cases (next_overlaps start (start + size - 1) m.regions)) [
      | inl n ↦
          let (addr, above, below, mapped) =
            next_overlaps-mapped 0 start (start + size - 1) m.regions v n in
          overlaps addr above (omega arith)
            (λ e. mapped (sym (lookup-resolve 0 addr m.regions v) ∙ e)) (rw (p, n))
      | inr n ↦ insert_clear pos fits p n
    ]
  ]

  -- Of a map whose regions are in order and disjoint, `insert` refuses an empty region, and one that
  -- shares an address with the map, with an error, and panics where the sum of the start and the size
  -- does not fit in 64 bits, which includes a region that ends at the last address of all. Any other
  -- region it maps, at the right offsets; it changes the look-up of no other address, and the regions
  -- stay in order and disjoint.
  pub insert-Inserted : Inserted m start size device (insert m start size device)
  unfolding insert region_end insert_at_end
  insert-Inserted = elim (Bool-cases (ltb 0 size)) [
    | inr none_to_map ↦ empty (ground arith) (rw none_to_map)
    | inl pos ↦ elim (Bool-cases (ltb (start + size) u64_mod)) [
      | inr over ↦ overflows (ground arith) (ground arith) (rw (pos, over))
      | inl fits ↦ rw (pos, fits) (insert_checked (ground arith) (ground arith))
    ]
  ]

-- `unmap` returns the region that starts at the address, if there is one, and unmaps the addresses
-- of that region and no others; the map stays valid.
pub unmap_lem :
    (m : MemoryMap) (start : ℕ)
    → IsValid m
    → IsValid (unmap m start).0
      × ((unmap m start).1 ≡ find_region start m.regions)
      × ((addr : ℕ)
          → lookup (unmap m start).0 addr ≡ elim (unmap m start).1 [
            | some r ↦ if holds r addr then none else lookup m addr
            | none ↦ lookup m addr
          ])
unfolding unmap lookup
unmap_lem m start v = (
  remove_region-Ordered 0 start m.regions v,
  refl,
  λ addr.
      lookup-resolve 0 addr _ (remove_region-Ordered 0 start m.regions v)
      ∙ resolve-remove_region 0 start m.regions addr v
      ∙ ground (arith, lookup-resolve 0 addr m.regions v),
)
