-- ===== src/Memory/Map/Regions.antt =====
-- Ordered regions that do not overlap, and the map from addresses that they stand for.
use gwr.Base.{
  ℕ, ◌+◌, ◌-◌, ◌<◌, ◌≤◌, ◌≡◌, refl, ◌≢◌, ◌⊎◌, inl, inr, Option, none, some, List, [], ◌∷◌, Bool,
  true, false, ◌==◌, ◌&&◌, leb, if◌then◌else◌, u64_mod, All, arith, Option-cases, Bool-cases,
}
use gwr.Memory.Map.{
  MemoryRegion, last_at_most, first_at_least, insert_region, remove_region, find_region,
  previous_overlaps, next_overlaps, offset_in,
}

-- From `lo` on, in order, each region ending before the next begins.
abbrev pub Ordered : ℕ → List MemoryRegion → Type 0
Ordered lo [] = Unit {0}
Ordered lo (r ∷ rs) =
    (lo ≤ r.start) × (r.start ≤ r.end) × (r.end < u64_mod) × Ordered (r.end + 1) rs

abbrev pub holds : MemoryRegion → ℕ → Bool
holds r addr = leb r.start addr && leb addr r.end

-- The address map that a list of regions stands for.
unfoldable pub resolve : ℕ → List MemoryRegion → Option (ℕ × ℕ)
resolve addr [] = none
resolve addr (r ∷ rs) = if holds r addr then some (r.device, addr - r.start) else resolve addr rs

abbrev pub Apart : MemoryRegion → List MemoryRegion → Type 0
Apart r = All (λ q. (q.end < r.start) ⊎ (r.end < q.start))

last_bounds :
    (lo addr : ℕ) (rs : List MemoryRegion) (q : MemoryRegion)
    → Ordered lo rs
    → last_at_most addr rs ≡ some q
    → (lo ≤ q.start) × (q.start ≤ addr)
unfolding last_at_most
last_bounds lo addr [] q o e = cc
last_bounds lo addr (r ∷ rs) q o e = ground (arith, last_bounds (r.end + 1) addr rs q o.3)

resolve_below :
    (lo addr : ℕ) (rs : List MemoryRegion) → Ordered lo rs → addr < lo → resolve addr rs ≡ none
unfolding resolve
resolve_below lo addr [] o h = refl
resolve_below lo addr (r ∷ rs) o h = ground (arith, resolve_below (r.end + 1) addr rs o.3)

-- The search for the last region that starts at or below an address finds its region.
pub lookup-resolve :
    (lo addr : ℕ) (rs : List MemoryRegion)
    → Ordered lo rs
    → (elim (last_at_most addr rs) [ some region ↦ offset_in region addr | none ↦ none ])
      ≡ resolve addr rs
unfolding last_at_most resolve offset_in
lookup-resolve lo addr [] o = refl
lookup-resolve lo addr (r ∷ rs) o = elim (Option-cases (last_at_most addr rs)) [
  | inl e ↦ rw e (ground (arith, e, lookup-resolve (r.end + 1) addr rs o.3))
  | inr (q, e) ↦ rw e (
      ground
        (arith, e, lookup-resolve (r.end + 1) addr rs o.3, last_bounds (r.end + 1) addr rs q o.3 e))
]

Apart-above :
    (lo : ℕ) (r : MemoryRegion) (rs : List MemoryRegion) → Ordered lo rs → r.end < lo → Apart r rs
Apart-above lo r [] o h = tt
Apart-above lo r (q ∷ rs) o h = (inr (omega arith), Apart-above (q.end + 1) r rs o.3 (omega arith))

-- The two checks suffice: where neither fires, the new region overlaps none.
pub checks-Apart :
    (lo : ℕ) (r : MemoryRegion) (rs : List MemoryRegion)
    → Ordered lo rs
    → r.start ≤ r.end
    → previous_overlaps r.start rs ≡ false
    → next_overlaps r.start r.end rs ≡ false
    → Apart r rs
unfolding previous_overlaps next_overlaps last_at_most first_at_least
checks-Apart lo r [] o h p n = tt
checks-Apart lo r (q ∷ rs) o h p n = elim (Bool-cases (leb r.start q.start)) [
  | inl ahead ↦ (inr (ground arith), Apart-above (q.end + 1) r rs o.3 (ground arith))
  | inr behind ↦ elim (Option-cases (last_at_most r.start rs)) [
    | inl e ↦ (
      inl (ground (arith, e)),
      checks-Apart (q.end + 1) r rs o.3 h (rw (e, previous_overlaps)) (ground arith),
    )
    | inr (s, e) ↦ (
      inl (ground (arith, last_bounds (q.end + 1) r.start rs s o.3 e)),
      checks-Apart (q.end + 1) r rs o.3 h (rw (e, previous_overlaps) (ground (arith, e)))
          (ground arith),
    )
  ]
]

-- A check that fires has found an address of the new region that is mapped.
pub previous_overlaps-mapped :
    (lo start : ℕ) (rs : List MemoryRegion)
    → Ordered lo rs
    → previous_overlaps start rs ≡ true
    → resolve start rs ≢ none
unfolding previous_overlaps offset_in
previous_overlaps-mapped lo start rs o p e = elim (Option-cases (last_at_most start rs)) [
  | inl miss ↦ ground arith
  | inr (q, hit) ↦ ground (arith, lookup-resolve lo start rs o)
]

first_mapped :
    (lo start : ℕ) (rs : List MemoryRegion) (q : MemoryRegion)
    → Ordered lo rs
    → first_at_least start rs ≡ some q
    → (start ≤ q.start) × (lo ≤ q.start) × (resolve q.start rs ≢ none)
unfolding first_at_least resolve
first_mapped lo start [] q o e = cc
first_mapped lo start (r ∷ rs) q o e = elim (Bool-cases (leb start r.start)) [
  | inl here ↦ ground arith
  | inr later ↦
      let (above, past, mapped) = first_mapped (r.end + 1) start rs q o.3 (ground arith) in
      (above, omega arith, λ none_there. mapped (ground arith))
]

pub next_overlaps-mapped :
    (lo start end : ℕ) (rs : List MemoryRegion)
    → Ordered lo rs
    → next_overlaps start end rs ≡ true
    → (addr : ℕ) × (start ≤ addr) × (addr ≤ end) × (resolve addr rs ≢ none)
unfolding next_overlaps
next_overlaps-mapped lo start end rs o p = elim (Option-cases (first_at_least start rs)) [
  | inl miss ↦ ground arith
  | inr (q, hit) ↦
      let (above, past, mapped) = first_mapped lo start rs q o hit in
      (q.start, above, ground arith, mapped)
]

-- A region apart from the others holds none of their addresses.
pub Apart-unmapped :
    (r : MemoryRegion) (addr : ℕ) (rs : List MemoryRegion)
    → Apart r rs
    → r.start ≤ addr
    → addr ≤ r.end
    → resolve addr rs ≡ none
unfolding resolve
Apart-unmapped r addr [] a h k = refl
Apart-unmapped r addr (q ∷ rs) a h k = ground (arith, Apart-unmapped r addr rs a.1 h k)

pub insert_region-Ordered :
    (lo : ℕ) (r : MemoryRegion) (rs : List MemoryRegion)
    → Ordered lo rs
    → lo ≤ r.start
    → r.start ≤ r.end
    → r.end < u64_mod
    → Apart r rs
    → Ordered lo (insert_region r rs)
unfolding insert_region
insert_region-Ordered lo r [] o h k b a = (h, k, b, tt)
insert_region-Ordered lo r (q ∷ rs) o h k b a =
    ground (arith, insert_region-Ordered (q.end + 1) r rs o.3)

pub resolve-insert_region :
    (lo : ℕ) (r : MemoryRegion) (rs : List MemoryRegion) (addr : ℕ)
    → Ordered lo rs
    → r.start ≤ r.end
    → Apart r rs
    → resolve addr (insert_region r rs)
      ≡ (if holds r addr then some (r.device, addr - r.start) else resolve addr rs)
unfolding insert_region resolve
resolve-insert_region lo r [] addr o k a = refl
resolve-insert_region lo r (q ∷ rs) addr o k a =
    ground (arith, resolve-insert_region (q.end + 1) r rs addr o.3 k)

pub remove_region-Ordered :
    (lo start : ℕ) (rs : List MemoryRegion) → Ordered lo rs → Ordered lo (remove_region start rs)
unfolding remove_region
remove_region-Ordered lo start [] o = tt
remove_region-Ordered lo start (q ∷ rs) o = elim (Bool-cases (q.start == start)) [
  | inl here ↦ rw here (weaken lo (q.end + 1) rs (omega arith) o.3)
  | inr later ↦ rw later (o.0, o.1, o.2, remove_region-Ordered (q.end + 1) start rs o.3)
]
  where
    weaken : (lo hi : ℕ) (rs : List MemoryRegion) → lo ≤ hi → Ordered hi rs → Ordered lo rs
    weaken lo hi [] h o = tt
    weaken lo hi (q ∷ rs) h o = (omega arith, o.1, o.2, o.3)

find_bounds :
    (lo start : ℕ) (rs : List MemoryRegion) (r : MemoryRegion)
    → Ordered lo rs
    → find_region start rs ≡ some r
    → lo ≤ r.start
unfolding find_region
find_bounds lo start [] r o e = cc
find_bounds lo start (q ∷ rs) r o e = ground (arith, find_bounds (q.end + 1) start rs r o.3)

-- Removing the region at `start` unmaps its addresses and no others.
pub resolve-remove_region :
    (lo start : ℕ) (rs : List MemoryRegion) (addr : ℕ)
    → Ordered lo rs
    → resolve addr (remove_region start rs) ≡ elim (find_region start rs) [
      | some r ↦ if holds r addr then none else resolve addr rs
      | none ↦ resolve addr rs
    ]
unfolding remove_region find_region resolve
resolve-remove_region lo start [] addr o = refl
resolve-remove_region lo start (q ∷ rs) addr o = elim (Bool-cases (q.start == start)) [
  | inl here ↦ ground (arith, resolve_below (q.end + 1) addr rs o.3)
  | inr later ↦ elim (Option-cases (find_region start rs)) [
    | inl miss ↦
        rw (later, miss) (ground (arith, miss, resolve-remove_region (q.end + 1) start rs addr o.3))
    | inr (r, hit) ↦
        rw (later, hit)
          (ground (
            arith,
            hit,
            resolve-remove_region (q.end + 1) start rs addr o.3,
            find_bounds (q.end + 1) start rs r o.3 hit,
          ))
  ]
]
