-- ===== src/Memory/Strided/Range.antt =====
-- The addresses that a strided generator emits.
use gwr.Base.{
  inl, inr, ℕ, ◌+◌, ◌≤◌, ◌<◌, ◌≡◌, refl, Option, none, some, Bool-cases, ltb, leb, if◌then◌else◌,
  Outcome, ok, error, panic, u64_mod, arith,
}
use gwr.Memory.Access.{MemoryAccess, read_request}
use gwr.Memory.Map.{lookup}
use gwr.Memory.Strided.{Strided, access_of, advance, emit, next}

-- The next address is in `[base_addr, end_addr)`.
abbrev pub InRange : Strided → ℕ → Type 0
InRange g addr = (g.base_addr ≤ addr) × (addr < g.end_addr)

-- What a call of `next` may answer: a read of the next address, after which the next address is one
-- stride on, or the base where that reaches the end; or nothing, and the next address stays. It panics
-- only where the next address overflows.
abbrev pub Emitted : Strided → Outcome (Strided × Option MemoryAccess) → Type 0
Emitted g (ok (g', none)) = (g'.next_addr ≡ g.next_addr) × InRange g g'.next_addr
Emitted g (ok (g', some a)) =
    (a.access_type ≡ read_request)
    × (a.dst_addr ≡ g.next_addr)
    × (a.access_size_bytes ≡ g.access_size_bytes)
    × (g'.next_addr ≡ (
        if leb g.end_addr (g.next_addr + g.stride_bytes)
        then g.base_addr
        else g.next_addr + g.stride_bytes))
    × InRange g g'.next_addr
    × (g'.num_sent ≡ g.num_sent + 1)
    × (g'.num_sent ≤ g.num_to_send)
Emitted g (error e) = ⊥
Emitted g panic = u64_mod ≤ g.next_addr + g.stride_bytes

-- A generator whose next address is in its range emits, as long as fewer accesses are sent than it
-- has to send, only reads of its size that start at the next address, which is in the range; after each
-- of them the next address is one stride on, or the base where that is not before the end, and is in
-- the range again. Where it emits nothing, the next address stays. It panics only where the next address
-- overflows. (The bytes of an access may reach beyond the range.)
pub next-Emitted : (g : Strided) (id : ℕ) → InRange g g.next_addr → Emitted g (next g id)
unfolding next emit advance access_of
next-Emitted g id inside = elim (Bool-cases (ltb g.num_sent g.num_to_send)) [
  | inl more ↦
      rw more (go (lookup g.memory_map g.next_addr) (lookup g.memory_map g.src_addr) (ground arith))
  | inr sent ↦ rw sent (refl, inside)
]
  where
    counted : Strided
    counted = record g { num_sent = g.num_sent + 1 }

    go :
        (dst src : Option (ℕ × ℕ))
        → g.num_sent < g.num_to_send
        → Emitted g (emit counted id dst src)
    go none src h = (refl, inside)
    go (some dst) none h = (refl, inside)
    go (some dst) (some src) h = elim (Bool-cases (ltb (g.next_addr + g.stride_bytes) u64_mod)) [
      | inl fits ↦ rw fits (refl, refl, refl, refl, wrapped, refl, omega arith)
      | inr over ↦ rw over (ground arith)
    ]
      where
        wrapped : InRange g (
            if leb g.end_addr (g.next_addr + g.stride_bytes)
            then g.base_addr
            else g.next_addr + g.stride_bytes)
        wrapped = ground (arith, inside)
