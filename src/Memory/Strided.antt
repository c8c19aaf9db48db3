-- ===== src/Memory/Strided.antt =====
-- gwr-models/src/memory/memory_access_gen/strided.rs: a generator of reads. The memory map is the
-- argument of the look-ups, and the id of an access, which the tracker gives, an argument of `next`.
pub mod Range
use gwr.Base.{
  ℕ, ◌+◌, ◌≤◌, ◌<◌, ◌≡◌, Option, none, some, Bool, ltb, leb, if◌then◌else◌, Outcome, ok, panic,
  ◌>>=◌, add_u64,
}
use gwr.Memory.Access.{MemoryAccess, read_request, allocate}
use gwr.Memory.Map.{MemoryMap, lookup}

pub record Strided : Type 0 where
  pub entity : ℕ
  pub memory_map : MemoryMap
  pub src_addr : ℕ
  pub base_addr : ℕ
  pub end_addr : ℕ
  pub stride_bytes : ℕ
  pub overhead_size_bytes : ℕ
  pub access_size_bytes : ℕ
  pub num_to_send : ℕ
  pub next_addr : ℕ
  pub num_sent : ℕ

-- The generator at its start.
unfoldable pub new : ℕ → MemoryMap → ℕ → ℕ → ℕ → ℕ → ℕ → ℕ → ℕ → Strided
new entity memory_map src_addr base_addr end_addr stride overhead size num_to_send = record {
  entity = entity;
  memory_map = memory_map;
  src_addr = src_addr;
  base_addr = base_addr;
  end_addr = end_addr;
  stride_bytes = stride;
  overhead_size_bytes = overhead;
  access_size_bytes = size;
  num_to_send = num_to_send;
  next_addr = base_addr;
  num_sent = 0;
}

-- The access to the next address, for the devices that the map gives.
unfoldable pub access_of : Strided → ℕ → ℕ → ℕ → MemoryAccess
access_of g id dst_device src_device = record {
  created_by = g.entity;
  id = id;
  access_type = read_request;
  access_size_bytes = g.access_size_bytes;
  dst_addr = g.next_addr;
  src_addr = g.src_addr;
  dst_device = dst_device;
  src_device = src_device;
  cache_hint = allocate;
  overhead_size_bytes = g.overhead_size_bytes;
}

-- `next_addr += stride_bytes`, and back to the base at the end.
unfoldable pub advance : Strided → Outcome Strided
advance g = add_u64 g.next_addr g.stride_bytes >>= λ sum.
    ok (record g { next_addr = if leb g.end_addr sum then g.base_addr else sum })

-- Past the count, with what the two look-ups give.
unfoldable pub emit :
    Strided → ℕ → Option (ℕ × ℕ) → Option (ℕ × ℕ) → Outcome (Strided × Option MemoryAccess)
unfolding access_of advance
emit g id (some dst) (some src) = advance g >>= λ g'. ok (g', some (access_of g id dst.0 src.0))
emit g id (some dst) none = ok (g, none)
emit g id none src = ok (g, none)

unfoldable pub next : Strided → ℕ → Outcome (Strided × Option MemoryAccess)
unfolding emit
next g id =
    if ltb g.num_sent g.num_to_send
    then emit (record g { num_sent = g.num_sent + 1 }) id (lookup g.memory_map g.next_addr)
        (lookup g.memory_map g.src_addr)
    else ok (g, none)
