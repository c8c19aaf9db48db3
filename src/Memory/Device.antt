-- ===== src/Memory/Device.antt =====
-- gwr-models/src/memory/mod.rs: the memory, and one round of its task with an access that it got.
use gwr.Base.{
  ℕ, ◌+◌, List, [], ◌∷◌, ltb, leb, ◌&&◌, if◌then◌else◌, Outcome, ok, error, panic, ◌>>=◌, add_u64,
  sub_u64, unsupported_access,
}
use gwr.Memory.Access.{
  AccessType, read_request, write_request, write_non_posted_request, read_response,
  write_non_posted_response, control, AccessMemory,
}

pub record MemoryConfig : Type 0 where
  pub base_address : ℕ
  pub capacity_bytes : ℕ
  pub bw_bytes_per_cycle : ℕ
  pub delay_ticks : ℕ

pub record MemoryStats : Type 0 where
  pub bytes_read : ℕ
  pub bytes_written : ℕ

pub record Memory : Type 0 where
  pub config : MemoryConfig
  pub stats : MemoryStats

abbrev pub count_read : Memory → ℕ → Memory
count_read s bytes = record s {
  stats = record (s.stats) { bytes_read = s.stats.bytes_read + bytes };
}

abbrev pub count_written : Memory → ℕ → Memory
count_written s bytes = record s {
  stats = record (s.stats) { bytes_written = s.stats.bytes_written + bytes };
}

-- The last address of an access, and whether it and the first are in bounds.
unfoldable pub last_address : ℕ → ℕ → Outcome ℕ
last_address begin bytes = add_u64 begin bytes >>= λ sum. sub_u64 sum 1

unfoldable pub check_bounds : MemoryConfig → ℕ → ℕ → Outcome (Unit {0})
unfolding last_address
check_bounds config begin bytes = do
  end ← last_address begin bytes
  limit ← add_u64 config.base_address config.capacity_bytes
  if leb config.base_address begin && ltb end limit then ok tt else panic

module _ {ℓ} {T : Type ℓ} ⦃m : AccessMemory T⦄ where
  unfoldable pub respond : Memory → T → Outcome (Memory × List T)
  respond s access = do response ← m.to_response access; ok (s, response ∷ [])

  unfoldable pub receive_as : AccessType → Memory → T → Outcome (Memory × List T)
  unfolding respond
  receive_as read_request s access = respond (count_read s (m.access_size_bytes access)) access
  receive_as write_request s access = ok (count_written s (m.access_size_bytes access), [])
  receive_as write_non_posted_request s access =
      respond (count_written s (m.access_size_bytes access)) access
  receive_as read_response s access = error unsupported_access
  receive_as write_non_posted_response s access = error unsupported_access
  receive_as control s access = panic

  -- The memory and what it puts on its port.
  unfoldable pub receive : Memory → T → Outcome (Memory × List T)
  unfolding check_bounds receive_as
  receive s access =
      check_bounds s.config (m.dst_addr access) (m.access_size_bytes access) >>= λ inside.
      receive_as (m.access_type access) s access
