-- ===== src/Tests/CacheTests.antt =====
-- A cache of two sets and two ways, whose lines are of 16 bytes: 0, 32, 64 and 96 are in set 0 with
-- the tags 0 to 3.
use gwr.Base.{ℕ, ◌≡◌, refl, none, some, true, false, arith}
use gwr.Memory.Cache.{
  CacheConfig, CacheContents, allocated, valid_data, new, state_for, allocate, set_data_valid,
  invalidate, index_for_addr, tag_for_addr, find_state, mark_valid, drop_tag,
}
use gwr.Memory.Cache.Valid.{IsValid, SameLine, new-IsValid}
use gwr.Memory.Cache.Ops.{set_data_valid_lem, invalidate_frame, state_for-invalidate-Shadowed}
use gwr.Memory.Cache.Allocate.{allocate_lem, evicts}

abbrev config : CacheConfig
config = record {
  line_size_bytes = 16;
  bw_bytes_per_cycle = 4;
  num_sets = 2;
  num_ways = 2;
  delay_ticks = 1;
}

fresh : CacheContents ℕ
fresh = new config

-- Line 32 is there with its data, in way 0.
abbrev loaded : CacheContents ℕ
loaded = set_data_valid (allocate fresh 32) 32

-- Line 0 is there as well, in way 1.
abbrev warm : CacheContents ℕ
warm = allocate loaded 0

-- Line 32 has been invalidated, so that way 0 is free and has the tag 0.
abbrev holed : CacheContents ℕ
holed = invalidate warm 32

fresh-IsValid : IsValid fresh
unfolding fresh
fresh-IsValid = new-IsValid ℕ config (omega arith) (omega arith) (omega arith)

loaded-IsValid : IsValid loaded
unfolding fresh new state_for find_state index_for_addr tag_for_addr
loaded-IsValid =
    (set_data_valid_lem (allocate fresh 32) (allocate_lem fresh fresh-IsValid 32 refl).3 32).2

missing : (state_for loaded 0 ≡ none) × (state_for warm 64 ≡ none)
unfolding fresh new state_for find_state index_for_addr tag_for_addr allocate set_data_valid
    mark_valid
missing = (refl, refl)

warm-IsValid : IsValid warm
warm-IsValid = (allocate_lem loaded loaded-IsValid 0 missing.0).3

holed-IsValid : IsValid holed
holed-IsValid = (invalidate_frame warm warm-IsValid 32).1

states :
    (state_for warm 32 ≡ some valid_data)
    × (state_for warm 0 ≡ some allocated)
    × (state_for (allocate warm 64) 32 ≡ none)
    × (state_for holed 32 ≡ none)
    × (state_for (invalidate holed 0) 0 ≡ some allocated)
unfolding fresh new state_for find_state index_for_addr tag_for_addr allocate set_data_valid
    mark_valid invalidate drop_tag
states = (refl, refl, refl, refl, refl)

allocate_lem_example :
    (state_for (allocate warm 64) 64 ≡ some allocated)
    × ((b : ℕ)
        → ¬ SameLine config 64 b
        → evicts warm warm-IsValid 64 b ≡ false
        → state_for (allocate warm 64) b ≡ state_for warm b)
    × ((b : ℕ)
        → ¬ SameLine config 64 b
        → index_for_addr config 64 ≡ index_for_addr config b
        → evicts warm warm-IsValid 64 b ≡ true
        → state_for (allocate warm 64) b ≡ none)
    × IsValid (allocate warm 64)
unfolding fresh new allocate set_data_valid
allocate_lem_example = allocate_lem warm warm-IsValid 64 missing.1

state_for-invalidate-Shadowed_example : state_for (invalidate holed 0) 0 ≡ state_for holed 0
unfolding fresh new allocate set_data_valid mark_valid invalidate drop_tag index_for_addr
    tag_for_addr
state_for-invalidate-Shadowed_example = state_for-invalidate-Shadowed holed holed-IsValid 0 refl
