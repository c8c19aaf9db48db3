-- ===== src/Tests/FlowTests.antt =====
-- Requests and responses of a cache, and the rounds of a store and of a queue.
use gwr.Base.{ℕ, ◌+◌, ◌≡◌, refl, some, List, [], ◌∷◌, ◌++◌, false, arith, ok, Bool, ◌==◌}
use mathlib.Core.Option
use gwr.Memory.Access.{MemoryAccess, read_request, read_response, access_memory, to_response}
use gwr.Memory.Access
use gwr.Memory.Cache.{
  CacheConfig, CacheContents, new, state_for, allocate, valid_data, index_for_addr, tag_for_addr,
  find_state, add_waiting_for_response, for_line, any, not_matching, matching,
}
use gwr.Memory.Cache.Valid.{IsValid, new-IsValid}
use gwr.Memory.Cache.Allocate.{allocate_lem}
use gwr.Memory.Cache.Handler.{Cache, Send, req, rsp_arb_0, handle_request, handle_response}
use gwr.Memory.Cache.Handler.Laws.{Leaves, handle_request-IsValid}
use gwr.Memory.Cache.Handler.Flow.{Answers, waiting_on, handle_response_serves, miss_then_wait}
use gwr.Event.{new_repeated}
use gwr.Store.{StoreState}
use gwr.Store.Laws
use gwr.Queue.{QueueCore}

abbrev config : CacheConfig
config = record {
  line_size_bytes = 16;
  bw_bytes_per_cycle = 4;
  num_sets = 2;
  num_ways = 2;
  delay_ticks = 1;
}

abbrev read : ℕ → ℕ → MemoryAccess
read id addr = record {
  created_by = 0;
  id = id;
  access_type = read_request;
  access_size_bytes = 4;
  dst_addr = addr;
  src_addr = 0;
  dst_device = 1;
  src_device = 2;
  cache_hint = Access.allocate;
  overhead_size_bytes = 8;
}

abbrev response : MemoryAccess
response = record (read 7 32) { access_type = read_response; dst_device = 2; src_device = 1 }

fresh : CacheContents MemoryAccess
fresh = new config

fresh-IsValid : IsValid fresh
unfolding fresh
fresh-IsValid = new-IsValid MemoryAccess config (omega arith) (omega arith) (omega arith)

abbrev cache : CacheContents MemoryAccess → Cache MemoryAccess
cache contents = record {
  contents = contents;
  metrics = record {
    payload_bytes_read = 0;
    payload_bytes_written = 0;
    num_hits = 0;
    num_misses = 0;
  };
}

-- Line 32 has been asked for, and two reads wait: one for it and one that came for line 64.
abbrev asked : CacheContents MemoryAccess
asked =
    add_waiting_for_response (add_waiting_for_response (allocate fresh 32) (read 8 36)) (read 9 64)

handle_request-IsValid_example :
    Leaves (λ s' _. IsValid s'.contents) (handle_request (cache fresh) (read 7 32))
handle_request-IsValid_example = handle_request-IsValid (cache fresh) (read 7 32) fresh-IsValid

miss_then_wait_example :
    (s' : Cache MemoryAccess) × (s'' : Cache MemoryAccess) × (handle_request
        (cache fresh)
        (read 7 32)
      ≡ ok (s', req (read 7 32) ∷ []))
    × (handle_request s' (read 8 36) ≡ ok (s'', []))
    × (s''.contents.waiting_for_response
        ≡ s'.contents.waiting_for_response
          ++ (tag_for_addr config 36, index_for_addr config 36, read 8 36) ∷ [])
    × (s''.metrics.num_misses ≡ 0 + 1)
    × (s''.metrics.num_hits ≡ 0 + 1)
unfolding fresh new state_for find_state index_for_addr tag_for_addr
miss_then_wait_example =
    miss_then_wait (cache fresh) (read 7 32) (read 8 36) fresh-IsValid refl refl (refl, refl) refl

asked-IsValid : IsValid asked
unfolding fresh new state_for find_state index_for_addr tag_for_addr add_waiting_for_response
asked-IsValid =
    let v : IsValid (allocate fresh 32) = (allocate_lem fresh fresh-IsValid 32 refl).3 in
    record {
      line_pos = v.line_pos;
      sets_pos = v.sets_pos;
      ways_pos = v.ways_pos;
      sets_length = v.sets_length;
      lru_length = v.lru_length;
      ways_ok = v.ways_ok;
      lru_ok = v.lru_ok;
    }

handle_response_serves_example :
    (s' : Cache MemoryAccess) × (ys : List (Send MemoryAccess)) × (handle_response
        (cache asked)
        response
      ≡ ok (s', rsp_arb_0 response ∷ ys))
    × Answers (waiting_on asked 32) ys
    × (any (for_line asked 32) s'.contents.waiting_for_response ≡ false)
    × (s'.contents.waiting_for_response
        ≡ not_matching (for_line asked 32) asked.waiting_for_response)
    × (state_for s'.contents 32 ≡ Option.map (λ _. valid_data) (state_for asked 32))
    × (s'.metrics ≡ (cache asked).metrics)
unfolding fresh new allocate add_waiting_for_response matching to_response index_for_addr
    tag_for_addr
handle_response_serves_example =
    handle_response_serves (cache asked) response asked-IsValid refl ((_, refl), tt)

-- A store of ten units, where a number counts as many units as it is.
abbrev units : ℕ → ℕ
units n = n

abbrev store : StoreState ℕ
store = record {
  capacity = 10;
  used = 7;
  values = 3 ∷ 4 ∷ [];
  error_on_overflow = false;
  level_change = new_repeated 7;
}

store-IsValid : Laws.IsValid units store
store-IsValid = omega arith

run-FirstInFirstOut_example :
    Laws.FirstInFirstOut units store
      (Laws.run units store (Laws.offers 6 ∷ Laws.forwards ∷ Laws.offers 6 ∷ Laws.forwards ∷ []))
run-FirstInFirstOut_example =
    Laws.run-FirstInFirstOut units
      (Laws.offers 6 ∷ Laws.forwards ∷ Laws.offers 6 ∷ Laws.forwards ∷ []) store store-IsValid

abbrev queue : QueueCore ℕ
queue = record { capacity = some 3; values = 5 ∷ 8 ∷ []; queue_changed = new_repeated tt }

abbrev is_eight : ℕ → Bool
is_eight n = n == 8
