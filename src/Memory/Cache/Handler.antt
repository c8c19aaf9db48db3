-- ===== src/Memory/Cache/Handler.antt =====
-- gwr-models/src/memory/cache.rs: `handle_request`, `handle_response` and the metrics. A call is one
-- step: all changes of the contents come before the first `await` of the handler, and what is put on
-- its ports is recorded in order. (A counter that the code adds to after an `await` is added to in
-- the step.)
pub mod Laws
pub mod Flow
use gwr.Base.{
  ℕ, ◌+◌, Option, none, some, List, [], ◌∷◌, Outcome, ok, error, ◌>>=◌, unsupported_access,
}
use gwr.Memory.Access.{
  AccessType, read_request, write_request, write_non_posted_request, read_response,
  write_non_posted_response, control, AccessMemory,
}
use gwr.Memory.Cache.{
  CacheContents, EntryState, available, allocated, valid_data, state_for, allocate, set_data_valid,
  invalidate, add_waiting_for_response, get_requests_waiting_for_response,
}

pub record CacheMetrics : Type 0 where
  pub payload_bytes_read : ℕ
  pub payload_bytes_written : ℕ
  pub num_hits : ℕ
  pub num_misses : ℕ

pub record Cache {ℓ} (T : Type ℓ) : Type ℓ where
  pub contents : CacheContents T
  pub metrics : CacheMetrics

-- A value put on the port to the memory, or on one of the two inputs of the response arbiter.
pub data Send {ℓ} (T : Type ℓ) : Type ℓ where
  req rsp_arb_0 rsp_arb_1 : T → Send T

abbrev pub Step {ℓ} : Type ℓ → Type ℓ
Step T = Outcome (Cache T × List (Send T))

module _ {ℓ} {T : Type ℓ} ⦃m : AccessMemory T⦄ where
  abbrev count_hit : Cache T → Cache T
  count_hit s = record s { metrics = record (s.metrics) { num_hits = s.metrics.num_hits + 1 } }

  abbrev count_miss : Cache T → Cache T
  count_miss s = record s { metrics = record (s.metrics) { num_misses = s.metrics.num_misses + 1 } }

  abbrev count_read : Cache T → ℕ → Cache T
  count_read s bytes = record s {
    metrics = record (s.metrics) { payload_bytes_read = s.metrics.payload_bytes_read + bytes };
  }

  abbrev count_write : Cache T → ℕ → Cache T
  count_write s bytes = record s {
    metrics = record (s.metrics) {
      payload_bytes_written = s.metrics.payload_bytes_written + bytes;
    };
  }

  miss : Cache T → T → Step T
  miss s request = ok (
    count_miss (record s { contents = allocate s.contents (m.dst_addr request) }),
    req request ∷ [],
  )

  -- The read of a line in the given state.
  unfoldable pub read_line : Option EntryState → Cache T → T → Step T
  unfolding miss
  read_line (some valid_data) s request = do
    response ← m.to_response request
    ok (count_hit s, rsp_arb_1 response ∷ [])
  read_line (some allocated) s request =
      ok (count_hit (record s { contents = add_waiting_for_response s.contents request }), [])
  read_line (some available) s request = miss s request
  read_line none s request = miss s request

  write : Cache T → T → Step T
  write s request = ok (
    count_write (record s { contents = invalidate s.contents (m.dst_addr request) })
        (m.access_size_bytes request),
    req request ∷ [],
  )

  request_as : AccessType → Cache T → T → Step T
  unfolding write
  request_as control s request =
      ok (record s { contents = invalidate s.contents (m.dst_addr request) }, [])
  request_as read_request s request =
      read_line (state_for s.contents (m.dst_addr request))
        (count_read s (m.access_size_bytes request)) request
  request_as write_request s request = write s request
  request_as write_non_posted_request s request = write s request
  request_as read_response s request = error unsupported_access
  request_as write_non_posted_response s request = error unsupported_access

  unfoldable pub handle_request : Cache T → T → Step T
  unfolding request_as
  handle_request s request = request_as (m.access_type request) s request

  -- The loop that answers the reads that waited for a response.
  unfoldable pub answer : List T → Outcome (List (Send T))
  answer [] = ok []
  answer (x ∷ xs) = do response ← m.to_response x; rest ← answer xs; ok (rsp_arb_0 response ∷ rest)

  answer_waiting : T → CacheContents T × Option (List T) → Cache T → Step T
  answer_waiting access (contents, none) s =
      ok (record s { contents = contents }, rsp_arb_0 access ∷ [])
  answer_waiting access (contents, some waiting) s = do
    responses ← answer waiting
    ok (record s { contents = contents }, rsp_arb_0 access ∷ responses)

  response_as : AccessType → Cache T → T → Step T
  unfolding answer_waiting
  response_as control s access = ok (s, [])
  response_as write_non_posted_response s access = ok (s, rsp_arb_0 access ∷ [])
  response_as read_request s access = error unsupported_access
  response_as write_request s access = error unsupported_access
  response_as write_non_posted_request s access = error unsupported_access
  response_as read_response s access =
      answer_waiting access
        (get_requests_waiting_for_response (set_data_valid s.contents (m.dst_addr access)) access) s

  unfoldable pub handle_response : Cache T → T → Step T
  unfolding response_as
  handle_response s access = response_as (m.access_type access) s access
