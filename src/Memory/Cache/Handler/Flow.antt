-- ===== src/Memory/Cache/Handler/Flow.antt =====
-- A miss, the reads that join it, and the response that serves them all.
use gwr.Base.{
  inl, inr, ℕ, ◌+◌, ◌≡◌, refl, sym, ◌∙◌, none, some, List, [], ◌∷◌, ◌++◌, map, Bool, false, ok, All,
  arith, Bool-cases,
}
use mathlib.Core.Option
use gwr.Memory.Access.{read_request, read_response, AccessMemory}
use gwr.Memory.Cache.{
  CacheContents, allocated, valid_data, state_for, allocate, set_data_valid,
  add_waiting_for_response, get_requests_waiting_for_response, for_line, matching, not_matching,
  any, tag_for_addr, index_for_addr,
}
use gwr.Memory.Cache.Valid.{IsValid, SameLine}
use gwr.Memory.Cache.Ops.{set_data_valid_lem}
use gwr.Memory.Cache.Allocate.{allocate_lem}
use gwr.Memory.Cache.Handler.{
  Cache, Send, req, rsp_arb_0, handle_request, handle_response, request_as, response_as, read_line,
  answer, answer_waiting, count_read, count_hit, count_miss,
}

-- Two addresses of one line have one state.
state_for_line {ℓ} :
    {T : Type ℓ} (c : CacheContents T) (a b : ℕ)
    → SameLine c.config a b
    → state_for c a ≡ state_for c b
unfolding state_for
state_for_line c a b (t, i) = rw (t, i)

module _ {ℓ} {A : Type ℓ} (p : A → Bool) where
  any_none : (xs : List A) → any p xs ≡ false → matching p xs ≡ []
  unfolding any matching
  any_none [] e = refl
  any_none (x ∷ xs) e = ground (arith, any_none xs)

  not_matching_all : (xs : List A) → any p xs ≡ false → not_matching p xs ≡ xs
  unfolding any not_matching
  not_matching_all [] e = refl
  not_matching_all (x ∷ xs) e = ground (arith, not_matching_all xs)

  -- Nothing that is left fits.
  pub any-not_matching : (xs : List A) → any p (not_matching p xs) ≡ false
  unfolding any not_matching
  any-not_matching [] = refl
  any-not_matching (x ∷ xs) = ground (arith, any-not_matching xs)

module _ {ℓ} {T : Type ℓ} ⦃m : AccessMemory T⦄ where
  -- The sends that answer the given reads, in order, on the input of the response arbiter.
  pub data Answers : List T → List (Send T) → Type ℓ where
    nil : Answers [] []
    cons :
        (x y : T) {xs : List T} {ys : List (Send T)}
        → m.to_response x ≡ ok y
        → Answers xs ys
        → Answers (x ∷ xs) (rsp_arb_0 y ∷ ys)

  answer-Answers :
      (xs : List T)
      → All (λ x. (y : T) × (m.to_response x ≡ ok y)) xs
      → (ys : List (Send T)) × (answer xs ≡ ok ys) × Answers xs ys
  unfolding answer
  answer-Answers [] h = ([], refl, nil)
  answer-Answers (x ∷ xs) ((y, e), h) =
      let (ys, f, done) = answer-Answers xs h in (rsp_arb_0 y ∷ ys, rw (e, f), cons x y e done)

  -- The reads that wait for the line of an address, oldest first.
  abbrev pub waiting_on : CacheContents T → ℕ → List T
  waiting_on c a = map (λ w. w.2) (matching (for_line c a) c.waiting_for_response)

  get_requests_lem :
      (c : CacheContents T) (x : T) (s : Cache T)
      → All (λ x. (y : T) × (m.to_response x ≡ ok y)) (waiting_on c (m.dst_addr x))
      → (ys : List (Send T)) × (answer_waiting x (get_requests_waiting_for_response c x) s
          ≡ ok (
            record s {
              contents = record c {
                waiting_for_response =
                    not_matching (for_line c (m.dst_addr x)) c.waiting_for_response;
              };
            },
            rsp_arb_0 x ∷ ys,
          ))
        × Answers (waiting_on c (m.dst_addr x)) ys
  unfolding get_requests_waiting_for_response answer_waiting
  get_requests_lem c x s h =
      elim (Bool-cases (any (for_line c (m.dst_addr x)) c.waiting_for_response)) [
        | inl e ↦ let (ys, f, done) = answer-Answers _ h in (ys, rw (e, f), done)
        | inr e ↦ ([], rw (e, not_matching_all _ _ e), rw (any_none _ _ e) nil)
      ]

  -- In a valid cache in which every read that waits for the line of a read response has a response:
  -- the read response goes on to the device and answers every read that waited for its line, oldest
  -- first; no read waits for the line afterwards, and those that wait for other lines still do. The
  -- line has data if it is still in the cache, with or without data; a line that has been evicted or
  -- invalidated since it was asked for stays out of the cache. Neither hits, misses nor bytes are
  -- counted.
  pub handle_response_serves :
      (s : Cache T) (x : T)
      → IsValid s.contents
      → m.access_type x ≡ read_response
      → All (λ r. (y : T) × (m.to_response r ≡ ok y)) (waiting_on s.contents (m.dst_addr x))
      → (s' : Cache T) × (ys : List (Send T)) × (handle_response s x ≡ ok (s', rsp_arb_0 x ∷ ys))
        × Answers (waiting_on s.contents (m.dst_addr x)) ys
        × (any (for_line s.contents (m.dst_addr x)) s'.contents.waiting_for_response ≡ false)
        × (s'.contents.waiting_for_response
            ≡ not_matching (for_line s.contents (m.dst_addr x)) s.contents.waiting_for_response)
        × (state_for s'.contents (m.dst_addr x)
            ≡ Option.map (λ _. valid_data) (state_for s.contents (m.dst_addr x)))
        × (s'.metrics ≡ s.metrics)
  unfolding handle_response set_data_valid state_for
  handle_response_serves s x v e h =
      let (ys, f, done) = get_requests_lem (set_data_valid s.contents (m.dst_addr x)) x s h in
      (
        record s {
          contents = record (set_data_valid s.contents (m.dst_addr x)) {
            waiting_for_response =
                not_matching (for_line s.contents (m.dst_addr x)) s.contents.waiting_for_response;
          };
        },
        ys,
        rw (e, response_as) f,
        done,
        any-not_matching _ _,
        refl,
        (set_data_valid_lem s.contents v (m.dst_addr x)).0,
        refl,
      )

  -- In a valid cache, a read of a line that is not in the cache is sent to the memory and counts as a
  -- miss; a read of the same line that is the next access to be handled is not sent: it waits, behind
  -- the reads that wait already, and counts as a hit.
  pub miss_then_wait :
      (s : Cache T) (r q : T)
      → IsValid s.contents
      → m.access_type r ≡ read_request
      → m.access_type q ≡ read_request
      → SameLine s.contents.config (m.dst_addr r) (m.dst_addr q)
      → state_for s.contents (m.dst_addr r) ≡ none
      → (s' s'' : Cache T) × (handle_request s r ≡ ok (s', req r ∷ []))
        × (handle_request s' q ≡ ok (s'', []))
        × (s''.contents.waiting_for_response
            ≡ s'.contents.waiting_for_response
              ++ (
                tag_for_addr s.contents.config (m.dst_addr q),
                index_for_addr s.contents.config (m.dst_addr q),
                q,
              )
                ∷ [])
        × (s''.metrics.num_misses ≡ s.metrics.num_misses + 1)
        × (s''.metrics.num_hits ≡ s.metrics.num_hits + 1)
  unfolding handle_request read_line add_waiting_for_response allocate
  miss_then_wait s r q v er eq same absent =
      (after_miss, after_wait, rw (er, request_as, absent, read_line), second, refl, refl, refl)
    where
      after_miss : Cache T
      after_miss = count_miss (record (count_read s (m.access_size_bytes r)) {
        contents = allocate s.contents (m.dst_addr r);
      })

      after_wait : Cache T
      after_wait = count_hit (record (count_read after_miss (m.access_size_bytes q)) {
        contents = add_waiting_for_response after_miss.contents q;
      })

      joined : state_for after_miss.contents (m.dst_addr q) ≡ some allocated
      joined =
          sym (state_for_line after_miss.contents (m.dst_addr r) (m.dst_addr q) same)
          ∙ (allocate_lem s.contents v (m.dst_addr r) absent).0

      second : handle_request after_miss q ≡ ok (after_wait, [])
      second = rw (eq, request_as, joined, read_line)
