-- ===== src/Memory/Cache/Handler/Laws.antt =====
-- What a request and a response do to the cache, on every branch.
use gwr.Base.{
  ◌+◌, ◌≡◌, refl, Option, none, some, List, [], ◌∷◌, Outcome, ok, error, panic, ◌>>=◌, arith,
}
use gwr.Memory.Access.{
  AccessType, read_request, write_request, write_non_posted_request, read_response,
  write_non_posted_response, control, AccessMemory,
}
use gwr.Memory.Cache.{
  CacheContents, EntryState, available, allocated, valid_data, state_for, allocate, invalidate,
  add_waiting_for_response,
}
use gwr.Memory.Cache.Line.{find_state-in_use}
use gwr.Memory.Cache.Valid.{IsValid}
use gwr.Memory.Cache.Ops.{invalidate_frame}
use gwr.Memory.Cache.Allocate.{allocate_lem}
use gwr.Memory.Cache.Handler.{
  Cache, Send, req, rsp_arb_1, Step, handle_request, read_line, request_as, count_read, count_hit,
}

-- What a step leaves, where it succeeds.
abbrev pub Leaves {ℓ κ} : {T : Type ℓ} → (Cache T → List (Send T) → Type κ) → Step T → Type κ
Leaves P (ok (s, sends)) = P s sends
Leaves P (error e) = Unit
Leaves P panic = Unit

module _ {ℓ} {T : Type ℓ} ⦃m : AccessMemory T⦄ where
  add_waiting-IsValid :
      (c : CacheContents T) (r : T) → IsValid c → IsValid (add_waiting_for_response c r)
  unfolding add_waiting_for_response
  add_waiting-IsValid c r v = record {
    line_pos = v.line_pos;
    sets_pos = v.sets_pos;
    ways_pos = v.ways_pos;
    sets_length = v.sets_length;
    lru_length = v.lru_length;
    ways_ok = v.ways_ok;
    lru_ok = v.lru_ok;
  }

  read_line-IsValid :
      (o : Option EntryState) (s : Cache T) (r : T)
      → state_for s.contents (m.dst_addr r) ≡ o
      → IsValid s.contents
      → Leaves (λ s' _. IsValid s'.contents) (read_line o s r)
  unfolding read_line state_for
  read_line-IsValid (some valid_data) s r e v =
      elim (m.to_response r)
        as (λ o.
          Leaves (λ s' _. IsValid s'.contents) (o >>= λ x. ok (count_hit s, rsp_arb_1 x ∷ []))) [
            | ok x ↦ v
            | error x ↦ tt
            | panic ↦ tt
          ]
  read_line-IsValid (some allocated) s r e v = add_waiting-IsValid s.contents r v
  read_line-IsValid (some available) s r e v = cc (find_state-in_use _ _ _ e)
  read_line-IsValid none s r e v = (allocate_lem s.contents v (m.dst_addr r) e).3

  -- A request whose handling does not fail keeps the cache valid, whatever its type and whatever
  -- the state of its line.
  pub handle_request-IsValid :
      (s : Cache T) (r : T)
      → IsValid s.contents
      → Leaves (λ s' _. IsValid s'.contents) (handle_request s r)
  unfolding handle_request
  handle_request-IsValid s r v = go (m.access_type r)
    where
      dropped : IsValid (invalidate s.contents (m.dst_addr r))
      dropped = (invalidate_frame s.contents v (m.dst_addr r)).1

      go : (t : AccessType) → Leaves (λ s' _. IsValid s'.contents) (request_as t s r)
      go control = dropped
      go read_request = read_line-IsValid _ (count_read s (m.access_size_bytes r)) r refl v
      go write_request = dropped
      go write_non_posted_request = dropped
      go read_response = tt
      go write_non_posted_response = tt

  -- What becomes of a read: it is answered at once, it waits for a response that is under way, or it
  -- is sent to the memory.
  pub data ReadFate (s : Cache T) (r : T) (s' : Cache T) (sends : List (Send T)) : Type ℓ where
    answered :
        (x : T)
        → state_for s.contents (m.dst_addr r) ≡ some valid_data
        → m.to_response r ≡ ok x
        → sends ≡ rsp_arb_1 x ∷ []
        → s'.contents ≡ s.contents
        → ReadFate s r s' sends
    waits :
        state_for s.contents (m.dst_addr r) ≡ some allocated
        → sends ≡ []
        → s'.contents ≡ add_waiting_for_response s.contents r
        → ReadFate s r s' sends
    sent :
        state_for s.contents (m.dst_addr r) ≡ none
        → sends ≡ req r ∷ []
        → s'.contents ≡ allocate s.contents (m.dst_addr r)
        → ReadFate s r s' sends

  -- A read either fails or is accounted for.
  abbrev pub ReadDone : Cache T → T → Cache T → List (Send T) → Type ℓ
  ReadDone s r s' sends =
      ReadFate s r s' sends
      × (s'.metrics.num_hits + s'.metrics.num_misses
          ≡ s.metrics.num_hits + s.metrics.num_misses + 1)
      × (s'.metrics.payload_bytes_read ≡ s.metrics.payload_bytes_read + m.access_size_bytes r)
      × (s'.metrics.payload_bytes_written ≡ s.metrics.payload_bytes_written)

  read_line-ReadDone :
      (o : Option EntryState) (s : Cache T) (r : T)
      → state_for s.contents (m.dst_addr r) ≡ o
      → Leaves (ReadDone s r) (read_line o (count_read s (m.access_size_bytes r)) r)
  unfolding read_line state_for
  read_line-ReadDone (some valid_data) s r e = go (m.to_response r) refl
    where
      go :
          (o : Outcome T)
          → m.to_response r ≡ o
          → Leaves
              (ReadDone s r)
              (o >>= λ x. ok (count_hit (count_read s (m.access_size_bytes r)), rsp_arb_1 x ∷ []))
      go (ok x) h = (answered x e h refl refl, omega arith, refl, refl)
      go (error x) h = tt
      go panic h = tt
  read_line-ReadDone (some allocated) s r e = (waits e refl refl, omega arith, refl, refl)
  read_line-ReadDone (some available) s r e = cc (find_state-in_use _ _ _ e)
  read_line-ReadDone none s r e = (sent e refl refl, omega arith, refl, refl)

  -- Every read whose handling does not fail is answered, made to wait, or sent to the memory,
  -- according to the state of its line, and is counted as one hit or one miss.
  pub handle_request-ReadDone :
      (s : Cache T) (r : T)
      → m.access_type r ≡ read_request
      → Leaves (ReadDone s r) (handle_request s r)
  unfolding handle_request
  handle_request-ReadDone s r e = rw (e, request_as) (read_line-ReadDone _ s r refl)
