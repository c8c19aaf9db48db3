-- ===== src/Memory/Cache/Allocate.antt =====
-- What `allocate` does to the state of every address.
use native.Mathlib.Decide.{ℕ_discrete}
use gwr.Base.{
  ℕ, ◌+◌, ◌%◌, ◌<◌, ◌≡◌, refl, ◌∙◌, none, some, List, [], Bool, true, false, ◌==◌, ◌&&◌, length,
  get_or, set, arith, length-set, get_or-set_self, get_or-set_ne,
}
use gwr.Memory.Cache.{
  CacheContents, CacheEntry, allocated, in_use, default_entry, index_for_addr, tag_for_addr,
  ways_for, find_state, state_for, allocate, update_ways,
}
use gwr.Memory.Cache.Line.{
  new_line, find_state-set_self, find_state-set_ne, find_state-set_evicted, set-Distinct, set-Reset,
}
use gwr.Memory.Cache.Valid.{IsValid, WaysOk, SameLine, index-lt}
use gwr.Memory.Cache.Ops.{state_for_here, state_for_there}

module _ {ℓ} {T : Type ℓ} (c : CacheContents T) (v : IsValid c) where
  -- The way that `allocate` will overwrite for an address.
  abbrev pub victim : ℕ → CacheEntry
  victim a =
      get_or (ways_for c (index_for_addr c.config a))
        (get_or c.lru_indices (index_for_addr c.config a) 0) default_entry

  -- Whether it holds the line of another address of the same set.
  abbrev pub evicts : ℕ → ℕ → Bool
  evicts a b = in_use (victim a).state && (victim a).tag == tag_for_addr c.config b

  -- `allocate` as a change of one set; the state of an address does not depend on `lru_indices`.
  abbrev fill : ℕ → List CacheEntry → List CacheEntry
  fill a ways =
      set ways (get_or c.lru_indices (index_for_addr c.config a) 0)
        (new_line (tag_for_addr c.config a))

  state_for-allocate :
      (a b : ℕ)
      → state_for (allocate c a) b
        ≡ state_for (update_ways c (index_for_addr c.config a) (fill a)) b
  unfolding allocate state_for
  state_for-allocate a b = refl

  state_for_same_set :
      (a b : ℕ)
      → index_for_addr c.config a ≡ index_for_addr c.config b
      → state_for (update_ways c (index_for_addr c.config a) (fill a)) b
        ≡ find_state (tag_for_addr c.config b) (fill a (ways_for c (index_for_addr c.config a)))
  unfolding state_for
  state_for_same_set a b e = rw (
    ← e,
    get_or-set_self c.sets (index_for_addr c.config a)
        (fill a (ways_for c (index_for_addr c.config a))) [] (index-lt c v a),
  )

  fill-WaysOk :
      (a : ℕ) (ways : List CacheEntry)
      → find_state (tag_for_addr c.config a) ways ≡ none
      → WaysOk c.num_ways ways
      → WaysOk c.num_ways (fill a ways)
  fill-WaysOk a ways missing ok = record {
    size = length-set ways _ _ ∙ ok.size;
    distinct = set-Distinct _ ways _ missing ok.distinct;
    reset = set-Reset _ ways _ ok.reset;
  }

  index-lt-num_sets : (a : ℕ) → index_for_addr c.config a < c.num_sets
  index-lt-num_sets a = omega (arith, v.sets_length, index-lt c v a)

  allocate-IsValid : (a : ℕ) → state_for c a ≡ none → IsValid (allocate c a)
  unfolding allocate state_for
  allocate-IsValid a missing = record {
    line_pos = v.line_pos;
    sets_pos = v.sets_pos;
    ways_pos = v.ways_pos;
    sets_length = length-set c.sets _ _ ∙ v.sets_length;
    lru_length = length-set c.lru_indices _ _ ∙ v.lru_length;
    ways_ok = λ i h. elim (ℕ_discrete (index_for_addr c.config a) i) [
      | yes e ↦
          rw
            (
              ← e,
              get_or-set_self c.sets (index_for_addr c.config a)
                  (fill a (ways_for c (index_for_addr c.config a))) [] (index-lt c v a),
            )
            (fill-WaysOk a _ missing (v.ways_ok _ (index-lt-num_sets a)))
      | no n ↦
          rw (get_or-set_ne c.sets _ i (fill a (ways_for c (index_for_addr c.config a))) [] n)
            (v.ways_ok i h)
    ];
    lru_ok = λ i h. elim (ℕ_discrete (index_for_addr c.config a) i) [
      | yes e ↦
          rw
            (
              ← e,
              get_or-set_self c.lru_indices (index_for_addr c.config a)
                  ((get_or c.lru_indices (index_for_addr c.config a) 0 + 1) % c.num_ways) 0
                  (omega (arith, v.lru_length, index-lt-num_sets a)),
            )
            (omega (arith, v.ways_pos))
      | no n ↦
          rw
            (get_or-set_ne c.lru_indices _ i
              ((get_or c.lru_indices (index_for_addr c.config a) 0 + 1) % c.num_ways) 0 n)
            (v.lru_ok i h)
    ];
  }

  -- A line that was not in the cache is in it after `allocate`, without data. At most one other
  -- line is lost: the one that the way of the set's replacement counter held. Every other line of
  -- the set and of the other sets keeps its state, and the cache stays valid.
  pub allocate_lem :
      (a : ℕ)
      → state_for c a ≡ none
      → (state_for (allocate c a) a ≡ some allocated)
        × ((b : ℕ)
            → ¬ SameLine c.config a b
            → evicts a b ≡ false
            → state_for (allocate c a) b ≡ state_for c b)
        × ((b : ℕ)
            → ¬ SameLine c.config a b
            → index_for_addr c.config a ≡ index_for_addr c.config b
            → evicts a b ≡ true
            → state_for (allocate c a) b ≡ none)
        × IsValid (allocate c a)
  allocate_lem a missing = (
    state_for-allocate a a
        ∙ state_for_here c v a (fill a)
        ∙ find_state-set_self _ _ _ room (unfold state_for in missing),
    λ b other kept.
        state_for-allocate a b
        ∙ state_for_there c v a b (fill a) (λ n. find_state-set_ne _ _ _ _ n kept) other,
    λ b other e gone.
        state_for-allocate a b
        ∙ state_for_same_set a b e
        ∙ find_state-set_evicted _ _ _ _ (λ t. other (cc, e)) ok.distinct gone,
    allocate-IsValid a missing,
  )
    where
      ok : WaysOk c.num_ways (ways_for c (index_for_addr c.config a))
      ok = v.ways_ok _ (index-lt-num_sets a)

      room :
          get_or c.lru_indices (index_for_addr c.config a) 0
          < length (ways_for c (index_for_addr c.config a))
      room = omega (arith, ok.size, v.lru_ok _ (index-lt-num_sets a))
