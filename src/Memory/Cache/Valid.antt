-- ===== src/Memory/Cache/Valid.antt =====
-- The invariant of the cache contents, and what each operation does to the state of every address.
use native.Mathlib.Decide.{ℕ_discrete}
use native.Mathlib.Nat.{div-add-mod}
use gwr.Base.{
  ℕ, ◌+◌, ◌*◌, ◌/◌, ◌%◌, ◌<◌, ◌≡◌, refl, sym, ap₂, ◌∙◌, ◌↔◌, none, List, [], length, get_or,
  replicate, arith, length-set, length-replicate, get_or-set_self, get_or-set_ne, get_or-replicate,
  zero, suc,
}
use gwr.Memory.Cache.{
  CacheConfig, CacheContents, CacheEntry, default_entry, index_for_addr, tag_for_addr, ways_for,
  find_state, update_ways, new,
}
use gwr.Memory.Cache.Line.{Distinct, Reset}

pub record WaysOk (n : ℕ) (ways : List CacheEntry) : Type 0 where
  pub size : length ways ≡ n
  pub distinct : Distinct ways
  pub reset : Reset ways

pub record IsValid {ℓ} {T : Type ℓ} (c : CacheContents T) : Type ℓ where
  pub line_pos : 0 < c.line_size_bytes
  pub sets_pos : 0 < c.num_sets
  pub ways_pos : 0 < c.num_ways
  pub sets_length : length c.sets ≡ c.num_sets
  pub lru_length : length c.lru_indices ≡ c.num_sets
  pub ways_ok : (i : ℕ) → i < c.num_sets → WaysOk c.num_ways (ways_for c i)
  pub lru_ok : (i : ℕ) → i < c.num_sets → get_or c.lru_indices i 0 < c.num_ways

-- Two addresses are on the same line if they have the same tag and the same index.
abbrev pub SameLine : CacheConfig → ℕ → ℕ → Type 0
SameLine g a b = (tag_for_addr g a ≡ tag_for_addr g b) × (index_for_addr g a ≡ index_for_addr g b)

module _ (g : CacheConfig) (a b : ℕ) where
  -- The tag and the index together name the line-sized block that the address lies in, so that
  -- no two blocks are taken for one another.
  pub SameLine-iff : SameLine g a b ↔ (a / g.line_size_bytes ≡ b / g.line_size_bytes)
  unfolding tag_for_addr index_for_addr
  SameLine-iff = (λ h. block h.0 h.1, λ e. (rw e, rw e))
    where
      block :
          a / g.line_size_bytes / g.num_sets ≡ b / g.line_size_bytes / g.num_sets
          → a / g.line_size_bytes % g.num_sets ≡ b / g.line_size_bytes % g.num_sets
          → a / g.line_size_bytes ≡ b / g.line_size_bytes
      block t i =
          sym (div-add-mod (a / g.line_size_bytes) g.num_sets)
          ∙ ap₂ (λ q r. g.num_sets * q + r) t i
          ∙ div-add-mod (b / g.line_size_bytes) g.num_sets

replicate-none : (t n : ℕ) → find_state t (replicate n default_entry) ≡ none
unfolding find_state
replicate-none t zero = refl
replicate-none t (suc n) = replicate-none t n

replicate-Distinct : (n : ℕ) → Distinct (replicate n default_entry)
replicate-Distinct zero = tt
replicate-Distinct (suc n) = (λ e. replicate-none 0 n, replicate-Distinct n)

replicate-Reset : (n : ℕ) → Reset (replicate n default_entry)
replicate-Reset zero = tt
replicate-Reset (suc n) = (λ e. refl, replicate-Reset n)

-- A new cache is valid.
pub new-IsValid {ℓ} :
    (T : Type ℓ) (g : CacheConfig)
    → 0 < g.line_size_bytes
    → 0 < g.num_sets
    → 0 < g.num_ways
    → IsValid (new {T = T} g)
unfolding new
new-IsValid T g hl hs hw = record {
  line_pos = hl;
  sets_pos = hs;
  ways_pos = hw;
  sets_length = length-replicate g.num_sets _;
  lru_length = length-replicate g.num_sets 0;
  ways_ok = λ i h. rw (filled g.num_sets i h) (fresh g.num_ways);
  lru_ok = λ i h. rw (get_or-replicate {A = ℕ} g.num_sets i 0) hw;
}
  where
    fresh : (n : ℕ) → WaysOk n (replicate n default_entry)
    fresh n = record {
      size = length-replicate n _;
      distinct = replicate-Distinct n;
      reset = replicate-Reset n;
    }

    filled :
        (n i : ℕ)
        → i < n
        → get_or (replicate n (replicate g.num_ways default_entry)) i []
          ≡ replicate g.num_ways default_entry
    filled zero i h = elim h [ ]
    filled (suc n) zero h = refl
    filled (suc n) (suc i) h = filled n i (omega arith)

module _ {ℓ} {T : Type ℓ} (c : CacheContents T) (v : IsValid c) where
  pub index-lt : (a : ℕ) → index_for_addr c.config a < length c.sets
  unfolding index_for_addr
  index-lt a = rw (v.sets_length) (omega (arith, v.sets_pos))

  -- A change of one set that keeps the set in order keeps the cache valid.
  pub update_ways-IsValid :
      (index : ℕ) (f : List CacheEntry → List CacheEntry)
      → ((ways : List CacheEntry) → WaysOk c.num_ways ways → WaysOk c.num_ways (f ways))
      → IsValid (update_ways c index f)
  update_ways-IsValid index f keep = record {
    line_pos = v.line_pos;
    sets_pos = v.sets_pos;
    ways_pos = v.ways_pos;
    sets_length = length-set c.sets index _ ∙ v.sets_length;
    lru_length = v.lru_length;
    ways_ok = λ i h. elim (ℕ_discrete index i) [
      | yes e ↦
          rw (e, get_or-set_self c.sets i (f (ways_for c i)) [] (rw (v.sets_length) h))
            (keep _ (v.ways_ok i h))
      | no n ↦ rw (get_or-set_ne c.sets index i (f (ways_for c index)) [] n) (v.ways_ok i h)
    ];
    lru_ok = v.lru_ok;
  }
