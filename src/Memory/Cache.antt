-- ===== src/Memory/Cache.antt =====
-- gwr-models/src/memory/cache.rs: the contents of the n-way set-associative cache.
pub mod Line
pub mod Valid
pub mod Ops
pub mod Allocate
pub mod Handler
use gwr.Base.{
  ℕ, ◌+◌, ◌/◌, ◌%◌, Option, none, some, List, [], ◌∷◌, ◌++◌, map, Bool, true, false, ◌==◌, ◌&&◌,
  ◌||◌, if◌then◌else◌, get_or, set, replicate,
}
use gwr.Memory.Access.{AccessMemory}

pub record CacheConfig : Type 0 where
  pub line_size_bytes : ℕ
  pub bw_bytes_per_cycle : ℕ
  pub num_sets : ℕ
  pub num_ways : ℕ
  pub delay_ticks : ℕ

pub data EntryState : Type 0 where
  available allocated valid_data : EntryState

pub record CacheEntry : Type 0 where
  pub state : EntryState
  pub tag : ℕ

pub record CacheContents {ℓ} (T : Type ℓ) : Type ℓ where
  pub config : CacheConfig
  pub open config use *
  pub sets : List (List CacheEntry)
  pub waiting_for_response : List (ℕ × ℕ × T)
  pub lru_indices : List ℕ

-- `CacheEntry::default()`
abbrev pub default_entry : CacheEntry
default_entry = record { state = available; tag = 0 }

unfoldable pub new {ℓ} : {T : Type ℓ} → CacheConfig → CacheContents T
new config = record {
  config = config;
  sets = replicate config.num_sets (replicate config.num_ways default_entry);
  waiting_for_response = [];
  lru_indices = replicate config.num_sets 0;
}

-- The set index and the tag of an address. (A line size or a number of sets of 0 is a division by
-- zero in the code: `Valid.IsValid` rules it out.)
module _ (config : CacheConfig) where
  unfoldable pub index_for_addr : ℕ → ℕ
  index_for_addr addr = addr / config.line_size_bytes % config.num_sets

  unfoldable pub tag_for_addr : ℕ → ℕ
  tag_for_addr addr = addr / config.line_size_bytes / config.num_sets

-- `state != EntryState::Available`
abbrev pub in_use : EntryState → Bool
in_use available = false
in_use allocated = true
in_use valid_data = true

-- The loops of `state_for`, `set_data_valid` and `invalidate` over the ways of one set.
unfoldable pub find_state : ℕ → List CacheEntry → Option EntryState
find_state tag [] = none
find_state tag (e ∷ ways) =
    if in_use e.state && e.tag == tag then some e.state else find_state tag ways

unfoldable pub mark_valid : ℕ → List CacheEntry → List CacheEntry
mark_valid tag [] = []
mark_valid tag (e ∷ ways) =
    if in_use e.state && e.tag == tag
    then record e { state = valid_data } ∷ ways
    else e ∷ mark_valid tag ways

unfoldable pub drop_tag : ℕ → List CacheEntry → List CacheEntry
drop_tag tag [] = []
drop_tag tag (e ∷ ways) =
    if e.tag == tag then record { state = available; tag = 0 } ∷ ways else e ∷ drop_tag tag ways

module _ {ℓ} {T : Type ℓ} (c : CacheContents T) where
  abbrev pub ways_for : ℕ → List CacheEntry
  ways_for index = get_or c.sets index []

  unfoldable pub state_for : ℕ → Option EntryState
  state_for addr = find_state (tag_for_addr c.config addr) (ways_for (index_for_addr c.config addr))

  -- The ways of the address's set, changed by `f`.
  abbrev pub update_ways : ℕ → (List CacheEntry → List CacheEntry) → CacheContents T
  update_ways index f = record c { sets = set c.sets index (f (ways_for index)) }

  unfoldable pub allocate : ℕ → CacheContents T
  allocate addr = record c {
    sets = set c.sets index (
        set (ways_for index) insert_index
          (record { state = allocated; tag = tag_for_addr c.config addr }));
    lru_indices = set c.lru_indices index ((insert_index + 1) % c.num_ways);
  }
    where
      index : ℕ
      index = index_for_addr c.config addr

      insert_index : ℕ
      insert_index = get_or c.lru_indices index 0

  unfoldable pub set_data_valid : ℕ → CacheContents T
  set_data_valid addr =
      update_ways (index_for_addr c.config addr) (mark_valid (tag_for_addr c.config addr))

  unfoldable pub invalidate : ℕ → CacheContents T
  invalidate addr =
      update_ways (index_for_addr c.config addr) (drop_tag (tag_for_addr c.config addr))

  -- Whether a stored tag and index are those of the address.
  abbrev pub for_line : ℕ → ℕ × ℕ × T → Bool
  for_line addr w = w.0 == tag_for_addr c.config addr && w.1 == index_for_addr c.config addr

-- `partition`, and `any`.
unfoldable pub matching {ℓ} : {A : Type ℓ} → (A → Bool) → List A → List A
matching p [] = []
matching p (x ∷ xs) = if p x then x ∷ matching p xs else matching p xs

unfoldable pub not_matching {ℓ} : {A : Type ℓ} → (A → Bool) → List A → List A
not_matching p [] = []
not_matching p (x ∷ xs) = if p x then not_matching p xs else x ∷ not_matching p xs

unfoldable pub any {ℓ} : {A : Type ℓ} → (A → Bool) → List A → Bool
any p [] = false
any p (x ∷ xs) = p x || any p xs

module _ {ℓ} {T : Type ℓ} ⦃m : AccessMemory T⦄ (c : CacheContents T) where
  unfoldable pub add_waiting_for_response : T → CacheContents T
  add_waiting_for_response request = record c {
    waiting_for_response =
        c.waiting_for_response
        ++ ((tag_for_addr c.config addr, index_for_addr c.config addr, request) ∷ []);
  }
    where
      addr : ℕ
      addr = m.dst_addr request

  unfoldable pub get_requests_waiting_for_response : T → CacheContents T × Option (List T)
  get_requests_waiting_for_response response =
      if any (for_line c (m.dst_addr response)) c.waiting_for_response
      then (
        record c { waiting_for_response = not_matching (for_line c addr) c.waiting_for_response },
        some (map (λ w. w.2) (matching (for_line c addr) c.waiting_for_response)),
      )
      else (c, none)
    where
      addr : ℕ
      addr = m.dst_addr response
