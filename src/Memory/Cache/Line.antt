-- ===== src/Memory/Cache/Line.antt =====
-- One set of the cache: what the loops over its ways do to the line that they are called for, and
-- to the other lines of the set.
use gwr.Base.{
  ℕ, zero, suc, ◌<◌, ◌≡◌, refl, ◌≢◌, none, some, List, [], ◌∷◌, true, false, ◌==◌, ◌&&◌,
  if◌then◌else◌, length, get_or, set, All, arith,
}
use mathlib.Core.Option
use gwr.Memory.Cache.{
  EntryState, allocated, valid_data, CacheEntry, in_use, find_state, mark_valid, drop_tag,
  default_entry,
}

-- The ways in use hold different tags.
abbrev pub Distinct : List CacheEntry → Type 0
Distinct [] = Unit {0}
Distinct (e ∷ ways) = (in_use e.state ≡ true → find_state e.tag ways ≡ none) × Distinct ways

-- A way that is not in use has the tag 0.
abbrev pub Reset : List CacheEntry → Type 0
Reset = All (λ e. in_use e.state ≡ false → e.tag ≡ 0)

-- The first way with the tag is not in use.
abbrev pub Shadowed : ℕ → List CacheEntry → Type 0
Shadowed t [] = ⊥
Shadowed t (e ∷ ways) = if e.tag == t then in_use e.state ≡ false else Shadowed t ways

module _ (t : ℕ) where
  pub find_state-mark_valid_self :
      (ways : List CacheEntry)
      → find_state t (mark_valid t ways) ≡ Option.map (λ _. valid_data) (find_state t ways)
  unfolding find_state mark_valid
  find_state-mark_valid_self [] = refl
  find_state-mark_valid_self (e ∷ ways) = ground (arith, find_state-mark_valid_self ways)

  pub find_state-mark_valid_ne :
      (u : ℕ) (ways : List CacheEntry)
      → u ≢ t
      → find_state u (mark_valid t ways) ≡ find_state u ways
  unfolding find_state mark_valid
  find_state-mark_valid_ne u [] h = refl
  find_state-mark_valid_ne u (e ∷ ways) h = ground (arith, find_state-mark_valid_ne u ways h)

  pub find_state-drop_tag_ne :
      (u : ℕ) (ways : List CacheEntry) → u ≢ t → find_state u (drop_tag t ways) ≡ find_state u ways
  unfolding find_state drop_tag
  find_state-drop_tag_ne u [] h = refl
  find_state-drop_tag_ne u (e ∷ ways) h = ground (arith, find_state-drop_tag_ne u ways h)

  pub find_state-drop_tag_self :
      (ways : List CacheEntry)
      → t ≢ 0
      → Reset ways
      → Distinct ways
      → find_state t (drop_tag t ways) ≡ none
  unfolding find_state drop_tag
  find_state-drop_tag_self [] h r d = refl
  find_state-drop_tag_self (e ∷ ways) h r d =
      ground (arith, find_state-drop_tag_self ways h r.1 d.1)

  pub find_state-drop_tag-Shadowed :
      (ways : List CacheEntry)
      → Shadowed t ways
      → find_state t (drop_tag t ways) ≡ find_state t ways
  unfolding find_state drop_tag
  find_state-drop_tag-Shadowed [] h = absurd h
  find_state-drop_tag-Shadowed (e ∷ ways) h = ground (arith, find_state-drop_tag-Shadowed ways)

  mark_valid-none :
      (u : ℕ) (ways : List CacheEntry)
      → find_state u ways ≡ none
      → find_state u (mark_valid t ways) ≡ none
  unfolding find_state mark_valid
  mark_valid-none u [] h = refl
  mark_valid-none u (e ∷ ways) h = ground (arith, mark_valid-none u ways)

  drop_tag-none :
      (u : ℕ) (ways : List CacheEntry)
      → find_state u ways ≡ none
      → find_state u (drop_tag t ways) ≡ none
  unfolding find_state drop_tag
  drop_tag-none u [] h = refl
  drop_tag-none u (e ∷ ways) h = ground (arith, drop_tag-none u ways)

  pub mark_valid-Distinct : (ways : List CacheEntry) → Distinct ways → Distinct (mark_valid t ways)
  unfolding mark_valid
  mark_valid-Distinct [] d = tt
  mark_valid-Distinct (e ∷ ways) d =
      ground (arith, mark_valid-Distinct ways d.1, mark_valid-none e.tag ways)

  pub drop_tag-Distinct : (ways : List CacheEntry) → Distinct ways → Distinct (drop_tag t ways)
  unfolding drop_tag
  drop_tag-Distinct [] d = tt
  drop_tag-Distinct (e ∷ ways) d =
      ground (arith, drop_tag-Distinct ways d.1, drop_tag-none e.tag ways)

  pub mark_valid-Reset : (ways : List CacheEntry) → Reset ways → Reset (mark_valid t ways)
  unfolding mark_valid
  mark_valid-Reset [] r = tt
  mark_valid-Reset (e ∷ ways) r = ground (arith, mark_valid-Reset ways r.1)

  pub drop_tag-Reset : (ways : List CacheEntry) → Reset ways → Reset (drop_tag t ways)
  unfolding drop_tag
  drop_tag-Reset [] r = tt
  drop_tag-Reset (e ∷ ways) r = ground (arith, drop_tag-Reset ways r.1)

  pub length-mark_valid : (ways : List CacheEntry) → length (mark_valid t ways) ≡ length ways
  unfolding mark_valid
  length-mark_valid [] = refl
  length-mark_valid (e ∷ ways) = ground (arith, length-mark_valid ways)

  pub length-drop_tag : (ways : List CacheEntry) → length (drop_tag t ways) ≡ length ways
  unfolding drop_tag
  length-drop_tag [] = refl
  length-drop_tag (e ∷ ways) = ground (arith, length-drop_tag ways)

  -- The entry that `allocate` writes.
  abbrev pub new_line : CacheEntry
  new_line = record { state = allocated; tag = t }

  pub find_state-set_self :
      (ways : List CacheEntry) (k : ℕ)
      → k < length ways
      → find_state t ways ≡ none
      → find_state t (set ways k new_line) ≡ some allocated
  unfolding find_state
  find_state-set_self [] k h e = absurd (omega arith)
  find_state-set_self (w ∷ ways) zero h e = ground arith
  find_state-set_self (w ∷ ways) (suc k) h e =
      ground (arith, find_state-set_self ways k (omega arith))

  set-none :
      (u : ℕ) (ways : List CacheEntry) (k : ℕ)
      → u ≢ t
      → find_state u ways ≡ none
      → find_state u (set ways k new_line) ≡ none
  unfolding find_state
  set-none u [] k h e = refl
  set-none u (w ∷ ways) zero h e = ground arith
  set-none u (w ∷ ways) (suc k) h e = ground (arith, set-none u ways k h)

  -- A line other than the new one stays, unless it was in the way that is overwritten.
  pub find_state-set_ne :
      (u : ℕ) (ways : List CacheEntry) (k : ℕ)
      → u ≢ t
      → (in_use (get_or ways k default_entry).state && (get_or ways k default_entry).tag == u)
        ≡ false
      → find_state u (set ways k new_line) ≡ find_state u ways
  unfolding find_state
  find_state-set_ne u [] k h e = refl
  find_state-set_ne u (w ∷ ways) zero h e = ground arith
  find_state-set_ne u (w ∷ ways) (suc k) h e = ground (arith, find_state-set_ne u ways k h e)

  -- The line that was in that way is gone.
  pub find_state-set_evicted :
      (u : ℕ) (ways : List CacheEntry) (k : ℕ)
      → u ≢ t
      → Distinct ways
      → (in_use (get_or ways k default_entry).state && (get_or ways k default_entry).tag == u)
        ≡ true
      → find_state u (set ways k new_line) ≡ none
  unfolding find_state
  find_state-set_evicted u [] k h d e = refl
  find_state-set_evicted u (w ∷ ways) zero h d e = ground arith
  find_state-set_evicted u (w ∷ ways) (suc k) h d e =
      ground (arith, find_state-set_evicted u ways k h d.1 e, held ways k u e)
    where
      held :
          (ways : List CacheEntry) (k u : ℕ)
          → (in_use (get_or ways k default_entry).state && (get_or ways k default_entry).tag == u)
            ≡ true
          → find_state u ways ≢ none
      held [] k u e = ground arith
      held (w ∷ ways) zero u e = ground arith
      held (w ∷ ways) (suc k) u e = ground (arith, held ways k u e)

  pub set-Distinct :
      (ways : List CacheEntry) (k : ℕ)
      → find_state t ways ≡ none
      → Distinct ways
      → Distinct (set ways k new_line)
  unfolding find_state
  set-Distinct [] k e d = tt
  set-Distinct (w ∷ ways) zero e d = (λ _. ground arith, d.1)
  set-Distinct (w ∷ ways) (suc k) e d = (
    λ used. set-none w.tag ways k (ground arith) (d.0 used),
    set-Distinct ways k (ground arith) d.1,
  )

  pub set-Reset : (ways : List CacheEntry) (k : ℕ) → Reset ways → Reset (set ways k new_line)
  set-Reset [] k r = tt
  set-Reset (w ∷ ways) zero r = (λ e. cc, r.1)
  set-Reset (w ∷ ways) (suc k) r = (r.0, set-Reset ways k r.1)

-- A state that is reported is one of a way in use.
pub find_state-in_use :
    (t : ℕ) (ways : List CacheEntry) (s : EntryState) → find_state t ways ≡ some s → in_use s ≡ true
unfolding find_state
find_state-in_use t [] s h = cc
find_state-in_use t (w ∷ ways) s h = ground (arith, find_state-in_use t ways s)
