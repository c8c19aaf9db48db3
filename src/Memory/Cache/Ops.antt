-- ===== src/Memory/Cache/Ops.antt =====
-- What `set_data_valid` and `invalidate` do to the state of every address.
use native.Mathlib.Decide.{ℕ_discrete}
use mathlib.Core.Option
use gwr.Base.{ℕ, ◌<◌, ◌≡◌, ◌≢◌, ◌∙◌, none, List, [], arith, get_or-set_self, get_or-set_ne}
use gwr.Memory.Cache.{
  CacheContents, CacheEntry, valid_data, index_for_addr, tag_for_addr, ways_for, find_state,
  mark_valid, drop_tag, state_for, set_data_valid, invalidate, update_ways,
}
use gwr.Memory.Cache.Line.{
  Shadowed, find_state-mark_valid_self, find_state-mark_valid_ne, find_state-drop_tag_ne,
  find_state-drop_tag_self, find_state-drop_tag-Shadowed, mark_valid-Distinct, drop_tag-Distinct,
  mark_valid-Reset, drop_tag-Reset, length-mark_valid, length-drop_tag,
}
use gwr.Memory.Cache.Valid.{IsValid, SameLine, index-lt, update_ways-IsValid}

module _ {ℓ} {T : Type ℓ} (c : CacheContents T) (v : IsValid c) where
  -- The state of the address whose set was changed, and of one on another line.
  pub state_for_here :
      (a : ℕ) (f : List CacheEntry → List CacheEntry)
      → state_for (update_ways c (index_for_addr c.config a) f) a
        ≡ find_state (tag_for_addr c.config a) (f (ways_for c (index_for_addr c.config a)))
  unfolding state_for
  state_for_here a f = rw (get_or-set_self c.sets (index_for_addr c.config a) _ [] (index-lt c v a))

  pub state_for_there :
      (a b : ℕ) (f : List CacheEntry → List CacheEntry)
      → ((tag_for_addr c.config b ≢ tag_for_addr c.config a)
          → find_state (tag_for_addr c.config b) (f (ways_for c (index_for_addr c.config a)))
            ≡ find_state (tag_for_addr c.config b) (ways_for c (index_for_addr c.config a)))
      → ¬ SameLine c.config a b
      → state_for (update_ways c (index_for_addr c.config a) f) b ≡ state_for c b
  unfolding state_for
  state_for_there a b f same other =
      elim (ℕ_discrete (index_for_addr c.config a) (index_for_addr c.config b)) [
        | no n ↦ rw (get_or-set_ne c.sets _ _ (f (ways_for c (index_for_addr c.config a))) [] n)
        | yes e ↦
            rw
              (
                ← e,
                get_or-set_self c.sets (index_for_addr c.config a)
                    (f (ways_for c (index_for_addr c.config a))) [] (index-lt c v a),
              )
              (same (λ t. other (cc, e)))
      ]

  -- A response makes the data of a line in use valid, leaves a line that is not in the cache out of
  -- it, and changes no other line; the cache stays valid.
  pub set_data_valid_lem :
      (a : ℕ)
      → (state_for (set_data_valid c a) a ≡ Option.map (λ _. valid_data) (state_for c a))
        × ((b : ℕ) → ¬ SameLine c.config a b → state_for (set_data_valid c a) b ≡ state_for c b)
        × IsValid (set_data_valid c a)
  unfolding set_data_valid
  set_data_valid_lem a = (
    state_for_here a (mark_valid tag) ∙ unfold state_for in find_state-mark_valid_self tag _,
    λ b other. state_for_there a b (mark_valid tag) (find_state-mark_valid_ne tag _ _) other,
    update_ways-IsValid c v _ (mark_valid tag) λ ways ok. record {
      size = length-mark_valid tag ways ∙ ok.size;
      distinct = mark_valid-Distinct tag ways ok.distinct;
      reset = mark_valid-Reset tag ways ok.reset;
    },
  )
    where
      tag : ℕ
      tag = tag_for_addr c.config a

  -- `invalidate` changes no other line, and the cache stays valid.
  pub invalidate_frame :
      (a : ℕ)
      → ((b : ℕ) → ¬ SameLine c.config a b → state_for (invalidate c a) b ≡ state_for c b)
        × IsValid (invalidate c a)
  unfolding invalidate
  invalidate_frame a = (
    λ b other. state_for_there a b (drop_tag tag) (find_state-drop_tag_ne tag _ _) other,
    update_ways-IsValid c v _ (drop_tag tag) λ ways ok. record {
      size = length-drop_tag tag ways ∙ ok.size;
      distinct = drop_tag-Distinct tag ways ok.distinct;
      reset = drop_tag-Reset tag ways ok.reset;
    },
  )
    where
      tag : ℕ
      tag = tag_for_addr c.config a

  -- After `invalidate` a line with a tag other than 0 is not in the cache.
  pub state_for-invalidate :
      (a : ℕ) → tag_for_addr c.config a ≢ 0 → state_for (invalidate c a) a ≡ none
  unfolding invalidate
  state_for-invalidate a h =
      state_for_here a (drop_tag _)
      ∙ find_state-drop_tag_self _ _ h (v.ways_ok _ inside).reset (v.ways_ok _ inside).distinct
    where
      inside : index_for_addr c.config a < c.num_sets
      inside = omega (arith, v.sets_length, index-lt c v a)

  -- The loop of `invalidate` compares tags only: where a way that is not in use comes before the
  -- line of tag 0, that way is reset once more and the line stays in the cache as it was.
  pub state_for-invalidate-Shadowed :
      (a : ℕ)
      → Shadowed (tag_for_addr c.config a) (ways_for c (index_for_addr c.config a))
      → state_for (invalidate c a) a ≡ state_for c a
  unfolding invalidate
  state_for-invalidate-Shadowed a h =
      state_for_here a (drop_tag _) ∙ unfold state_for in find_state-drop_tag-Shadowed _ _ h
