-- ===== src/Queue/Laws.antt =====
-- A bounded queue that gives its values in order, and the first that a predicate picks.
use gwr.Base.{
  ℕ, ◌≤◌, ◌≡◌, refl, ap, Option, none, some, List, [], ◌∷◌, ◌++◌, length, length-append, get_elem?,
  remove_at, position, shift, All, Bool, true, false, if◌then◌else◌, arith,
}
use gwr.Queue.{QueueCore, len, reached, is_full, changed, push_now, push, remove_where}

-- The length is within the capacity, if there is one.
abbrev pub Within : Option ℕ → ℕ → Type 0
Within none n = 0 ≤ n
Within (some capacity) n = n ≤ capacity

module _ {ℓ} {T : Type ℓ} where
  abbrev pub IsValid : QueueCore T → Type 0
  IsValid q = Within q.capacity (len q)

  -- What is left of a list, and the value, when the first that the predicate picks is taken out.
  pub data Taken (p : T → Bool) (xs : List T) : List T → Option T → Type ℓ where
    nothing : All (λ x. p x ≡ false) xs → Taken p xs xs none
    first :
        (before : List T) (x : T) (after : List T)
        → xs ≡ before ++ x ∷ after
        → All (λ y. p y ≡ false) before
        → p x ≡ true
        → Taken p xs (before ++ after) (some x)

  -- `remove_where` on the list.
  unfoldable pub take_out : (T → Bool) → List T → List T × Option T
  take_out p xs = (
    elim (position p xs) [ some index ↦ remove_at xs index | none ↦ xs ],
    elim (position p xs) [ some index ↦ get_elem? xs index | none ↦ none ],
  )

  passes_over :
      (p : T → Bool) (x : T) (xs ys : List T) (o : Option T)
      → p x ≡ false
      → Taken p xs ys o
      → Taken p (x ∷ xs) (x ∷ ys) o
  passes_over p x xs ys o e (nothing none_) = nothing (e, none_)
  passes_over p x xs ys o e (first before y after split before_ here) =
      first (x ∷ before) y after (ap (◌∷◌ x) split) (e, before_) here

  take_out-Taken : (p : T → Bool) (xs : List T) → Taken p xs (take_out p xs).0 (take_out p xs).1
  unfolding take_out
  take_out-Taken p [] = nothing tt
  take_out-Taken p (x ∷ xs) = head (p x) refl (take_out-Taken p xs)
    where
      step :
          (q : Option ℕ)
          → p x ≡ false
          → Taken p xs
              (elim q [ some index ↦ remove_at xs index | none ↦ xs ])
              (elim q [ some index ↦ get_elem? xs index | none ↦ none ])
          → Taken p
              (x ∷ xs)
              (elim (shift q) [ some index ↦ remove_at (x ∷ xs) index | none ↦ x ∷ xs ])
              (elim (shift q) [ some index ↦ get_elem? (x ∷ xs) index | none ↦ none ])
      step none e t = passes_over p x xs xs none e t
      step (some i) e t = passes_over p x xs (remove_at xs i) (get_elem? xs i) e t

      head :
          (b : Bool)
          → p x ≡ b
          → Taken p xs (take_out p xs).0 (take_out p xs).1
          → Taken p
              (x ∷ xs)
              (elim (if b then some 0 else shift (position p xs)) [
                | some index ↦ remove_at (x ∷ xs) index
                | none ↦ x ∷ xs
              ])
              (elim (if b then some 0 else shift (position p xs)) [
                | some index ↦ get_elem? (x ∷ xs) index
                | none ↦ none
              ])
      head true e t = first [] x xs refl tt e
      head false e t = step (position p xs) e t

  -- `remove_where` gives the first value that the predicate picks and takes it out, with all others
  -- left in order; if it picks none, it gives nothing and leaves the queue as it is.
  pub remove_where-Taken :
      (p : T → Bool) (q : QueueCore T)
      → Taken p q.values (remove_where p q).0.values (remove_where p q).1
  unfolding remove_where take_out
  remove_where-Taken p q = at_index (position p q.values) (take_out-Taken p q.values)
    where
      kept : (ys : List T) → Taken p q.values ys none → Taken p q.values q.values none
      kept ys (nothing none_) = nothing none_

      at_value :
          (o : Option T) (ys : List T)
          → Taken p q.values ys o
          → Taken p q.values
              (elim o as (λ _. QueueCore T × Option T) [
                | none ↦ (q, none)
                | some value ↦ (changed q ys, some value)
              ]).0.values
              (elim o as (λ _. QueueCore T × Option T) [
                | none ↦ (q, none)
                | some value ↦ (changed q ys, some value)
              ]).1
      at_value none ys t = kept ys t
      at_value (some value) ys t = t

      removed : Option ℕ → QueueCore T × Option T
      removed none = (q, none)
      removed (some index) = elim (get_elem? q.values index) [
        | none ↦ (q, none)
        | some value ↦ (changed q (remove_at q.values index), some value)
      ]

      at_index :
          (o : Option ℕ)
          → Taken p q.values
              (elim o [ some index ↦ remove_at q.values index | none ↦ q.values ])
              (elim o [ some index ↦ get_elem? q.values index | none ↦ none ])
          → Taken p q.values (removed o).0.values (removed o).1
      at_index none t = t
      at_index (some index) t = at_value (get_elem? q.values index) (remove_at q.values index) t

  -- A task that pushes waits exactly if the queue is full; otherwise its value is the last. The
  -- queue stays within its capacity.
  pub push_lem :
      (q : QueueCore T) (v : T)
      → IsValid q
      → (is_full q ≡ true → push q v ≡ none)
        × (is_full q ≡ false
            → (push q v ≡ some (changed q (q.values ++ v ∷ [])))
              × IsValid (changed q (q.values ++ v ∷ [])))
  unfolding push push_now is_full
  push_lem q v valid = ((λ e. rw e), λ e. (rw e, room q.capacity valid e))
    where
      room :
          (c : Option ℕ)
          → Within c (len q)
          → reached c (len q) ≡ false
          → Within c (length (q.values ++ v ∷ []))
      room none h e = omega arith
      room (some c) h e = ground (arith, length-append q.values (v ∷ []))
