-- ===== src/Store/Laws.antt =====
-- The store is a bounded first-in first-out buffer: its two tasks keep the level right, and what
-- they put is what they got, in order.
use gwr.Base.{
  inl, inr, ℕ, ◌+◌, ◌-◌, ◌≤◌, ◌<◌, ◌≡◌, refl, sym, ap, ◌∙◌, ◌⊎◌, Option, none, some, List, [], ◌∷◌,
  ◌++◌, Bool, true, ltb, leb, if◌then◌else◌, Outcome, SimError, ok, error, ◌>>=◌, u64_mod,
  cannot_store, overflow, arith, Bool-cases, ltb-yes, ltb-no, leb-yes, leb-no,
}
use mathlib.Core.List.{append_assoc, append-nil}
use gwr.Store.{
  StoreState, has_capacity_for, check_units_can_fit, push_value, pop_value, offer, forward,
  set_used,
}

module _ {ℓ} {T : Type ℓ} (units : T → ℕ) where
  -- The units of the values that are held.
  abbrev pub level : List T → ℕ
  level [] = 0
  level (v ∷ vs) = units v + level vs

  pub level-append : (xs ys : List T) → level (xs ++ ys) ≡ level xs + level ys
  level-append [] ys = omega arith
  level-append (x ∷ xs) ys = omega (arith, level-append xs ys)

  abbrev pub IsValid : StoreState T → Type 0
  IsValid s = (s.used ≡ level s.values) × (s.used ≤ s.capacity) × (s.capacity < u64_mod)

  -- The store that holds other values, and counts them as `used`.
  abbrev pub holding : StoreState T → List T → ℕ → StoreState T
  holding s values used = set_used (record s { values = values }) used

  -- A store that is offered a value takes it at the end if its units fit beside those held. If they
  -- can never fit, it fails; if they do not fit now, it waits, or fails if it is set to. It never
  -- panics, and counts the units it holds.
  pub offer_lem :
      (s : StoreState T) (v : T)
      → IsValid s
      → (s.capacity < units v → offer units s v ≡ error cannot_store)
        × (s.used + units v ≤ s.capacity
            → (offer units s v ≡ ok (some (holding s (s.values ++ v ∷ []) (s.used + units v))))
              × IsValid (holding s (s.values ++ v ∷ []) (s.used + units v)))
        × (units v ≤ s.capacity
            → s.capacity < s.used + units v
            → offer units s v ≡ (if s.error_on_overflow then error overflow else ok none))
  unfolding offer check_units_can_fit has_capacity_for push_value
  offer_lem s v (same, fits, small) = (
    (λ h. rw (ltb-yes s.capacity (units v) h)),
    (λ h. (
      rw (
        ltb-no s.capacity (units v) (omega arith),
        known,
        leb-yes (units v) (s.capacity - s.used) (omega arith),
        ltb-yes (s.used + units v) u64_mod (omega arith),
      ),
      (omega (arith, level-append s.values (v ∷ [])), h, small),
    )),
    λ h k. elim (Bool-cases s.error_on_overflow) [
      | inl e ↦ rw (
        ltb-no s.capacity (units v) h,
        known,
        e,
        leb-no (units v) (s.capacity - s.used) (omega arith),
      )
      | inr e ↦ rw (
        ltb-no s.capacity (units v) h,
        known,
        e,
        leb-no (units v) (s.capacity - s.used) (omega arith),
      )
    ],
  )
    where
      known : leb s.used s.capacity ≡ true
      known = leb-yes s.used s.capacity fits

  -- A store that is asked for a value gives the one it took first, and waits only if it holds none.
  pub forward_lem :
      (s : StoreState T)
      → IsValid s
      → (s.values ≡ [] → forward units s ≡ ok none)
        × ((v : T) (vs : List T)
            → s.values ≡ v ∷ vs
            → (forward units s ≡ ok (some (holding s vs (s.used - units v), v)))
              × IsValid (holding s vs (s.used - units v)))
  unfolding forward pop_value
  forward_lem s (same, fits, small) = (
    (λ e. rw e),
    λ v vs e.
        let count = same ∙ ap level e in
        (rw (e, covered v vs count), (omega (arith, count), omega arith, small)),
  )
    where
      covered : (v : T) (vs : List T) → s.used ≡ units v + level vs → leb (units v) s.used ≡ true
      covered v vs count = ground arith

-- The rounds of the two tasks, in the order in which the executor runs them.
pub data Round {ℓ} (T : Type ℓ) : Type ℓ where
  offers : T → Round T
  forwards : Round T

-- What a run of rounds leaves: the store, the values it took and the values it gave.
pub record Run {ℓ} (T : Type ℓ) : Type ℓ where
  pub store : StoreState T
  pub taken : List T
  pub given : List T

module _ {ℓ} {T : Type ℓ} (units : T → ℕ) where
  -- The rest of a run, after a round.
  abbrev pub took :
      T → (StoreState T → Outcome (Run T)) → StoreState T → Option (StoreState T) → Outcome (Run T)
  took v rest s none = rest s
  took v rest s (some s') = rest s' >>= λ r. ok (record r { taken = v ∷ r.taken })

  abbrev pub gave :
      (StoreState T → Outcome (Run T)) → StoreState T → Option (StoreState T × T) → Outcome (Run T)
  gave rest s none = rest s
  gave rest s (some (s', v)) = rest s' >>= λ r. ok (record r { given = v ∷ r.given })

  abbrev pub run : StoreState T → List (Round T) → Outcome (Run T)
  run s [] = ok (record { store = s; taken = []; given = [] })
  run s (offers v ∷ rounds) = offer units s v >>= took v (λ s'. run s' rounds) s
  run s (forwards ∷ rounds) = forward units s >>= gave (λ s'. run s' rounds) s

  -- The run goes through with its values in order and the level right, or fails with one of the
  -- two errors of a store; it does not panic.
  pub data FirstInFirstOut (s : StoreState T) (result : Outcome (Run T)) : Type ℓ where
    completes :
        (r : Run T)
        → result ≡ ok r
        → IsValid units r.store
        → r.given ++ r.store.values ≡ s.values ++ r.taken
        → FirstInFirstOut s result
    fails :
        (e : SimError)
        → result ≡ error e
        → (e ≡ cannot_store) ⊎ (e ≡ overflow)
        → FirstInFirstOut s result

  after_take :
      (s : StoreState T) (v : T) (used : ℕ) (result : Outcome (Run T))
      → FirstInFirstOut (holding units s (s.values ++ v ∷ []) used) result
      → FirstInFirstOut s (result >>= λ r. ok (record r { taken = v ∷ r.taken }))
  after_take s v used result (completes r e valid order) =
      completes (record r { taken = v ∷ r.taken }) (rw e) valid
        (order ∙ append_assoc s.values (v ∷ []) r.taken)
  after_take s v used result (fails e h which) = fails e (rw h) which

  after_give :
      (s : StoreState T) (v : T) (vs : List T) (used : ℕ) (result : Outcome (Run T))
      → s.values ≡ v ∷ vs
      → FirstInFirstOut (holding units s vs used) result
      → FirstInFirstOut s (result >>= λ r. ok (record r { given = v ∷ r.given }))
  after_give s v vs used result held (completes r e valid order) =
      completes (record r { given = v ∷ r.given }) (rw e) valid
        (ap (◌∷◌ v) order ∙ ap (λ xs. xs ++ r.taken) (sym held))
  after_give s v vs used result held (fails e h which) = fails e (rw h) which

  -- Whatever the order in which the store's two tasks run, what it has given, followed by what it
  -- holds, is what it held, followed by what it has taken, in order: no value is lost, repeated or
  -- overtaken, and the level stays the units held, within the capacity. A run fails only with the
  -- errors for a value that does not fit, and never panics.
  pub run-FirstInFirstOut :
      (rounds : List (Round T)) (s : StoreState T)
      → IsValid units s
      → FirstInFirstOut s (run s rounds)
  run-FirstInFirstOut [] s v =
      completes (record { store = s; taken = []; given = [] }) refl v (sym (append-nil s.values))
  run-FirstInFirstOut (offers x ∷ rounds) s v =
      let answer : Bool → Outcome (Option (StoreState T)) =
        λ b. if b then error overflow else ok none in
      let (never, now, later) = offer_lem units s x v in
      elim (Bool-cases (ltb s.capacity (units x))) [
        | inl big ↦ rw (never (ground arith)) (fails cannot_store refl (inl refl))
        | inr fits ↦ elim (Bool-cases (leb (s.used + units x) s.capacity)) [
          | inl room ↦
              let (e, v') = now (ground arith) in
              rw e (
                after_take s x (s.used + units x)
                  (run (holding units s (s.values ++ x ∷ []) (s.used + units x)) rounds)
                  (run-FirstInFirstOut rounds
                    (holding units s (s.values ++ x ∷ []) (s.used + units x)) v'))
          | inr full ↦ elim (Bool-cases s.error_on_overflow) [
            | inl strict ↦
                rw (later (ground arith) (ground arith) ∙ ap answer strict)
                  (fails overflow refl (inr refl))
            | inr waits ↦
                rw (later (ground arith) (ground arith) ∙ ap answer waits)
                  (run-FirstInFirstOut rounds s v)
          ]
        ]
      ]
  run-FirstInFirstOut (forwards ∷ rounds) s v =
      go s.values refl (λ s' v'. run-FirstInFirstOut rounds s' v')
    where
      go :
          (vs : List T)
          → s.values ≡ vs
          → ((s' : StoreState T) → IsValid units s' → FirstInFirstOut s' (run s' rounds))
          → FirstInFirstOut s (run s (forwards ∷ rounds))
      go [] e ih = rw ((forward_lem units s v).0 e) (ih s v)
      go (x ∷ vs) e ih =
          let (given, v') = (forward_lem units s v).1 x vs e in
          rw given (
            after_give s x vs (s.used - units x)
              (run (holding units s vs (s.used - units x)) rounds) e
              (ih (holding units s vs (s.used - units x)) v'))
