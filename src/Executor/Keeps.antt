-- ===== src/Executor/Keeps.antt =====
-- What a run keeps.
use gwr.Base.{
  ℕ, zero, suc, ◌≡◌, refl, sym, ap, ◌∙◌, Option, none, some, List, [], ◌∷◌, Bool, true, false,
  if◌then◌else◌, get_or, Outcome, ok, ◌>>=◌, returned, ok_injective,
}
use mathlib.Core.Path.{subst}
use gwr.Clock.{is_empty, TaskWaker}
use gwr.SimTime.{SimTime, advance_time, can_exit}
use gwr.Executor.{
  Polled, pending, complete, failed, Queued, spawn, wake, Shared, Effects, Futures, ExecutorState,
  push_new, result_of, poll_slot, poll_task, drain, step, resolve_all, woken, advance, after_step,
  run,
}

module _ {F W : Type 0} (futures : Futures F W) where
  -- What every poll of a future, every callback and every advance of time keeps, a run keeps.
  module _ (Keeps : Shared W → Type 0)
      (poll_keeps : (f : F) (i : ℕ) (sh : Shared W) (e : Effects F W)
        → Keeps sh
        → futures.poll f i sh ≡ ok e
        → Keeps e.shared)
      (resolve_keeps : (r : ℕ) (sh : Shared W)
        → Keeps sh
        → Keeps (record sh { rest = (futures.resolve r sh.rest).0 }))
      (advance_keeps : (sh : Shared W) (time : SimTime) (wakers : Option (List TaskWaker))
          (callbacks : List ℕ)
        → Keeps sh
        → advance_time futures.floats sh.time ≡ ok (time, wakers, callbacks)
        → Keeps (record sh { time = time })) where
    shared-push_new :
        (queued : List (Queued F)) (s : ExecutorState F W) → (push_new queued s).shared ≡ s.shared
    unfolding push_new
    shared-push_new [] s = refl
    shared-push_new (spawn f ∷ queued) s = shared-push_new queued _
    shared-push_new (wake i ∷ queued) s = shared-push_new queued _

    result_of-eq : (r : Polled F) (s s' : ExecutorState F W) → result_of r s ≡ ok s' → s ≡ s'
    result_of-eq (pending f) s s' h = ok_injective h
    result_of-eq complete s s' h = ok_injective h
    result_of-eq (failed e) s s' h = cc

    poll_task-Keeps :
        (s : ExecutorState F W) (i : ℕ) (s' : ExecutorState F W)
        → Keeps s.shared
        → poll_task futures s i ≡ ok s'
        → Keeps s'.shared
    unfolding poll_task
    poll_task-Keeps s i s' k h = by_slot (get_or s.tasks i none) h
      where
        by_slot : (slot : Option F) → poll_slot futures s i slot ≡ ok s' → Keeps s'.shared
        by_slot none h = subst (λ (t : ExecutorState F W). Keeps t.shared) (ok_injective h) k
        by_slot (some f) h =
            let (e, polled, h₁) = returned (futures.poll f i s.shared) _ h in
            subst (λ (t : ExecutorState F W). Keeps t.shared) (result_of-eq e.result _ s' h₁)
              (subst Keeps (sym (shared-push_new e.queued _)) (poll_keeps f i s.shared e k polled))

    drain-Keeps :
        (queue : List ℕ) (s s' : ExecutorState F W)
        → Keeps s.shared
        → drain futures queue s ≡ ok s'
        → Keeps s'.shared
    unfolding drain
    drain-Keeps [] s s' k h = subst (λ (t : ExecutorState F W). Keeps t.shared) (ok_injective h) k
    drain-Keeps (i ∷ queue) s s' k h = by_flag s.shared.finished (λ t. drain-Keeps queue t s') h
      where
        by_flag :
            (over : Bool)
            → ((t : ExecutorState F W)
                → Keeps t.shared
                → drain futures queue t ≡ ok s'
                → Keeps s'.shared)
            → (if over then ok s else poll_task futures s i >>= drain futures queue) ≡ ok s'
            → Keeps s'.shared
        by_flag true ih h = subst (λ (t : ExecutorState F W). Keeps t.shared) (ok_injective h) k
        by_flag false ih h =
            let (t, polled, h₁) = returned (poll_task futures s i) _ h in
            ih t (poll_task-Keeps s i t k polled) h₁

    resolve_all-Keeps :
        (callbacks : List ℕ) (s : ExecutorState F W)
        → Keeps s.shared
        → Keeps (resolve_all futures callbacks s).shared
    unfolding resolve_all
    resolve_all-Keeps [] s k = k
    resolve_all-Keeps (r ∷ callbacks) s k =
        resolve_all-Keeps callbacks _ (resolve_keeps r s.shared k)

    advance-Keeps :
        (s : ExecutorState F W) (r : ExecutorState F W × Bool)
        → Keeps s.shared
        → advance futures s ≡ ok r
        → Keeps r.0.shared
    unfolding advance
    advance-Keeps s r k h =
        let ((time, wakers, callbacks), advanced, h₁) =
          returned (advance_time futures.floats s.shared.time) _ h in
        let s₁ : ExecutorState F W = record s { shared = record s.shared { time = time } } in
        woken_keeps (resolve_all futures callbacks s₁) wakers (ok_injective h₁)
          (resolve_all-Keeps callbacks s₁ (advance_keeps s.shared time wakers callbacks k advanced))
      where
        woken_keeps :
            (t : ExecutorState F W) (wakers : Option (List TaskWaker))
            → woken t wakers ≡ r
            → Keeps t.shared
            → Keeps r.0.shared
        woken_keeps t none e k = subst (λ (q : ExecutorState F W × Bool). Keeps q.0.shared) e k
        woken_keeps t (some wakers) e k =
            subst (λ (q : ExecutorState F W × Bool). Keeps q.0.shared) e k

    after_step-Keeps :
        (s : ExecutorState F W) (r : ExecutorState F W × Bool)
        → Keeps s.shared
        → after_step futures s ≡ ok r
        → Keeps r.0.shared
    unfolding after_step
    after_step-Keeps s r k h =
        by_tests s.shared.finished (is_empty s.new_tasks) (can_exit s.shared.time) h
      where
        stays : (b : Bool) → ok (s, b) ≡ ok r → Keeps r.0.shared
        stays b e = subst (λ (q : ExecutorState F W × Bool). Keeps q.0.shared) (ok_injective e) k

        by_tests :
            (over empty may : Bool)
            → (if over
                then ok (s, false)
                else if empty
                then (if may then ok (s, false) else advance futures s)
                else ok (s, true))
              ≡ ok r
            → Keeps r.0.shared
        by_tests true empty may h = stays false h
        by_tests false true true h = stays false h
        by_tests false true false h = advance-Keeps s r k h
        by_tests false false may h = stays true h

    -- The last step of a run, after which it does not go on.
    pub run-last :
        (rounds : ℕ) (s s' : ExecutorState F W)
        → Keeps s.shared
        → run futures rounds s ≡ ok (some s')
        → (t : ExecutorState F W) × Keeps t.shared × (after_step futures t ≡ ok (s', false))
    unfolding run step
    run-last zero s s' k h = absurd (no_rounds h)
      where
        no_rounds : ◌≡◌ {A = Outcome (Option (ExecutorState F W))} (ok none) (ok (some s')) → ⊥
        no_rounds p = cc
    run-last (suc rounds) s s' k h =
        let (stepped, did, h₁) = returned (step futures s) _ h in
        let (next, went, h₂) = returned (after_step futures stepped) _ h₁ in
        let kept = drain-Keeps _ _ stepped k did in
        by_test stepped next.0 next.1 (run-last rounds next.0 s') kept
          (after_step-Keeps stepped next kept went) went h₂
      where
        Last : Type 0
        Last = (t : ExecutorState F W) × Keeps t.shared × (after_step futures t ≡ ok (s', false))

        by_test :
            (stepped next : ExecutorState F W) (again : Bool)
            → (Keeps next.shared → run futures rounds next ≡ ok (some s') → Last)
            → Keeps stepped.shared
            → Keeps next.shared
            → after_step futures stepped ≡ ok (next, again)
            → (if again then run futures rounds next else ok (some next)) ≡ ok (some s')
            → Last
        by_test stepped next true ih kept k went h = ih k h
        by_test stepped next false ih kept k went h =
            (stepped, kept, went ∙ ap (λ t. ok (t, false)) (inner (ok_injective h)))
          where
            inner : {x y : ExecutorState F W} → some x ≡ some y → x ≡ y
            inner p = cc
