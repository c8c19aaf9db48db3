-- ===== src/Port/Delivery.antt =====
-- A task that puts and a task that gets, in every interleaving of what they do with the port.
use gwr.Base.{
  ℕ, ◌≡◌, ◌≢◌, refl, ◌∙◌, ap, sym, Option, none, some, List, [], ◌∷◌, ◌++◌, Bool, true, false,
  is_some, Outcome, ok, error, panic, ◌>>=◌,
}
use mathlib.Core.Path.{subst}
use mathlib.Core.List.{append_assoc, append-nil}
use gwr.Event.{Poll, ready, pending}
use gwr.Port.{PortState, PortPut, new_state, finish_get, poll_put, poll_get, poll_start_get}

-- What the putting task waits for, and what the getting task is doing: `holds` is between the end of a
-- `start_get` and `finish_get`.
pub data Putter {ℓ} (T : Type ℓ) : Type ℓ where
  idle : Putter T
  puts : PortPut T → Putter T

pub data Getter : Type 0 where
  free gets starts holds : Getter

-- `sent` and `received` are the values of the calls of `put`, and those that the getter got.
pub record System {ℓ} (T : Type ℓ) : Type ℓ where
  pub port : PortState T
  pub putter : Putter T
  pub getter : Getter
  pub sent : List T
  pub received : List T

-- A waker is the number of the task that polls.
pub data Action {ℓ} (T : Type ℓ) : Type ℓ where
  calls_put : T → Action T
  polls_put : ℕ → Action T
  calls_get calls_start_get : Action T
  polls_get : ℕ → Action T
  calls_finish_get : Action T

-- The end of what a `start_get` began.
abbrev pub after_finish : Getter → Getter
after_finish holds = free
after_finish free = free
after_finish gets = gets
after_finish starts = starts

module _ {ℓ} {T : Type ℓ} where
  unfoldable pub new : System T
  unfolding new_state
  new = record { port = new_state; putter = idle; getter = free; sent = []; received = [] }

  -- The putter after a poll of its future.
  abbrev pub after_put : System T → PortState T × PortPut T × Poll (Unit {0}) × List ℕ → System T
  after_put s (port, f, ready u, woken) = record s { port = port; putter = idle }
  after_put s (port, f, pending, woken) = record s { port = port; putter = puts f }

  abbrev pub act_put : System T → ℕ → Putter T → Outcome (System T)
  act_put s w idle = ok s
  act_put s w (puts f) = poll_put s.port f w >>= λ r. ok (after_put s r)

  -- The getter, in the state that it goes to when its future is ready.
  abbrev pub after_get : System T → Getter → PortState T → Poll T → System T
  after_get s next port (ready v) = record s {
    port = port;
    getter = next;
    received = s.received ++ v ∷ [];
  }
  after_get s next port pending = record s { port = port }

  abbrev pub act_get : System T → ℕ → Getter → System T
  act_get s w free = s
  act_get s w gets =
      let (port, f, answer, woken) = poll_get s.port (record { done = false }) w in
      after_get s free port answer
  act_get s w starts =
      let (port, f, answer) = poll_start_get s.port (record { done = false }) w in
      after_get s holds port answer
  act_get s w holds = s

  abbrev pub call_put : System T → T → Putter T → System T
  call_put s v idle = record s {
    putter = puts (record { value = some v; done = false });
    sent = s.sent ++ v ∷ [];
  }
  call_put s v (puts f) = s

  abbrev pub call_get : System T → Getter → Getter → System T
  call_get s next free = record s { getter = next }
  call_get s next gets = s
  call_get s next starts = s
  call_get s next holds = s

  -- The call looks at nothing but the port.
  abbrev pub call_finish : System T → Getter → System T
  call_finish s g = record s { port = (finish_get s.port).0; getter = after_finish g }

  -- A task that waits for a future calls nothing else: a call of `put`, `get` or `start_get` by a task that
  -- is not free changes nothing, and neither does a poll by a task that waits for nothing. (`finish_get` can
  -- be called at any time, by mistake too.)
  unfoldable pub act : System T → Action T → Outcome (System T)
  act s (calls_put v) = ok (call_put s v s.putter)
  act s (polls_put w) = act_put s w s.putter
  act s calls_get = ok (call_get s gets s.getter)
  act s calls_start_get = ok (call_get s starts s.getter)
  act s (polls_get w) = ok (act_get s w s.getter)
  act s calls_finish_get = ok (call_finish s s.getter)

  unfoldable pub run : System T → List (Action T) → Outcome (System T)
  unfolding act
  run s [] = ok s
  run s (a ∷ actions) = act s a >>= λ s'. run s' actions

  -- Every call of `finish_get` in a run matches a `start_get`, as its documentation asks for: the getter
  -- has a value of a `start_get` that it has not finished.
  abbrev pub MatchesAt : Action T → Getter → Type 0
  MatchesAt (calls_put v) g = Unit
  MatchesAt (polls_put w) g = Unit
  MatchesAt calls_get g = Unit
  MatchesAt calls_start_get g = Unit
  MatchesAt (polls_get w) g = Unit
  MatchesAt calls_finish_get g = g ≡ holds

  abbrev pub AllMatch : System T → List (Action T) → Type 0
  AllMatch s [] = Unit
  AllMatch s (a ∷ actions) =
      MatchesAt a s.getter
      × elim (act s a) [ ok s' ↦ AllMatch s' actions | error e ↦ Unit | panic ↦ Unit ]

  abbrev pub option_list : Option T → List T
  option_list none = []
  option_list (some v) = v ∷ []

  -- The value that is between the two tasks.
  abbrev pub in_flight : Putter T → Option T → List T
  in_flight idle value = option_list value
  in_flight (puts f) value = option_list value ++ option_list f.value

  -- The getter holds a value exactly while the port is empty and the putter is not released, and
  -- a value in the port or in the getter's hands is that of the put that is under way.
  abbrev pub Agrees : Putter T → Option T → Bool → Getter → Type 0
  Agrees idle (some v) released g = ⊥
  Agrees idle none released g = (released ≡ true) × (g ≢ holds)
  Agrees (puts f) (some v) released g = (is_some f.value ≡ false) × (released ≡ false) × (g ≢ holds)
  Agrees (puts f) none true g = g ≢ holds
  Agrees (puts f) none false g = (is_some f.value ≡ false) × (g ≡ holds)

  abbrev pub IsValid : System T → Type ℓ
  IsValid s =
      (s.received ++ in_flight s.putter s.port.value ≡ s.sent)
      × Agrees s.putter s.port.value s.port.put_released s.getter

  -- The system with the given parts.
  abbrev system :
      Option T → Bool → Option ℕ → Option ℕ → Putter T → Getter → List T → List T → System T
  system value released wg wp putter getter sent received = record {
    port = record { value = value; put_released = released; waiting_get = wg; waiting_put = wp };
    putter = putter;
    getter = getter;
    sent = sent;
    received = received;
  }

  abbrev pub Goes : Outcome (System T) → Type ℓ
  Goes r = (s : System T) × (r ≡ ok s) × IsValid s

  module _ (wg wp : Option ℕ) (sent received : List T) (w : ℕ) where
    abbrev putting : Option T → Bool → Option T → Bool → Getter → System T
    putting value released fv done g =
        system value released wg wp (puts (record { value = fv; done = done })) g sent received

    polls_put_lem :
        (value : Option T) (released : Bool) (fv : Option T) (done : Bool) (g : Getter)
        → IsValid (putting value released fv done g)
        → Goes (
            act_put
              (putting value released fv done g)
              w
              (puts (record { value = fv; done = done })))
    unfolding poll_put
    polls_put_lem none true none done g (c, a) = (_, refl, (c, (refl, a)))
    polls_put_lem none true (some x) done g (c, a) = (_, refl, (c, (refl, refl, a)))
    polls_put_lem none false none done g (c, a) = (_, refl, (c, a))
    polls_put_lem none false (some x) done g (c, a) = cc (a.0)
    polls_put_lem (some y) true none done g (c, a) = cc (a.1)
    polls_put_lem (some y) false none done g (c, a) = (_, refl, (c, a))
    polls_put_lem (some y) released (some x) done g (c, a) = cc (a.0)

    polls_get_lem :
        (value : Option T) (released : Bool) (p : Putter T) (g : Getter)
        → IsValid (system value released wg wp p g sent received)
        → IsValid (act_get (system value released wg wp p g sent received) w g)
    unfolding poll_get poll_start_get
    polls_get_lem value released p free v = v
    polls_get_lem value released p holds v = v
    polls_get_lem none released idle gets v = v
    polls_get_lem none true (puts f) gets v = v
    polls_get_lem none false (puts f) gets v = cc (v.1.1)
    polls_get_lem (some x) released idle gets v = absurd (v.1)
    polls_get_lem (some x) released (puts f) gets (c, a) =
        (append_assoc received (x ∷ []) (option_list f.value) ∙ c, λ e. cc (e))
    polls_get_lem none released idle starts v = v
    polls_get_lem none true (puts f) starts v = v
    polls_get_lem none false (puts f) starts v = cc (v.1.1)
    polls_get_lem (some x) released idle starts v = absurd (v.1)
    polls_get_lem (some x) true (puts f) starts (c, a) = cc (a.1)
    polls_get_lem (some x) false (puts f) starts (c, a) =
        (append_assoc received (x ∷ []) (option_list f.value) ∙ c, (a.0, refl))

    calls_put_lem :
        (value : Option T) (released : Bool) (p : Putter T) (g : Getter) (v : T)
        → IsValid (system value released wg wp p g sent received)
        → IsValid (call_put (system value released wg wp p g sent received) v p)
    calls_put_lem none true idle g v (c, a) =
        (ap (λ xs. xs ++ v ∷ []) (sym (append-nil received) ∙ c), a.1)
    calls_put_lem none false idle g v (c, a) = cc (a.0)
    calls_put_lem (some x) released idle g v (c, a) = absurd a
    calls_put_lem value released (puts f) g v h = h

    calls_get_lem :
        (value : Option T) (released : Bool) (p : Putter T) (next g : Getter)
        → next ≢ holds
        → IsValid (system value released wg wp p g sent received)
        → IsValid (call_get (system value released wg wp p g sent received) next g)
    calls_get_lem none released idle next free h (c, a) = (c, (a.0, h))
    calls_get_lem (some x) released idle next free h (c, a) = absurd a
    calls_get_lem none true (puts f) next free h (c, a) = (c, h)
    calls_get_lem none false (puts f) next free h (c, a) = cc (a.1)
    calls_get_lem (some x) released (puts f) next free h (c, a) = (c, (a.0, a.1, h))
    calls_get_lem value released p next gets h v = v
    calls_get_lem value released p next starts h v = v
    calls_get_lem value released p next holds h v = v

    calls_finish_lem :
        (value : Option T) (released : Bool) (p : Putter T) (g : Getter)
        → g ≡ holds
        → IsValid (system value released wg wp p g sent received)
        → IsValid (call_finish (system value released wg wp p g sent received) g)
    unfolding finish_get
    calls_finish_lem value released p free m v = cc
    calls_finish_lem value released p gets m v = cc
    calls_finish_lem value released p starts m v = cc
    calls_finish_lem none released idle holds m (c, a) = absurd (a.1 refl)
    calls_finish_lem none true (puts f) holds m (c, a) = absurd (a refl)
    calls_finish_lem none false (puts f) holds m (c, a) = (c, λ e. cc (e))
    calls_finish_lem (some x) released idle holds m (c, a) = absurd a
    calls_finish_lem (some x) released (puts f) holds m (c, a) = absurd (a.2 refl)

  act-IsValid : (s : System T) (a : Action T) → MatchesAt a s.getter → IsValid s → Goes (act s a)
  unfolding act
  act-IsValid s (calls_put v) m h = (
    _,
    refl,
    calls_put_lem s.port.waiting_get s.port.waiting_put s.sent s.received 0 s.port.value
        s.port.put_released s.putter s.getter v h,
  )
  act-IsValid s (polls_put w) m h = by_putter s.putter h
    where
      by_putter :
          (p : Putter T)
          → IsValid (record s { putter = p })
          → Goes (act_put (record s { putter = p }) w p)
      by_putter idle h = (_, refl, h)
      by_putter (puts f) h =
          polls_put_lem s.port.waiting_get s.port.waiting_put s.sent s.received w s.port.value
            s.port.put_released f.value f.done s.getter h
  act-IsValid s calls_get m h = (
    _,
    refl,
    calls_get_lem s.port.waiting_get s.port.waiting_put s.sent s.received 0 s.port.value
        s.port.put_released s.putter gets s.getter (λ e. cc (e)) h,
  )
  act-IsValid s calls_start_get m h = (
    _,
    refl,
    calls_get_lem s.port.waiting_get s.port.waiting_put s.sent s.received 0 s.port.value
        s.port.put_released s.putter starts s.getter (λ e. cc (e)) h,
  )
  act-IsValid s (polls_get w) m h = (
    _,
    refl,
    polls_get_lem s.port.waiting_get s.port.waiting_put s.sent s.received w s.port.value
        s.port.put_released s.putter s.getter h,
  )
  act-IsValid s calls_finish_get m h = (
    _,
    refl,
    calls_finish_lem s.port.waiting_get s.port.waiting_put s.sent s.received 0 s.port.value
        s.port.put_released s.putter s.getter m h,
  )

  -- A task that awaits every `put` and a task that awaits every `get` and `start_get`, in whatever order
  -- they call and the executor polls them, where every `finish_get` matches a `start_get`: no assertion
  -- of the port fails, and the values that the getter has received, followed by the at most one
  -- value that is on its way, are those that were put, in order: no value is lost, repeated or
  -- overtaken. The putter is released exactly when its value has been taken and, after a `start_get`,
  -- the getter has called `finish_get`.
  pub run-IsValid :
      (s : System T) (actions : List (Action T))
      → AllMatch s actions
      → IsValid s
      → Goes (run s actions)
  unfolding run
  run-IsValid s [] m h = (s, refl, h)
  run-IsValid s (a ∷ actions) m h =
      let (s', e, h') = act-IsValid s a m.0 h in
      rw e (
        run-IsValid s' actions
          (subst
            (λ o. elim o [ ok s' ↦ AllMatch s' actions | error e ↦ Unit {0} | panic ↦ Unit {0} ]) e
            m.1)
          h')

  pub new-IsValid : IsValid new
  unfolding new new_state
  new-IsValid = (refl, (refl, λ e. cc (e)))
