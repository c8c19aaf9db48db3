-- ===== src/Port/Handshake.antt =====
-- One value through a port: who waits, who is woken, and when each future is ready.
use gwr.Base.{
  ℕ, ◌≡◌, refl, none, some, [], ◌∷◌, true, false, ok, error, already_connected, not_connected,
}
use gwr.Event.{ready, pending}
use gwr.Port.{
  wakes, PortState, PortPut, PortFuture, InPort, OutPort, connect_in, connect_out, get, start_get,
  put, try_put, finish_get, poll_put, poll_get, poll_start_get,
}

module _ {ℓ} {T : Type ℓ} where
  -- The port with the value, after the putter has been polled.
  abbrev pub offered : T → ℕ → PortState T
  offered v putter = record {
    value = some v;
    put_released = false;
    waiting_get = none;
    waiting_put = some putter;
  }

  -- A put into an empty port wakes the getter that waits and is pending until its value is taken. A
  -- `get` takes the value, wakes the putter and releases it. A `start_get` takes it and wakes nobody:
  -- the putter stays pending until `finish_get`, which wakes it and releases it.
  pub one_value :
      (s : PortState T) (v : T) (p g : ℕ) (f : PortFuture)
      → s.value ≡ none
      → let waits : PortPut T = record { value = none; done = false } in
        let finished : PortPut T = record { value = none; done = true } in
        (poll_put s (record { value = some v; done = false }) p
          ≡ ok (offered v p, waits, pending, wakes s.waiting_get))
        × (poll_put (offered v p) waits p ≡ ok (offered v p, waits, pending, []))
        × ((s' : PortState T) × (poll_get (offered v p) f g
              ≡ (s', record { done = true }, ready v, p ∷ []))
            × (poll_put s' waits p ≡ ok (s', finished, ready tt, [])))
        × ((s' s'' : PortState T) × (poll_start_get (offered v p) f g
              ≡ (s', record { done = true }, ready v))
            × (poll_put s' waits p ≡ ok (s', waits, pending, []))
            × (finish_get s' ≡ (s'', p ∷ []))
            × (poll_put s'' waits p ≡ ok (s'', finished, ready tt, [])))
  unfolding poll_put poll_get poll_start_get finish_get
  one_value s v p g f e = (rw e, refl, (_, refl, refl), (_, _, refl, refl, refl, refl))

  -- A port is connected once: a second connection fails at either end, and until then nothing can be
  -- put or got.
  pub connect_lem :
      (i : InPort T) (o : OutPort) (v : T)
      → (i.connected ≡ true → (connect_in i ≡ error already_connected))
        × (i.connected ≡ false
            → (get i ≡ error not_connected)
              × (start_get i ≡ error not_connected)
              × (i' : InPort T) × (connect_in i ≡ ok i')
              × (get i' ≡ ok (record { done = false }))
              × (connect_in i' ≡ error already_connected))
        × (o.connected ≡ true → connect_out o (ok i) ≡ error already_connected)
        × (o.connected ≡ false
            → (put o v ≡ error not_connected)
              × (try_put o ≡ error not_connected)
              × (o' : OutPort) × (connect_out o (ok i) ≡ ok o')
              × (put o' v ≡ ok (record { value = some v; done = false })))
  unfolding connect_in connect_out get start_get put try_put
  connect_lem i o v = (
    (λ e. rw e),
    (λ e. (rw e, rw e, record i { connected = true }, rw e, refl, refl)),
    (λ e. rw e),
    (λ e. (rw e, rw e, record { connected = true }, rw e, refl)),
  )
