-- ===== src/Port.antt =====
-- gwr-engine/src/port/mod.rs: the state that an OutPort and an InPort share, and the futures that put
-- and get. A waker is the number of its task; a poll answers with the wakers that it wakes.
pub mod Handshake
pub mod Delivery
use gwr.Base.{
  ℕ, Option, none, some, List, [], ◌∷◌, Bool, true, false, is_some, if◌then◌else◌, Outcome, ok,
  error, panic, already_connected, not_connected,
}
use gwr.Event.{Poll, ready, pending}

-- `waker.wake()` for the waker that is taken out of the state, if there is one.
abbrev pub wakes : Option ℕ → List ℕ
wakes none = []
wakes (some waker) = waker ∷ []

pub record PortState {ℓ} (T : Type ℓ) : Type ℓ where
  pub value : Option T
  pub put_released : Bool
  pub waiting_get : Option ℕ
  pub waiting_put : Option ℕ

pub record InPort {ℓ} (T : Type ℓ) : Type ℓ where
  pub state : PortState T
  pub connected : Bool

-- Whether the port has been given the state of an InPort.
pub record OutPort : Type 0 where
  pub connected : Bool

pub record PortPut {ℓ} (T : Type ℓ) : Type ℓ where
  pub value : Option T
  pub done : Bool

-- `PortTryPut`, `PortGet` and `PortStartGet`, beside the shared state.
pub record PortFuture : Type 0 where
  pub done : Bool

module _ {ℓ} {T : Type ℓ} where
  unfoldable pub new_state : PortState T
  new_state = record { value = none; put_released = true; waiting_get = none; waiting_put = none }

  unfoldable pub new_in : InPort T
  unfolding new_state
  new_in = record { state = new_state; connected = false }

  -- `InPort::state`: the port is marked, and its state handed out.
  unfoldable pub connect_in : InPort T → Outcome (InPort T)
  connect_in p = if p.connected then error already_connected else ok (record p { connected = true })

  abbrev pub has_value : InPort T → Bool
  has_value p = is_some p.state.value

  unfoldable pub get : InPort T → Outcome PortFuture
  get p = if p.connected then ok (record { done = false }) else error not_connected

  unfoldable pub start_get : InPort T → Outcome PortFuture
  start_get p = if p.connected then ok (record { done = false }) else error not_connected

  unfoldable pub finish_get : PortState T → PortState T × List ℕ
  finish_get s = (record s { put_released = true; waiting_put = none }, wakes s.waiting_put)

  unfoldable pub poll_put :
      PortState T → PortPut T → ℕ → Outcome (PortState T × PortPut T × Poll (Unit {0}) × List ℕ)
  poll_put s f waker = elim f.value [
    | some value ↦
        if is_some s.value
        then Outcome.panic
        else ok (
          record s {
            value = some value;
            put_released = false;
            waiting_get = none;
            waiting_put = some waker;
          },
          record f { value = none },
          pending,
          wakes s.waiting_get,
        )
    | none ↦
        if s.put_released
        then ok (s, record f { done = true }, ready tt, [])
        else ok (record s { waiting_put = some waker }, f, pending, [])
  ]

  unfoldable pub poll_try_put :
      PortState T → PortFuture → ℕ → PortState T × PortFuture × Poll (Unit {0})
  poll_try_put s f waker =
      if is_some s.waiting_get
      then (s, record { done = true }, ready tt)
      else (record s { waiting_put = some waker }, f, pending)

  unfoldable pub poll_get :
      PortState T → PortFuture → ℕ → PortState T × PortFuture × Poll T × List ℕ
  poll_get s f waker = elim s.value [
    | some value ↦ (
      record s { value = none; waiting_get = none; put_released = true; waiting_put = none },
      record { done = true },
      ready value,
      wakes s.waiting_put,
    )
    | none ↦
        (record s { waiting_put = none; waiting_get = some waker }, f, pending, wakes s.waiting_put)
  ]

  unfoldable pub poll_start_get : PortState T → PortFuture → ℕ → PortState T × PortFuture × Poll T
  poll_start_get s f waker = elim s.value [
    | some value ↦
        (record s { value = none; waiting_get = none }, record { done = true }, ready value)
    | none ↦ (record s { waiting_get = some waker }, f, pending)
  ]

unfoldable pub new_out : OutPort
new_out = record { connected = false }

-- `OutPort::connect`, with what `InPort::state` answered.
unfoldable pub connect_out {ℓ} : {T : Type ℓ} → OutPort → Outcome (InPort T) → Outcome OutPort
connect_out p (ok s) =
    if p.connected then error already_connected else ok (record { connected = true })
connect_out p (error e) = error e
connect_out p panic = panic

unfoldable pub put {ℓ} : {T : Type ℓ} → OutPort → T → Outcome (PortPut T)
put p value =
    if p.connected then ok (record { value = some value; done = false }) else error not_connected

unfoldable pub try_put : OutPort → Outcome PortFuture
try_put p = if p.connected then ok (record { done = false }) else error not_connected
