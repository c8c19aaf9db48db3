-- ===== src/Credit.antt =====
-- gwr-components/src/flow_controls/credit_limiter.rs and credit_issuer.rs: a limiter spends a credit for
-- each value that it passes on, and an issuer at the other end of a link gives the credit back. What the
-- ports and the components between them hold is a list, in order.
pub mod Laws
use gwr.Base.{
  ℕ, zero, suc, ◌+◌, Option, none, some, List, [], ◌∷◌, ◌++◌, Bool, true, false, Outcome, ok, error,
  panic, ◌>>=◌,
}
use gwr.Resource.{ResourceState, new as new_resource, poll_request, release}

-- Where `CreditLimiter::run` is in its loop: at `rx.get`, at `credit.request` or at `tx.put`.
pub data Limiter {ℓ} (T : Type ℓ) : Type ℓ where
  gets : Limiter T
  requests : T → Limiter T
  puts : T → Limiter T

-- Where `CreditIssuer::run` is in its loop: at `rx.get`, at `credit_tx.put` or at `tx.put`.
pub data Issuer {ℓ} (T : Type ℓ) : Type ℓ where
  waits : Issuer T
  issues : T → Issuer T
  sends : T → Issuer T

pub record Flow {ℓ} (T : Type ℓ) : Type ℓ where
  pub credit : ResourceState
  pub limiter : Limiter T
  -- The values between the two.
  pub link : List T
  pub issuer : Issuer T
  -- The credits that have been issued and not been taken.
  pub credit_link : List ℕ
  -- The rounds that are left of the inner loop of `PortCredit::run`.
  pub credits : ℕ

-- A step of one of the three tasks; a value comes from outside, as does the waker of a poll.
pub data Action {ℓ} (T : Type ℓ) : Type ℓ where
  limits : T → ℕ → Action T
  issues_credit : Action T
  returns_credit : Action T

module _ {ℓ} {T : Type ℓ} where
  unfoldable pub new : ℕ → Flow T
  unfolding new_resource
  new num_credits = record {
    credit = new_resource num_credits;
    limiter = gets;
    link = [];
    issuer = waits;
    credit_link = [];
    credits = 0;
  }

  abbrev pub granted : Flow T → T → ResourceState × Bool → Flow T
  granted s value (credit, true) = record s { credit = credit; limiter = puts value }
  granted s value (credit, false) = record s { credit = credit }

  unfoldable pub limit : Flow T → T → ℕ → Limiter T → Flow T
  unfolding poll_request
  limit s v waker gets = record s { limiter = requests v }
  limit s v waker (requests value) = granted s value (poll_request s.credit waker)
  limit s v waker (puts value) = record s { limiter = gets; link = s.link ++ value ∷ [] }

  abbrev pub take_value : Flow T → List T → Flow T
  take_value s [] = s
  take_value s (value ∷ link) = record s { link = link; issuer = issues value }

  unfoldable pub issue : Flow T → Issuer T → Flow T
  issue s waits = take_value s s.link
  issue s (issues value) = record s { issuer = sends value; credit_link = s.credit_link ++ 1 ∷ [] }
  issue s (sends value) = record s { issuer = waits }

  abbrev pub take_credits : Flow T → List ℕ → Flow T
  take_credits s [] = s
  take_credits s (credits ∷ credit_link) = record s { credit_link = credit_link; credits = credits }

  unfoldable pub return_credit : Flow T → ℕ → Outcome (Flow T)
  unfolding release
  return_credit s zero = ok (take_credits s s.credit_link)
  return_credit s (suc rounds) = do
    released ← release s.credit
    ok (record s { credit = released.0; credits = rounds })

  unfoldable pub act : Flow T → Action T → Outcome (Flow T)
  unfolding limit issue return_credit
  act s (limits v waker) = ok (limit s v waker s.limiter)
  act s issues_credit = ok (issue s s.issuer)
  act s returns_credit = return_credit s s.credits

  unfoldable pub run : Flow T → List (Action T) → Outcome (Flow T)
  unfolding act
  run s [] = ok s
  run s (a ∷ actions) = act s a >>= λ s'. run s' actions
