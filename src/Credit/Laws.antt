-- ===== src/Credit/Laws.antt =====
-- No credit is lost or made.
use gwr.Base.{
  ℕ, zero, suc, ◌+◌, ◌≤◌, ◌<◌, ◌≡◌, refl, inl, inr, List, [], ◌∷◌, ◌++◌, false, ◌==◌, Bool-cases,
  length, length-append, arith, Outcome, ok, error, panic, ◌>>=◌,
}
use gwr.Resource.{ResourceState}
use gwr.Credit.{
  Limiter, gets, requests, puts, Issuer, waits, issues, sends, Flow, Action, limits, issues_credit,
  returns_credit, new, limit, issue, return_credit, act, run,
}

unfoldable pub sum : List ℕ → ℕ
sum [] = 0
sum (x ∷ xs) = x + sum xs

sum-snoc : (xs : List ℕ) (x : ℕ) → sum (xs ++ x ∷ []) ≡ sum xs + x
unfolding sum
sum-snoc [] x = omega arith
sum-snoc (y ∷ ys) x = omega (arith, sum-snoc ys x)

module _ {ℓ} {T : Type ℓ} where
  -- The credits that a task holds for the value that it has at hand.
  abbrev pub held : Limiter T → ℕ
  held gets = 0
  held (requests value) = 0
  held (puts value) = 1

  abbrev pub owed : Issuer T → ℕ
  owed waits = 0
  owed (issues value) = 1
  owed (sends value) = 0

  -- The credits that are spent are those of the values between the limiter and the issuer, and those
  -- that are on their way back.
  abbrev pub Balances : ℕ → Flow T → Type 0
  Balances num_credits s =
      (s.credit.capacity ≡ num_credits)
      × (s.credit.count ≤ num_credits)
      × (s.credit.count
          ≡ held s.limiter + length s.link + owed s.issuer + sum s.credit_link + s.credits)

  abbrev pub Returns : ℕ → Outcome (Flow T) → Type 0
  Returns num_credits (ok s) = Balances num_credits s
  Returns num_credits (error e) = ⊥
  Returns num_credits panic = ⊥

  limit-Balances :
      (n : ℕ) (credit : ResourceState) (l : Limiter T) (link : List T) (i : Issuer T)
      (credit_link : List ℕ) (credits : ℕ) (v : T) (waker : ℕ)
      → Balances n (record {
        credit = credit;
        limiter = l;
        link = link;
        issuer = i;
        credit_link = credit_link;
        credits = credits;
      })
      → Balances n (
          limit
            (record {
              credit = credit;
              limiter = l;
              link = link;
              issuer = i;
              credit_link = credit_link;
              credits = credits;
            })
            v
            waker
            l)
  unfolding limit
  limit-Balances n credit gets link i credit_link credits v waker h = h
  limit-Balances n credit (requests value) link i credit_link credits v waker (h, k, e) =
      elim (Bool-cases (credit.count == credit.capacity)) [
        | inl full ↦ rw full (h, k, e)
        | inr room ↦ rw room (h, ground arith, omega arith)
      ]
  limit-Balances n credit (puts value) link i credit_link credits v waker (h, k, e) =
      (h, k, omega (arith, length-append link (value ∷ [])))

  issue-Balances :
      (n : ℕ) (credit : ResourceState) (l : Limiter T) (link : List T) (i : Issuer T)
      (credit_link : List ℕ) (credits : ℕ)
      → Balances n (record {
        credit = credit;
        limiter = l;
        link = link;
        issuer = i;
        credit_link = credit_link;
        credits = credits;
      })
      → Balances n (
          issue
            (record {
              credit = credit;
              limiter = l;
              link = link;
              issuer = i;
              credit_link = credit_link;
              credits = credits;
            })
            i)
  unfolding issue
  issue-Balances n credit l [] waits credit_link credits h = h
  issue-Balances n credit l (value ∷ link) waits credit_link credits (h, k, e) = (h, k, omega arith)
  issue-Balances n credit l link (issues value) credit_link credits (h, k, e) =
      (h, k, omega (arith, sum-snoc credit_link 1))
  issue-Balances n credit l link (sends value) credit_link credits h = h

  return_credit-Balances :
      (n : ℕ) (credit : ResourceState) (l : Limiter T) (link : List T) (i : Issuer T)
      (credit_link : List ℕ) (credits : ℕ)
      → Balances n (record {
        credit = credit;
        limiter = l;
        link = link;
        issuer = i;
        credit_link = credit_link;
        credits = credits;
      })
      → Returns n (
          return_credit
            (record {
              credit = credit;
              limiter = l;
              link = link;
              issuer = i;
              credit_link = credit_link;
              credits = credits;
            })
            credits)
  unfolding return_credit sum
  return_credit-Balances n credit l link i [] zero h = h
  return_credit-Balances n credit l link i (c ∷ credit_link) zero (h, k, e) = (h, k, omega arith)
  return_credit-Balances n credit l link i credit_link (suc rounds) (h, k, e) =
      rw (some_spent credit.count (omega arith)) (h, omega arith, omega arith)
    where
      some_spent : (n : ℕ) → 0 < n → (n == 0) ≡ false
      some_spent n h = ground arith

  act-Balances : (n : ℕ) (s : Flow T) (a : Action T) → Balances n s → Returns n (act s a)
  unfolding act
  act-Balances n s (limits v waker) h =
      limit-Balances n s.credit s.limiter s.link s.issuer s.credit_link s.credits v waker h
  act-Balances n s issues_credit h =
      issue-Balances n s.credit s.limiter s.link s.issuer s.credit_link s.credits h
  act-Balances n s returns_credit h =
      return_credit-Balances n s.credit s.limiter s.link s.issuer s.credit_link s.credits h

  -- In whatever order the limiter, the issuer and the task that takes the credits back run, no release
  -- fails, and the credits that are spent are those of the values between the limiter and the issuer
  -- and those on their way back, and are no more than there are.
  pub run-Balances :
      (n : ℕ) (s : Flow T) (actions : List (Action T)) → Balances n s → Returns n (run s actions)
  unfolding run
  run-Balances n s [] h = h
  run-Balances n s (a ∷ actions) h =
      go (act s a) (act-Balances n s a h) (λ s'. run-Balances n s' actions)
    where
      go :
          (o : Outcome (Flow T))
          → Returns n o
          → ((s' : Flow T) → Balances n s' → Returns n (run s' actions))
          → Returns n (o >>= λ s'. run s' actions)
      go (ok s') r next = next s' r
      go (error e) r next = absurd r
      go panic r next = absurd r

pub new-Balances {ℓ} : (T : Type ℓ) (n : ℕ) → Balances n (new {T = T} n)
unfolding new sum
new-Balances T n = (refl, omega arith, refl)
