-- ===== src/Order/BestEffort/Actions.antt =====
-- Handlers of order-service that do the same with another NATS client, and how they are put together
-- (services/order-service/app/services/order_service.py).
use micro_mart.Shared.{
  ℕ, ◌≡◌, refl, ap, ◌∙◌, String, Bool, true, false, Option, none, some, [], Action, Result, ◌>>=◌,
  throw, or_throw, if◌then◌else◌, ok, err,
}
use micro_mart.Order.Clients.{
  World, Nats, Exception, Verdict, deducted, conflict, refused, product_error, payment_error, http,
  uncaught,
}
use micro_mart.Order.Placing.{catch_product}
use micro_mart.Order.Saga.{catch_payment}

-- The world with another NATS client, and what was published left out.
abbrev pub with_nats : {S : Type 0} → Option Nats → World S → World S
with_nats nats w = record w { nats = nats; published = [] }

-- The action answers and leaves the same with another client.
pub record IsBlind {S A : Type 0} (m : Action (World S) Exception A) : Type 0 where
  pub same : (n : Option Nats) (w : World S) → m (with_nats n w) ≡ ((m w).0, with_nats n (m w).1)

module _ {S A B : Type 0} where
  bind_blind :
      (f : A → Action (World S) Exception B)
      → ((a : A) → IsBlind (f a))
      → (n : Option Nats) (x : Result Exception A × World S)
      → ((λ w. (x.0, w)) >>= f) (with_nats n x.1)
        ≡ ((((λ w. (x.0, w)) >>= f) x.1).0, with_nats n (((λ w. (x.0, w)) >>= f) x.1).1)
  bind_blind f h n (ok a, w) = (h a).same n w
  bind_blind f h n (err e, w) = refl

  pub bind-IsBlind :
      (m : Action (World S) Exception A) (f : A → Action (World S) Exception B)
      → IsBlind m
      → ((a : A) → IsBlind (f a))
      → IsBlind (m >>= f)
  bind-IsBlind m f hm hf = record {
    same = λ n w. ap (λ x. ((λ v. (x.0, v)) >>= f) x.1) (hm.same n w) ∙ bind_blind f hf n (m w);
  }

module _ {S A : Type 0} where
  pub if-IsBlind :
      (b : Bool) (m k : Action (World S) Exception A)
      → IsBlind m
      → IsBlind k
      → IsBlind (if b then m else k)
  if-IsBlind true m k hm hk = hm
  if-IsBlind false m k hm hk = hk

  catch_blind :
      (handler : Option String → ℕ → Action (World S) Exception A)
      → ((code : Option String) (status : ℕ) → IsBlind (handler code status))
      → (n : Option Nats) (x : Result Exception A × World S)
      → (catch_product (λ w. (x.0, w)) handler (with_nats n x.1) ≡ (
        (catch_product (λ w. (x.0, w)) handler x.1).0,
        with_nats n (catch_product (λ w. (x.0, w)) handler x.1).1,
      ))
        × (catch_payment (λ w. (x.0, w)) handler (with_nats n x.1) ≡ (
          (catch_payment (λ w. (x.0, w)) handler x.1).0,
          with_nats n (catch_payment (λ w. (x.0, w)) handler x.1).1,
        ))
  catch_blind handler h n (ok a, w) = (refl, refl)
  catch_blind handler h n (err (product_error code status), w) = ((h code status).same n w, refl)
  catch_blind handler h n (err (payment_error code status), w) = (refl, (h code status).same n w)
  catch_blind handler h n (err (http e), w) = (refl, refl)
  catch_blind handler h n (err uncaught, w) = (refl, refl)

  pub catch_product-IsBlind :
      (m : Action (World S) Exception A)
      (handler : Option String → ℕ → Action (World S) Exception A)
      → IsBlind m
      → ((code : Option String) (status : ℕ) → IsBlind (handler code status))
      → IsBlind (catch_product m handler)
  catch_product-IsBlind m handler hm h = record {
    same = λ n w.
        ap (λ x. catch_product (λ v. (x.0, v)) handler x.1) (hm.same n w)
        ∙ (catch_blind handler h n (m w)).0;
  }

  pub catch_payment-IsBlind :
      (m : Action (World S) Exception A)
      (handler : Option String → ℕ → Action (World S) Exception A)
      → IsBlind m
      → ((code : Option String) (status : ℕ) → IsBlind (handler code status))
      → IsBlind (catch_payment m handler)
  catch_payment-IsBlind m handler hm h = record {
    same = λ n w.
        ap (λ x. catch_payment (λ v. (x.0, v)) handler x.1) (hm.same n w)
        ∙ (catch_blind handler h n (m w)).1;
  }

  pub or_throw-IsBlind : (o : Option A) (e : Exception) → IsBlind {S = S} (or_throw o e)
  or_throw-IsBlind none e = record { same = λ n w. refl }
  or_throw-IsBlind (some a) e = record { same = λ n w. refl }

  pub judged-IsBlind :
      (v : Verdict) (m k : Action (World S) Exception A)
      → IsBlind m
      → IsBlind k
      → IsBlind (elim v [ deducted ↦ m | refused e ↦ throw e | conflict ↦ k ])
  judged-IsBlind deducted m k hm hk = hm
  judged-IsBlind (refused e) m k hm hk = record { same = λ n w. refl }
  judged-IsBlind conflict m k hm hk = hk

-- Up to the client and what was published, the action does the same with another client.
pub record IsBestEffort {S A : Type 0} (m : Action (World S) Exception A) : Type 0 where
  pub answer : (n : Option Nats) (w : World S) → (m (with_nats n w)).0 ≡ (m w).0
  pub left :
      (n : Option Nats) (w : World S)
      → with_nats none (m (with_nats n w)).1 ≡ with_nats none (m w).1

module _ {S A B : Type 0} where
  bind_best :
      (f : A → Action (World S) Exception B)
      → ((a : A) → IsBestEffort (f a))
      → (n : Option Nats) (x : Result Exception A × World S)
      → ((((λ w. (x.0, w)) >>= f) (with_nats n x.1)).0 ≡ (((λ w. (x.0, w)) >>= f) x.1).0)
        × (with_nats none (((λ w. (x.0, w)) >>= f) (with_nats n x.1)).1
            ≡ with_nats none (((λ w. (x.0, w)) >>= f) x.1).1)
  bind_best f h n (ok a, w) = ((h a).answer n w, (h a).left n w)
  bind_best f h n (err e, w) = (refl, refl)

  pub bind-IsBestEffort :
      (m : Action (World S) Exception A) (f : A → Action (World S) Exception B)
      → IsBlind m
      → ((a : A) → IsBestEffort (f a))
      → IsBestEffort (m >>= f)
  bind-IsBestEffort m f hm hf = record {
    answer =
        λ n w. ap (λ x. (((λ v. (x.0, v)) >>= f) x.1).0) (hm.same n w) ∙ (bind_best f hf n (m w)).0;
    left = λ n w.
        ap (λ x. with_nats none (((λ v. (x.0, v)) >>= f) x.1).1) (hm.same n w)
        ∙ (bind_best f hf n (m w)).1;
  }
