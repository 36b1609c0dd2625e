-- ===== src/Order/Balance.antt =====
-- The stock that the steps of the saga move.
use micro_mart.Shared.Int.{ℤ}
use micro_mart.Shared.{
  ℕ, zero, suc, ◌+◌, ◌≡◌, refl, Bool, true, false, ◌&&◌, List, [], ◌∷◌, arith, Result, ok, err,
  Result-cases, inl, inr, if◌then◌else◌,
}
use micro_mart.Order.Clients.{
  Remote, World, Call, ask, Exception, product_error, payment_error, judge_deduct, judge_product,
  judge_restore, judge_payment, get_product, deduct_attempts, restore_stock, request_payment,
}
use micro_mart.Order.Saga.{restore_all}
use micro_mart.Order.Laws.{at, taken, KeepsStock}

-- What a call has taken: `t` if it succeeded, nothing if it raised.
abbrev pub charged : {E A : Type 0} → Result E A → ℕ → ℕ
charged (ok a) t = t
charged (err e) t = 0

-- The call succeeded, or raised the exception that its caller catches.
abbrev pub is_product_error : {A : Type 0} → Result Exception A → Bool
is_product_error (ok a) = true
is_product_error (err (product_error code status)) = true
is_product_error _ = false

abbrev pub is_payment_error : {A : Type 0} → Result Exception A → Bool
is_payment_error (ok a) = true
is_payment_error (err (payment_error code status)) = true
is_payment_error _ = false

module _ {S : Type 0} (net : Remote S) (stock : S → ℕ → ℕ) (law : KeepsStock net stock) where
  pub get_product-stock :
      (k : ℕ) (w : World S) (j : ℕ) → stock (get_product net k w).1.remote j ≡ stock w.remote j
  unfolding get_product
  get_product-stock k w j = ground (arith, law.reading k w.remote j)

  -- Over services that move stock only as they report: however many attempts it takes, a deduction
  -- that succeeds has taken its quantity once, and one that raises has taken nothing.
  pub deduct_attempts-stock :
      (left k q v : ℕ) (w : World S) (j : ℕ)
      → stock (deduct_attempts net left k q v w).1.remote j
          + charged (deduct_attempts net left k q v w).0 (at k q j)
        ≡ stock w.remote j
  unfolding deduct_attempts
  deduct_attempts-stock zero k q v w j = ground arith
  deduct_attempts-stock (suc left) k q v w j =
      let w' = (ask (Call.deduct k q v) (net.deduct_stock k q v) w).1 in
      elim (Result-cases (get_product net k w').0) [
        | inl (fresh, e) ↦ ground (
          arith,
          law.deducting k q v w.remote j,
          get_product-stock k w' j,
          deduct_attempts-stock left k q fresh.version (get_product net k w').1 j,
        )
        | inr (x, e) ↦ ground (arith, law.deducting k q v w.remote j, get_product-stock k w' j)
      ]

  pub restore_stock-stock :
      (k q : ℕ) (w : World S) (j : ℕ)
      → (r : Bool) × ((restore_stock net k q w).0 ≡ ok r)
        × (stock (restore_stock net k q w).1.remote j
            ≡ stock w.remote j + (if r then at k q j else 0))
  unfolding restore_stock
  restore_stock-stock k q w j =
      (judge_restore (net.restore_stock k q w.remote).0, refl, law.restoring k q w.remote j)

  -- Restoring a list: the flag comes back true only if it was and every restore succeeded, and
  -- then every pair is back.
  pub restore_all-stock :
      (ds : List (ℕ × ℕ)) (b : Bool) (w : World S) (j : ℕ)
      → (r : Bool) × ((restore_all net ds b w).0 ≡ ok r)
        × (r ≡ true
            → (b ≡ true)
              × (stock (restore_all net ds b w).1.remote j ≡ stock w.remote j + taken ds j))
  unfolding restore_all
  restore_all-stock [] b w j = (b, refl, λ e. (e, omega arith))
  restore_all-stock ((k, q) ∷ ds) b w j =
      let (r, e, moved) = restore_stock-stock k q w j in
      let (r', e', rest) = restore_all-stock ds (b && r) (restore_stock net k q w).1 j in
      (
        r',
        ground (arith, e, e'),
        λ t. let (both, back) = rest t in (ground arith, ground (arith, e, moved, back)),
      )

  pub request_payment-stock :
      (o : ℕ) (u : ℤ) (a : ℕ) (w : World S) (j : ℕ)
      → stock (request_payment net o u a w).1.remote j ≡ stock w.remote j
  unfolding request_payment
  request_payment-stock o u a w j = ground (arith, law.paying o u a w.remote j)

  pub request_payment-error :
      (o : ℕ) (u : ℤ) (a : ℕ) (w : World S)
      → is_payment_error (request_payment net o u a w).0 ≡ true
  unfolding request_payment judge_payment
  request_payment-error o u a w = ground (arith, law.payment_body o u a w.remote)

  get_product-error : (k : ℕ) (w : World S) → is_product_error (get_product net k w).0 ≡ true
  unfolding get_product judge_product
  get_product-error k w = ground (arith, law.product_body k w.remote)

  pub deduct_attempts-error :
      (left k q v : ℕ) (w : World S) → is_product_error (deduct_attempts net left k q v w).0 ≡ true
  unfolding deduct_attempts judge_deduct
  deduct_attempts-error zero k q v w = ground arith
  deduct_attempts-error (suc left) k q v w =
      let w' = (ask (Call.deduct k q v) (net.deduct_stock k q v) w).1 in
      elim (Result-cases (get_product net k w').0) [
        | inl (fresh, e) ↦
            ground (arith, deduct_attempts-error left k q fresh.version (get_product net k w').1)
        | inr (x, e) ↦ ground (arith, get_product-error k w')
      ]
