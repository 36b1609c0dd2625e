-- ===== src/Order/Deduction.antt =====
-- The deduction stage of the saga, and its rollback.
use micro_mart.Shared.{
  ℕ, ◌+◌, ◌≡◌, refl, sym, ap, ◌∙◌, String, Bool, true, if◌then◌else◌, Option, some, List, [], ◌∷◌,
  ◌++◌, arith, Result, ok, err, Result-cases, inl, inr, All, Dict, lookup,
}
use mathlib.Core.List.{append-nil, append_assoc}
use micro_mart.Shared.Http.{coded_error}
use micro_mart.Product.Table.{ProductResponse}
use micro_mart.Order.Table.{Order, OrderStatus, SagaStatus, OrderDb, OrderItemRequest}
use micro_mart.Order.Clients.{
  Remote, World, Exception, product_error, payment_error, http, uncaught, deduct_attempts,
}
use micro_mart.Order.Placing.{save_order}
use micro_mart.Order.Saga.{failed_order, restore_all, fail_deduction, deduct_all}
use micro_mart.Order.Laws.{at, taken, pairs, KeepsStock}
use micro_mart.Order.Balance.{
  is_product_error, deduct_attempts-stock, deduct_attempts-error, restore_all-stock,
}
use micro_mart.Order.Rows.{
  Stored, save_order-Stored, frame-Stored, deduct_attempts-session, restore_all-session,
}

-- Every requested product has been read.
abbrev pub Covers : Dict ProductResponse → List OrderItemRequest → Type 0
Covers products = All (λ i. (p : ProductResponse) × (lookup i.product_id products ≡ some p))

pub taken-append : (xs ys : List (ℕ × ℕ)) (j : ℕ) → taken (xs ++ ys) j ≡ taken xs j + taken ys j
taken-append [] ys j = omega arith
taken-append ((k, q) ∷ xs) ys j = omega (arith, taken-append xs ys j)

module _ {S : Type 0} (net : Remote S) (stock : S → ℕ → ℕ) (law : KeepsStock net stock)
    (base : OrderDb) (order : Order) where
  -- What the stage leaves, from a world `w` where `done` was deducted and the order is stored.
  -- Failed: the order is FAILED with the reason; if it says that the stock is rolled back, then
  -- all of `done` is back.
  pub record Failed (done : List (ℕ × ℕ)) (w w' : World S) (e : Exception) : Type 0 where
    pub code : Option String
    pub status : ℕ
    pub rolled_back : Bool
    pub error : e ≡ http (coded_error status code)
    pub stored :
        Stored base
          (record order {
            status = OrderStatus.failed;
            saga_status =
                if rolled_back
                then SagaStatus.stock_rolled_back
                else SagaStatus.stock_rollback_needed;
            failure_reason = code;
          })
          w'
    pub back : rolled_back ≡ true → (j : ℕ) → stock w'.remote j ≡ stock w.remote j + taken done j

  abbrev pub Deduction :
      List OrderItemRequest
      → List (ℕ × ℕ)
      → World S
      → Result Exception (List (ℕ × ℕ)) × World S
      → Type 0
  Deduction items done w (ok done', w') =
      (done' ≡ done ++ pairs items)
      × Stored base order w'
      × ((j : ℕ) → stock w'.remote j + taken done' j ≡ stock w.remote j + taken done j)
  Deduction items done w (err e, w') = Failed done w w' e

  fail_deduction-eq :
      (done : List (ℕ × ℕ)) (code : Option String) (status : ℕ) (b : Bool) (w : World S)
      → (restore_all net done true w).0 ≡ ok b
      → fail_deduction net order done code status w ≡ (
        err (http (coded_error status code)),
        (save_order (failed_order b code order) (restore_all net done true w).1).1,
      )
  unfolding fail_deduction save_order
  fail_deduction-eq done code status b w e = ground arith

  pub fail_deduction-Failed :
      (done : List (ℕ × ℕ)) (code : Option String) (status : ℕ) (b : Bool) (w : World S)
      → Stored base order w
      → (restore_all net done true w).0 ≡ ok b
      → Failed done w
          (save_order (failed_order b code order) (restore_all net done true w).1).1
          (http (coded_error status code))
  unfolding save_order
  fail_deduction-Failed done code status b w h e = record {
    code = code;
    status = status;
    rolled_back = b;
    error = refl;
    stored =
        unfold save_order in
        save_order-Stored base order (failed_order b code order) (restore_all net done true w).1
          refl
          (frame-Stored base order w (restore_all net done true w).1
            (restore_all-session net done true w) h);
    back = λ t j.
        let (b', flag, moved) = restore_all-stock net stock law done true w j in
        (moved (ground (arith, e, flag))).1;
  }

  deduct_all-cons_ok :
      (n : ℕ) (products : Dict ProductResponse) (i : OrderItemRequest) (is : List OrderItemRequest)
      (done : List (ℕ × ℕ)) (p : ProductResponse) (u : Unit {0}) (w : World S)
      → lookup i.product_id products ≡ some p
      → (deduct_attempts net n i.product_id i.quantity p.version w).0 ≡ ok u
      → deduct_all net n order products (i ∷ is) done w
        ≡ deduct_all net n order products is
            (done ++ (i.product_id, i.quantity) ∷ [])
            (deduct_attempts net n i.product_id i.quantity p.version w).1
  unfolding deduct_all
  deduct_all-cons_ok n products i is done p u w found e = ground arith

  deduct_all-cons_err :
      (n : ℕ) (products : Dict ProductResponse) (i : OrderItemRequest) (is : List OrderItemRequest)
      (done : List (ℕ × ℕ)) (p : ProductResponse) (code : Option String) (status : ℕ)
      (e : Exception) (w : World S)
      → lookup i.product_id products ≡ some p
      → (deduct_attempts net n i.product_id i.quantity p.version w).0
        ≡ err (product_error code status)
      → (fail_deduction net order done code status
          (deduct_attempts net n i.product_id i.quantity p.version w).1).0
        ≡ err e
      → deduct_all net n order products (i ∷ is) done w ≡ (
        err e,
        (fail_deduction net order done code status
            (deduct_attempts net n i.product_id i.quantity p.version w).1).1,
      )
  unfolding deduct_all
  deduct_all-cons_err n products i is done p code status e w found a f = ground arith

  deduct_all-nil :
      (n : ℕ) (products : Dict ProductResponse) (done : List (ℕ × ℕ)) (w : World S)
      → deduct_all net n order products [] done w ≡ (ok done, w)
  unfolding deduct_all
  deduct_all-nil n products done w = refl

  -- One more item deducted before.
  Deduction-cons :
      (i : OrderItemRequest) (is : List OrderItemRequest) (done : List (ℕ × ℕ)) (w w' : World S)
      (out : Result Exception (List (ℕ × ℕ)) × World S)
      → ((j : ℕ) → stock w'.remote j + at i.product_id i.quantity j ≡ stock w.remote j)
      → Deduction is (done ++ (i.product_id, i.quantity) ∷ []) w' out
      → Deduction (i ∷ is) done w out
  Deduction-cons i is done w w' (ok done', w'') f (e, h, m) = (
    e ∙ append_assoc done ((i.product_id, i.quantity) ∷ []) (pairs is),
    h,
    λ j. omega (arith, f j, m j, taken-append done ((i.product_id, i.quantity) ∷ []) j),
  )
  Deduction-cons i is done w w' (err x, w'') f h = record {
    code = h.code;
    status = h.status;
    rolled_back = h.rolled_back;
    error = h.error;
    stored = h.stored;
    back = λ t j.
        omega (arith, f j, h.back t j, taken-append done ((i.product_id, i.quantity) ∷ []) j);
  }

  -- Nothing was taken by the attempt that failed.
  Deduction-same :
      (items : List OrderItemRequest) (done : List (ℕ × ℕ)) (w w' : World S)
      (out : Result Exception (List (ℕ × ℕ)) × World S)
      → ((j : ℕ) → stock w'.remote j ≡ stock w.remote j)
      → Deduction items done w' out
      → Deduction items done w out
  Deduction-same items done w w' (ok done', w'') f (e, h, m) = (e, h, λ j. omega (arith, f j, m j))
  Deduction-same items done w w' (err x, w'') f h = record {
    code = h.code;
    status = h.status;
    rolled_back = h.rolled_back;
    error = h.error;
    stored = h.stored;
    back = λ t j. omega (arith, f j, h.back t j);
  }

  deduct_all-cons_failed :
      (n : ℕ) (products : Dict ProductResponse) (i : OrderItemRequest) (is : List OrderItemRequest)
      (done : List (ℕ × ℕ)) (p : ProductResponse) (x : Exception) (w : World S)
      → lookup i.product_id products ≡ some p
      → (deduct_attempts net n i.product_id i.quantity p.version w).0 ≡ err x
      → is_product_error (deduct_attempts net n i.product_id i.quantity p.version w).0 ≡ true
      → Stored base order (deduct_attempts net n i.product_id i.quantity p.version w).1
      → Deduction
          (i ∷ is)
          done
          (deduct_attempts net n i.product_id i.quantity p.version w).1
          (deduct_all net n order products (i ∷ is) done w)
  deduct_all-cons_failed n products i is done p (product_error code status) w found e good h =
      let w' = (deduct_attempts net n i.product_id i.quantity p.version w).1 in
      let (b, flag, unused) = restore_all-stock net stock law done true w' 0 in
      let same = fail_deduction-eq done code status b w' flag in
      rw (deduct_all-cons_err n products i is done p code status _ w found e (ap (λ o. o.0) same))
        (rw same (fail_deduction-Failed done code status b w' h flag))
  deduct_all-cons_failed n products i is done p (payment_error code status) w found e good h =
      absurd (ground arith)
  deduct_all-cons_failed n products i is done p (http x) w found e good h = absurd (ground arith)
  deduct_all-cons_failed n products i is done p uncaught w found e good h = absurd (ground arith)

  -- Stage 3 from a stored order, all products read, over services that move stock only as they
  -- report: if `deduct_all` answers, every item is in its list and has been taken once, and the
  -- order is stored as it was; if it raises, it raises an HTTP error, the order is stored FAILED
  -- with that error's code as its reason, as STOCK_ROLLED_BACK or STOCK_ROLLBACK_NEEDED, and in
  -- the first case everything taken before is back. No other order and no item is changed.
  pub deduct_all-Deduction :
      (n : ℕ) (products : Dict ProductResponse) (items : List OrderItemRequest)
      (done : List (ℕ × ℕ)) (w : World S)
      → Covers products items
      → Stored base order w
      → Deduction items done w (deduct_all net n order products items done w)
  deduct_all-Deduction n products [] done w c h =
      rw (deduct_all-nil n products done w) (sym (append-nil done), h, λ j. refl)
  deduct_all-Deduction n products (i ∷ is) done w ((p, found), c) h =
      let attempt = deduct_attempts net n i.product_id i.quantity p.version w in
      let moved = deduct_attempts-stock net stock law n i.product_id i.quantity p.version w in
      let h' =
        frame-Stored base order w attempt.1
          (deduct_attempts-session net n i.product_id i.quantity p.version w) h in
      elim (Result-cases attempt.0) [
        | inl (u, e) ↦ rw (deduct_all-cons_ok n products i is done p u w found e) (
            Deduction-cons i is done w attempt.1 _ (λ j. ground (arith, moved j))
              (deduct_all-Deduction n products is (done ++ (i.product_id, i.quantity) ∷ [])
                attempt.1 c h'))
        | inr (x, e) ↦
            Deduction-same (i ∷ is) done w attempt.1 _ (λ j. ground (arith, moved j))
              (deduct_all-cons_failed n products i is done p x w found e
                (deduct_attempts-error net stock law n i.product_id i.quantity p.version w) h')
      ]
