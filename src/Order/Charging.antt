-- ===== src/Order/Charging.antt =====
-- The payment stage of the saga, its compensation, and its completion.
pub mod Asking
use micro_mart.Shared.{
  ℕ, ◌+◌, ◌≡◌, refl, ap, ◌∙◌, String, Bool, true, false, ◌||◌, ◌==◌, if◌then◌else◌, Option, List,
  arith, Result, ok, err, Result-cases, inl, inr,
}
use micro_mart.Shared.Http.{coded_error}
use micro_mart.Payment.Table.{PaymentResponse}
use micro_mart.Order.Table.{Order, OrderStatus, SagaStatus, OrderDb}
use micro_mart.Order.Clients.{
  Remote, World, Exception, product_error, payment_error, http, uncaught, request_payment,
}
use micro_mart.Order.Placing.{save_order}
use micro_mart.Order.Saga.{
  deducted_order, asking_order, marked_order, failed_order, payment_status, restore_all,
  fail_payment, charge,
}
use micro_mart.Order.Laws.{taken, KeepsStock}
use micro_mart.Order.Balance.{
  restore_all-stock, is_payment_error, request_payment-stock, request_payment-error,
}
use micro_mart.Order.Rows.{
  Stored, save_order-Stored, frame-Stored, restore_all-session, request_payment-session,
}
use micro_mart.Order.Charging.Asking.{
  save_order-remote, payment_status-kept, payment_status-other, Asked, asking_world,
  asking_world-Stored, asking_world-Asked,
}

module _ {S : Type 0} (net : Remote S) (stock : S → ℕ → ℕ) (law : KeepsStock net stock)
    (base : OrderDb) (order : Order) where
  -- What the stage leaves where it raises, and `done` was deducted.
  pub record Declined (done : List (ℕ × ℕ)) (w w' : World S) (e : Exception) : Type 0 where
    pub code : Option String
    pub status : ℕ
    pub asked : Asked net base order w (err (payment_error code status))
    pub answer : ℕ
    pub error : e ≡ http (coded_error answer code)
    pub kept : (status == 402 || (status == 503 || status == 504)) ≡ true → answer ≡ status
    pub other : (status == 402 || (status == 503 || status == 504)) ≡ false → answer ≡ 502
    pub rolled_back : Bool
    pub stored :
        Stored base
          (record order {
            status = OrderStatus.failed;
            saga_status =
                if rolled_back
                then SagaStatus.stock_rolled_back
                else SagaStatus.stock_rollback_needed;
            stock_deducted = true;
            failure_reason = code;
          })
          w'
    pub back : rolled_back ≡ true → (j : ℕ) → stock w'.remote j ≡ stock w.remote j + taken done j

  abbrev pub Charged : List (ℕ × ℕ) → World S → Result Exception PaymentResponse × World S → Type 0
  Charged done w (ok payment, w') =
      Stored base
        (record order {
          status = OrderStatus.payment_requested;
          saga_status = SagaStatus.payment_requested;
          stock_deducted = true;
        })
        w'
      × ((j : ℕ) → stock w'.remote j ≡ stock w.remote j)
      × Asked net base order w (ok payment)
  Charged done w (err e, w') = Declined done w w' e

  asked-stock :
      (w : World S) (j : ℕ)
      → stock
          (request_payment net order.id order.user_id order.total_amount
            (asking_world net base order w)).1.remote
          j
        ≡ stock w.remote j
  asked-stock w j =
      request_payment-stock net stock law order.id order.user_id order.total_amount
        (asking_world net base order w) j
      ∙ ap (λ s. stock s j)
          (save_order-remote (asking_order (deducted_order order))
              (save_order (deducted_order order) w).1
            ∙ save_order-remote (deducted_order order) w)

  pub fail_payment-eq :
      (o : Order) (done : List (ℕ × ℕ)) (code : Option String) (status : ℕ) (b : Bool) (w : World S)
      → (restore_all net done true (save_order (marked_order code o) w).1).0 ≡ ok b
      → fail_payment net o done code status w ≡ (
        err (http (coded_error (payment_status status) code)),
        (save_order
            (failed_order b code o)
            (restore_all net done true (save_order (marked_order code o) w).1).1).1,
      )
  unfolding fail_payment save_order
  fail_payment-eq o done code status b w e = ground arith

  charge-ok :
      (done : List (ℕ × ℕ)) (p : PaymentResponse) (w : World S)
      → (request_payment net order.id order.user_id order.total_amount
          (asking_world net base order w)).0
        ≡ ok p
      → charge net order done w ≡ (
        ok p,
        (request_payment net order.id order.user_id order.total_amount
            (asking_world net base order w)).1,
      )
  unfolding charge save_order
  charge-ok done p w e = ground arith

  pub charge-err :
      (done : List (ℕ × ℕ)) (code : Option String) (status : ℕ) (w : World S)
      → (request_payment net order.id order.user_id order.total_amount
          (asking_world net base order w)).0
        ≡ err (payment_error code status)
      → charge net order done w
        ≡ fail_payment net
            (asking_order (deducted_order order))
            done
            code
            status
            (request_payment net order.id order.user_id order.total_amount
              (asking_world net base order w)).1
  unfolding charge save_order
  charge-err done code status w e = ground arith

  fail_payment-Declined :
      (done : List (ℕ × ℕ)) (code : Option String) (status : ℕ) (w w' : World S)
      → ((j : ℕ) → stock w'.remote j ≡ stock w.remote j)
      → Stored base (asking_order (deducted_order order)) w'
      → Asked net base order w (err (payment_error code status))
      → Charged done w (fail_payment net (asking_order (deducted_order order)) done code status w')
  fail_payment-Declined done code status w w' same h asked =
      let o = asking_order (deducted_order order) in
      let marked = (save_order (marked_order code o) w').1 in
      let (b, flag, unused) = restore_all-stock net stock law done true marked 0 in
      let after = (restore_all net done true marked).1 in
      rw (fail_payment-eq o done code status b w' flag) (record {
        code = code;
        status = status;
        asked = asked;
        answer = payment_status status;
        error = refl;
        kept = payment_status-kept status;
        other = payment_status-other status;
        rolled_back = b;
        stored = save_order-Stored base (marked_order code o) (failed_order b code o) after refl (
            frame-Stored base (marked_order code o) marked after
              (restore_all-session net done true marked)
              (save_order-Stored base o (marked_order code o) w' refl h));
        back = λ t j.
            let (b', flag', moved) = restore_all-stock net stock law done true marked j in
            ground (
              arith,
              t,
              flag,
              flag',
              moved,
              same j,
              save_order-remote (failed_order b code o) after,
              save_order-remote (marked_order code o) w',
            );
      })

  charge-caught :
      (done : List (ℕ × ℕ)) (x : Exception) (w : World S)
      → Stored base order w
      → (request_payment net order.id order.user_id order.total_amount
          (asking_world net base order w)).0
        ≡ err x
      → is_payment_error
          (request_payment net order.id order.user_id order.total_amount
            (asking_world net base order w)).0
        ≡ true
      → Charged done w (charge net order done w)
  charge-caught done (payment_error code status) w h e good = rw (charge-err done code status w e) (
      fail_payment-Declined done code status w _ (asked-stock w)
        (frame-Stored base (asking_order (deducted_order order)) (asking_world net base order w) _
          (request_payment-session net order.id order.user_id order.total_amount
            (asking_world net base order w))
          (asking_world-Stored net base order w h))
        (asking_world-Asked net base order w (err (payment_error code status)) h e))
  charge-caught done (product_error code status) w h e good = absurd (ground arith)
  charge-caught done (http x) w h e good = absurd (ground arith)
  charge-caught done uncaught w h e good = absurd (ground arith)

  pub charge-Charged :
      (done : List (ℕ × ℕ)) (w : World S)
      → Stored base order w
      → Charged done w (charge net order done w)
  charge-Charged done w h =
      let answer =
        request_payment net order.id order.user_id order.total_amount
          (asking_world net base order w) in
      elim (Result-cases answer.0) [
        | inl (p, e) ↦ rw (charge-ok done p w e) (
          frame-Stored base (asking_order (deducted_order order)) (asking_world net base order w) _
              (request_payment-session net order.id order.user_id order.total_amount
                (asking_world net base order w))
              (asking_world-Stored net base order w h),
          asked-stock w,
          asking_world-Asked net base order w (ok p) h e,
        )
        | inr (x, e) ↦ charge-caught done x w h e (
            request_payment-error net stock law order.id order.user_id order.total_amount
              (asking_world net base order w))
      ]
