-- ===== src/Payment/Service.antt =====
-- `create_payment_service` and `get_payment_service` (services/payment-service/app/services/
-- payment_service.py). Sleeping, metrics and log lines are left out; what the handler draws from
-- outside (random number, uuid, clock) is an argument.
use Prim.Native.String.{◌++◌ as text_append}
use micro_mart.Shared.{
  ℕ, suc, String, Bool, true, false, ◌&&◌, Option, none, some, [], ◌∷◌, ◌++◌, ltb, ◌==◌, ok, err,
  Action, ◌>>=◌, ◌>>◌, if◌then◌else◌, update_where,
}
use micro_mart.Shared.Http.{HttpError, plain_error, coded_error}
use micro_mart.Shared.Session.{Session, commit, rollback}
use micro_mart.Payment.Table.{
  Payment, PaymentStatus, PaymentDb, PaymentCreateRequest, PaymentResponse, find, find_order,
}

-- The chaos settings and the draws. A rate and a draw of `random.random()` are counted in the
-- same unit, so that `draw < rate` decides.
pub record Chance : Type 0 where
  pub chaos_failure_rate : ℕ
  pub draw : ℕ
  pub transaction : String
  pub processed_at : ℕ

abbrev pub is_chaos_failure : Chance → Bool
is_chaos_failure c = ltb 0 c.chaos_failure_rate && ltb c.draw c.chaos_failure_rate

abbrev pub duplicate_payment : HttpError
duplicate_payment = coded_error 409 (some "DUPLICATE_PAYMENT")

abbrev pub is_found {ℓ} : {A : Type ℓ} → Option A → Bool
is_found none = false
is_found (some a) = true

abbrev pub new_payment : PaymentCreateRequest → ℕ → Payment
new_payment payload id = record {
  id = id;
  order_id = payload.order_id;
  user_id = payload.user_id;
  amount = payload.amount;
  status = PaymentStatus.pending;
  pg_transaction_id = none;
  failure_reason = none;
  processed_at = none;
}

abbrev pub rejected_payment : Chance → Payment → Payment
rejected_payment c p = record p {
  status = PaymentStatus.rejected;
  failure_reason = some "CHAOS_FAILURE";
  processed_at = some c.processed_at;
}

abbrev pub approved_payment : Chance → Payment → Payment
approved_payment c p = record p {
  status = PaymentStatus.approved;
  pg_transaction_id = some (text_append "PG-" c.transaction);
  processed_at = some c.processed_at;
}

-- The check before anything is written.
unfoldable pub check_duplicate :
    PaymentCreateRequest → Action (Session PaymentDb) HttpError (Unit {0})
check_duplicate payload s = (
  if is_found (find_order payload.order_id s.working.payments)
      then err duplicate_payment
      else ok tt,
  s,
)

-- `db.add(payment); db.flush()`: the UNIQUE constraint on `order_id` refuses a second row.
unfoldable pub flush_payment : PaymentCreateRequest → Action (Session PaymentDb) HttpError Payment
flush_payment payload s =
    if is_found (find_order payload.order_id s.working.payments)
    then (err duplicate_payment, rollback s)
    else let p = new_payment payload s.working.next_payment in
      (
        ok p,
        record s {
          working = record (s.working) {
            payments = s.working.payments ++ p ∷ [];
            next_payment = suc s.working.next_payment;
          };
        },
      )

-- The attributes of the payment are set, and written by the commit.
abbrev pub save_payment : Payment → Session PaymentDb → Session PaymentDb
save_payment p s = commit (record s {
  working = record (s.working) {
    payments = update_where (λ q. q.id == p.id) (λ q. p) s.working.payments;
  };
})

unfoldable pub settle_payment :
    Chance → Payment → Action (Session PaymentDb) HttpError PaymentResponse
settle_payment c p s =
    if is_chaos_failure c
    then (err (coded_error 402 (some "PAYMENT_REJECTED")), save_payment (rejected_payment c p) s)
    else (ok (approved_payment c p), save_payment (approved_payment c p) s)

-- What follows the check: another request may have come between.
unfoldable pub insert_payment :
    Chance → PaymentCreateRequest → Action (Session PaymentDb) HttpError PaymentResponse
unfolding flush_payment settle_payment
insert_payment c payload = do p ← flush_payment payload; settle_payment c p

unfoldable pub create_payment_service :
    Chance → PaymentCreateRequest → Action (Session PaymentDb) HttpError PaymentResponse
unfolding check_duplicate
create_payment_service c payload = do check_duplicate payload; insert_payment c payload

unfoldable pub get_payment_service : ℕ → Action (Session PaymentDb) HttpError PaymentResponse
get_payment_service payment_id s = elim (find payment_id s.working.payments) [
  | none ↦ (err (plain_error 404), s)
  | some p ↦ (ok p, s)
]
