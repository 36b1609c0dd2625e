-- ===== src/Order/Clients.antt =====
-- order-service's HTTP clients (services/order-service/app/services/http_clients.py), over the
-- remote services as an interface: each request gives a reply and changes the remote state.
use micro_mart.Shared.Int.{ℤ}
use micro_mart.Shared.{
  ℕ, zero, suc, String, str_eq, Bool, false, not, Option, none, some, List, [], ◌∷◌, ◌++◌, ◌==◌,
  Result, ok, err, Action, ◌>>=◌, pure, throw, if◌then◌else◌,
}
use micro_mart.Shared.Http.{HttpError, Body, Reply}
use micro_mart.Shared.Session.{Session}
use micro_mart.Product.Table.{ProductResponse}
use micro_mart.Payment.Table.{PaymentResponse}
use micro_mart.Order.Table.{OrderDb}

-- The endpoints that order-service calls, with the internal token filled in.
pub record Remote (S : Type 0) : Type 0 where
  pub get_product : ℕ → S → Reply ProductResponse × S
  pub deduct_stock : ℕ → ℕ → ℕ → S → Reply (Unit {0}) × S
  pub restore_stock : ℕ → ℕ → S → Reply (Unit {0}) × S
  pub create_payment : ℕ → ℤ → ℕ → S → Reply PaymentResponse × S

pub data Call : Type 0 where
  read : ℕ → Call
  deduct : ℕ → ℕ → ℕ → Call
  restore : ℕ → ℕ → Call
  pay : ℕ → ℤ → ℕ → Call

-- What a crash of order-service falls between: commits of its database and requests to others.
pub data Effect : Type 0 where
  saved : OrderDb → Effect
  asked : Call → Effect

-- `none`: no client. Else whether it is closed, and whether `publish` raises.
pub record Nats : Type 0 where
  pub is_closed : Bool
  pub raises : Bool

pub record OrderCompleted : Type 0 where
  pub order_id : ℕ
  pub user_id : ℤ
  pub total_amount : ℕ
  pub payment_id : Option ℕ

-- A request in order-service: the remote state, its database session, what it did, its clock.
pub record World (S : Type 0) : Type 0 where
  pub remote : S
  pub session : Session OrderDb
  pub trace : List Effect
  pub nats : Option Nats
  pub published : List OrderCompleted
  pub now : ℕ

-- `uncaught` is any other Python exception: a KeyError, a body that does not parse.
pub data Exception : Type 0 where
  product_error payment_error : Option String → ℕ → Exception
  http : HttpError → Exception
  uncaught : Exception

-- `error_detail.get("code", default) if isinstance(error_detail, dict) else default`
abbrev pub error_code : {A : Type 0} → String → Body A → Option String
error_code default (Body.coded code) = code
error_code default _ = some default

abbrev pub is_code : String → Option String → Bool
is_code c none = false
is_code c (some d) = str_eq d c

-- What a reply to a deduction means.
pub data Verdict : Type 0 where
  deducted conflict : Verdict
  refused : Exception → Verdict

unfoldable pub judge_deduct : Reply (Unit {0}) → Verdict
judge_deduct Reply.timeout = refused (product_error (some "STOCK_DEDUCT_TIMEOUT") 504)
judge_deduct Reply.request_error = refused (product_error (some "PRODUCT_SERVICE_UNAVAILABLE") 503)
judge_deduct (Reply.response status body) =
    let code = error_code "STOCK_DEDUCT_ERROR" body in
    if status == 200
    then deducted
    else if is_code "VERSION_CONFLICT" code
    then conflict
    else if is_code "INSUFFICIENT_STOCK" code
    then refused (product_error (some "INSUFFICIENT_STOCK") 409)
    else refused (product_error code status)

unfoldable pub judge_product : Reply ProductResponse → Result Exception ProductResponse
judge_product Reply.timeout = err (product_error (some "PRODUCT_SERVICE_TIMEOUT") 504)
judge_product Reply.request_error = err (product_error (some "PRODUCT_SERVICE_UNAVAILABLE") 503)
judge_product (Reply.response status body) =
    if status == 404
    then err (product_error (some "PRODUCT_NOT_FOUND") 404)
    else if not (status == 200)
    then err (product_error (some "PRODUCT_SERVICE_ERROR") status)
    else elim body [ Body.payload p ↦ ok p | _ ↦ err uncaught ]

-- True on 200 alone: every exception is absorbed.
unfoldable pub judge_restore : Reply (Unit {0}) → Bool
judge_restore (Reply.response status body) = status == 200
judge_restore _ = false

unfoldable pub judge_payment : Reply PaymentResponse → Result Exception PaymentResponse
judge_payment Reply.timeout = err (payment_error (some "PAYMENT_TIMEOUT") 504)
judge_payment Reply.request_error = err (payment_error (some "PAYMENT_SERVICE_UNAVAILABLE") 503)
judge_payment (Reply.response status body) =
    if status == 201
    then elim body [ Body.payload p ↦ ok p | _ ↦ err uncaught ]
    else err (payment_error (error_code "PAYMENT_REJECTED" body) status)

-- A ProductServiceError of the reading between two attempts becomes a 503.
abbrev pub reread_error : Exception → Exception
reread_error (product_error code status) = product_error (some "PRODUCT_SERVICE_ERROR") 503
reread_error e = e

abbrev pub ask : {S A : Type 0} → Call → (S → Reply A × S) → Action (World S) Exception (Reply A)
ask c f w =
    let (reply, s) = f w.remote in
    (ok reply, record w { remote = s; trace = w.trace ++ asked c ∷ [] })

abbrev pub from_result : {W E A : Type 0} → Result E A → Action W E A
from_result r w = (r, w)

abbrev pub catch : {W E A : Type 0} → (E → E) → Action W E A → Action W E A
catch f m w = let (r, w') = m w in (elim r [ ok a ↦ ok a | err e ↦ err (f e) ], w')

module _ {S : Type 0} (net : Remote S) where
  unfoldable pub get_product : ℕ → Action (World S) Exception ProductResponse
  get_product product_id = do
    reply ← ask (Call.read product_id) (net.get_product product_id)
    from_result (judge_product reply)

  -- The rounds left of `for attempt in range(1, max_optimistic_retry + 1)`; in the last one a
  -- conflict is final.
  unfoldable pub deduct_attempts : ℕ → ℕ → ℕ → ℕ → Action (World S) Exception (Unit {0})
  deduct_attempts zero product_id quantity version =
      throw (product_error (some "STOCK_DEDUCT_ERROR") 500)
  deduct_attempts (suc left) product_id quantity version = do
    reply ←
        ask (Call.deduct product_id quantity version) (net.deduct_stock product_id quantity version)
    elim (judge_deduct reply) [
      | deducted ↦ pure tt
      | refused e ↦ throw e
      | conflict ↦ if left == 0 then throw (product_error (some "ORDER_STOCK_CONFLICT") 409) else do
        fresh ← catch reread_error (get_product product_id)
        deduct_attempts left product_id quantity fresh.version
    ]

  unfoldable pub restore_stock : ℕ → ℕ → Action (World S) Exception Bool
  restore_stock product_id quantity = do
    reply ← ask (Call.restore product_id quantity) (net.restore_stock product_id quantity)
    pure (judge_restore reply)

  unfoldable pub request_payment : ℕ → ℤ → ℕ → Action (World S) Exception PaymentResponse
  request_payment order_id user_id amount = do
    reply ← ask (Call.pay order_id user_id amount) (net.create_payment order_id user_id amount)
    from_result (judge_payment reply)
