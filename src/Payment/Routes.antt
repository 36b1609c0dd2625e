-- ===== src/Payment/Routes.antt =====
-- The HTTP boundary of payment-service: routes/payments.py, dependencies.py and the `Field`
-- constraints of schemas.py. Each request has a session of its own.
use Prim.Native.String.{count}
use micro_mart.Shared.Int.{pos, ltb_ℤ}
use micro_mart.Shared.{
  ℕ, String, str_eq, Bool, true, ◌&&◌, not, Option, none, some, List, [], ◌∷◌, ltb, leb, Action,
  ◌>>◌, throw_if,
}
use micro_mart.Shared.Http.{HttpError, plain_error}
use micro_mart.Shared.Session.{in_session}
use micro_mart.Payment.Table.{
  PaymentDb, PaymentCreateRequest, PaymentResponse, RefundCreateRequest, RefundResponse,
}
use micro_mart.Payment.Service.{Chance, create_payment_service, get_payment_service}
use micro_mart.Payment.Refunds.{create_refund_service}

-- A token that is not configured is answered by 500, whether the settings fail to load or are
-- empty.
unfoldable pub verify_internal_service : String → String → Action PaymentDb HttpError (Unit {0})
verify_internal_service internal_service_token x_internal_token = do
  throw_if (str_eq internal_service_token "") (plain_error 500)
  throw_if (not (str_eq x_internal_token internal_service_token)) (plain_error 401)

unfoldable pub valid_payment : PaymentCreateRequest → Bool
valid_payment u = ltb 0 u.order_id && ltb_ℤ (pos 0) u.user_id && ltb 0 u.amount

abbrev pub within : ℕ → Option String → Bool
within n none = true
within n (some s) = leb (count s) n

unfoldable pub valid_refund : RefundCreateRequest → Bool
valid_refund u = ltb 0 u.amount && within 500 u.reason

abbrev pub validate : Bool → Action PaymentDb HttpError (Unit {0})
validate valid = throw_if (not valid) (plain_error 422)

module _ (token : String) where
  unfoldable pub create_payment :
      String → Chance → PaymentCreateRequest → Action PaymentDb HttpError PaymentResponse
  unfolding verify_internal_service
  create_payment x_internal_token c payload = do
    verify_internal_service token x_internal_token
    validate (valid_payment payload)
    in_session (create_payment_service c payload)

  unfoldable pub get_payment : String → ℕ → Action PaymentDb HttpError PaymentResponse
  unfolding verify_internal_service
  get_payment x_internal_token payment_id = do
    verify_internal_service token x_internal_token
    in_session (get_payment_service payment_id)

  unfoldable pub create_refund :
      String → ℕ → RefundCreateRequest → ℕ → Action PaymentDb HttpError RefundResponse
  unfolding verify_internal_service
  create_refund x_internal_token payment_id payload now = do
    verify_internal_service token x_internal_token
    validate (valid_refund payload)
    in_session (create_refund_service payment_id payload now)

pub data Request : Type 0 where
  create : String → Chance → PaymentCreateRequest → Request
  get : String → ℕ → Request
  refund : String → ℕ → RefundCreateRequest → ℕ → Request

unfoldable pub handle : String → Request → PaymentDb → PaymentDb
handle token (Request.create header c u) db = (create_payment token header c u db).1
handle token (Request.get header k) db = (get_payment token header k db).1
handle token (Request.refund header k u now) db = (create_refund token header k u now db).1

unfoldable pub run : String → List Request → PaymentDb → PaymentDb
run token [] db = db
run token (r ∷ rs) db = run token rs (handle token r db)
