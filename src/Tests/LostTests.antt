-- ===== src/Tests/LostTests.antt =====
-- A shop in which the reply to a payment is lost.
use Prim.Native.String.{◌++◌ as text_append}
use micro_mart.Shared.{◌≡◌, refl, true, none, some, [], ◌∷◌, err}
use micro_mart.Shared.Http.{coded_error}
use micro_mart.Payment.Table.{PaymentStatus, find_order}
use micro_mart.Payment.Routes.{valid_payment}
use micro_mart.Order.Clients.{http}
use micro_mart.Order.Saga.{charge}
use micro_mart.Order.Charging.{Declined}
use micro_mart.Network.{Deployment, network, stock_in}
use micro_mart.Network.Laws.{network-KeepsStock}
use micro_mart.Network.Lost.{payments_of, charge_lost}
use micro_mart.Tests.OrderData.{lucky, placed, with_order, ordered_world, placed-Stored}

abbrev lossy : Deployment
lossy = record lucky { reply_lost = λ n. true }

charge_lost_example :
    let (r, w') = charge (network lossy) placed ((1, 2) ∷ []) ordered_world in
    (r ≡ err (http (coded_error 504 (some "PAYMENT_TIMEOUT"))))
    × (find_order 1 (payments_of w').payments
        ≡ some (record {
          id = 1;
          order_id = placed.id;
          user_id = placed.user_id;
          amount = placed.total_amount;
          status = PaymentStatus.approved;
          pg_transaction_id = some (text_append "PG-" (lossy.chance 1).transaction);
          failure_reason = none;
          processed_at = some (lossy.chance 1).processed_at;
        }))
    × Declined
        (network lossy)
        (stock_in lossy)
        (network-KeepsStock lossy)
        with_order
        placed
        ((1, 2) ∷ [])
        ordered_world
        w'
        (http (coded_error 504 (some "PAYMENT_TIMEOUT")))
unfolding valid_payment
charge_lost_example =
    charge_lost lossy with_order placed ((1, 2) ∷ []) ordered_world placed-Stored
      (record { ids = tt; orders = tt; rows = tt; references = tt }) refl refl refl refl refl refl
      refl
