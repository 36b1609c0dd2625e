-- ===== src/Order/Attempts.antt =====
-- What the retry loop of a deduction asks of product-service (`deduct_stock`,
-- services/order-service/app/services/http_clients.py).
use micro_mart.Shared.{ℕ, suc, ◌==◌, ◌≡◌, Bool, true, false, ◌&&◌, not, List, [], ◌∷◌, ok, err}
use micro_mart.Product.Table.{ProductResponse}
use micro_mart.Order.Clients.{
  World, Remote, Call, Effect, Exception, asked, ask, Verdict, conflict, judge_deduct,
  judge_product, get_product,
}

abbrev pub is_conflict : Verdict → Bool
is_conflict conflict = true
is_conflict _ = false

module _ {S : Type 0} (net : Remote S) (k q : ℕ) where
  -- Product-service refuses the deduction for its version, and rounds are left.
  abbrev pub is_retried : ℕ → ℕ → S → Bool
  is_retried left v s = is_conflict (judge_deduct (net.deduct_stock k q v s).0) && not (left == 0)

  -- The requests with `left` rounds and the version `v`, while the services are in the state `s`: a
  -- deduction with that version in each round, and after one that is retried, before the next round, a
  -- reading of the product, whose version the next round takes.
  pub data Rounds : ℕ → ℕ → S → List Effect → Type 0 where
    no_round : (v : ℕ) (s : S) → Rounds 0 v s []
    last_deduction :
        (left v : ℕ) (s : S)
        → is_retried left v s ≡ false
        → Rounds (suc left) v s (asked (Call.deduct k q v) ∷ [])
    failed_reading :
        (left v : ℕ) (s : S) (e : Exception)
        → is_retried left v s ≡ true
        → judge_product (net.get_product k (net.deduct_stock k q v s).1).0 ≡ err e
        → Rounds (suc left) v s (asked (Call.deduct k q v) ∷ asked (Call.read k) ∷ [])
    next_round :
        (left v : ℕ) (s : S) (p : ProductResponse) (es : List Effect)
        → is_retried left v s ≡ true
        → judge_product (net.get_product k (net.deduct_stock k q v s).1).0 ≡ ok p
        → Rounds left p.version (net.get_product k (net.deduct_stock k q v s).1).1 es
        → Rounds (suc left) v s (asked (Call.deduct k q v) ∷ asked (Call.read k) ∷ es)

  -- The world after a deduction and a reading.
  abbrev after : ℕ → World S → World S
  after v w = (get_product net k (ask (Call.deduct k q v) (net.deduct_stock k q v) w).1).1
