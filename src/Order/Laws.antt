-- ===== src/Order/Laws.antt =====
-- What the saga relies on of the services that it calls, as a record that a concrete network fills.
use micro_mart.Shared.Int.{ℤ}
use micro_mart.Shared.{ℕ, ◌+◌, ◌≡◌, ◌≢◌, Bool, true, false, List, [], ◌∷◌, ◌==◌, err, if◌then◌else◌}
use micro_mart.Order.Table.{OrderItemRequest}
use micro_mart.Order.Clients.{
  Remote, Verdict, judge_deduct, judge_product, judge_restore, judge_payment, uncaught,
}

abbrev pub at : ℕ → ℕ → ℕ → ℕ
at k quantity j = if j == k then quantity else 0

-- What a list of pairs takes from product `j`.
abbrev pub taken : List (ℕ × ℕ) → ℕ → ℕ
taken [] j = 0
taken ((k, quantity) ∷ rest) j = at k quantity j + taken rest j

abbrev pub pairs : List OrderItemRequest → List (ℕ × ℕ)
pairs [] = []
pairs (i ∷ is) = (i.product_id, i.quantity) ∷ pairs is

abbrev pub is_deducted : Verdict → Bool
is_deducted Verdict.deducted = true
is_deducted _ = false

-- `stock` counts what the product-service holds. A deduction is answered by 200 exactly when it
-- has taken the quantity; a restore likewise; nothing else moves stock. A reply that reports
-- success has the body that its endpoint promises.
pub record KeepsStock {S : Type 0} (net : Remote S) (stock : S → ℕ → ℕ) : Type 0 where
  pub reading : (k : ℕ) (s : S) (j : ℕ) → stock (net.get_product k s).1 j ≡ stock s j
  pub deducting :
      (k q v : ℕ) (s : S) (j : ℕ)
      → stock (net.deduct_stock k q v s).1 j
          + (if is_deducted (judge_deduct (net.deduct_stock k q v s).0) then at k q j else 0)
        ≡ stock s j
  pub restoring :
      (k q : ℕ) (s : S) (j : ℕ)
      → stock (net.restore_stock k q s).1 j
        ≡ stock s j + (if judge_restore (net.restore_stock k q s).0 then at k q j else 0)
  pub paying :
      (o : ℕ) (u : ℤ) (a : ℕ) (s : S) (j : ℕ) → stock (net.create_payment o u a s).1 j ≡ stock s j
  pub product_body : (k : ℕ) (s : S) → judge_product (net.get_product k s).0 ≢ err uncaught
  pub payment_body :
      (o : ℕ) (u : ℤ) (a : ℕ) (s : S) → judge_payment (net.create_payment o u a s).0 ≢ err uncaught
