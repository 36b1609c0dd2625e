-- ===== src/Order/Rows.antt =====
-- What order-service has stored of one order while the saga runs.
use micro_mart.Shared.Int.{ℤ}
use micro_mart.Shared.{
  ℕ, zero, suc, ◌≡◌, refl, Bool, false, ◌&&◌, some, List, [], ◌∷◌, arith, ◌==◌, Result-cases, inl,
  inr, update_where,
}
use micro_mart.Order.Table.{Order, OrderDb, find}
use micro_mart.Order.Clients.{
  Remote, World, Call, ask, judge_restore, get_product, deduct_attempts, restore_stock,
  request_payment,
}
use micro_mart.Order.Placing.{save_order}
use micro_mart.Order.Saga.{restore_all}

-- `o` is committed under its id, nothing is flushed beyond that, and of the database `base` the
-- other orders and all items are unchanged.
pub record Stored {S : Type 0} (base : OrderDb) (o : Order) (w : World S) : Type 0 where
  pub found : find o.id w.session.committed.orders ≡ some o
  pub clean : w.session.working ≡ w.session.committed
  pub others :
      (j : ℕ) → (j == o.id) ≡ false → find j w.session.committed.orders ≡ find j base.orders
  pub same_items : w.session.committed.items ≡ base.items

pub find-replace_self :
    (o o' : Order) (os : List Order)
    → find o.id os ≡ some o
    → o'.id ≡ o.id
    → find o'.id (update_where (λ q. q.id == o'.id) (λ q. o') os) ≡ some o'
find-replace_self o o' [] e i = ground arith
find-replace_self o o' (x ∷ xs) e i = ground (arith, find-replace_self o o' xs)

pub find-replace_ne :
    (j : ℕ) (o' : Order) (os : List Order)
    → (j == o'.id) ≡ false
    → find j (update_where (λ q. q.id == o'.id) (λ q. o') os) ≡ find j os
find-replace_ne j o' [] n = refl
find-replace_ne j o' (x ∷ xs) n = ground (arith, find-replace_ne j o' xs)

module _ {S : Type 0} (base : OrderDb) where
  pub save_order-Stored :
      (o o' : Order) (w : World S)
      → o'.id ≡ o.id
      → Stored base o w
      → Stored base o' (save_order o' w).1
  unfolding save_order
  save_order-Stored o o' w i h = record {
    found = find-replace_self o o' w.session.working.orders (ground (arith, h.clean, h.found)) i;
    clean = refl;
    others =
        λ j n. ground (arith, h.clean, h.others j, find-replace_ne j o' w.session.working.orders n);
    same_items = ground (arith, h.clean, h.same_items);
  }

  pub frame-Stored :
      (o : Order) (w w' : World S) → w'.session ≡ w.session → Stored base o w → Stored base o w'
  frame-Stored o w w' e h = record {
    found = rw e h.found;
    clean = rw e h.clean;
    others = λ j n. rw e (h.others j n);
    same_items = rw e h.same_items;
  }

-- The clients leave the database alone.
module _ {S : Type 0} (net : Remote S) where
  pub get_product-session : (k : ℕ) (w : World S) → (get_product net k w).1.session ≡ w.session
  unfolding get_product
  get_product-session k w = ground arith

  pub deduct_attempts-session :
      (left k q v : ℕ) (w : World S) → (deduct_attempts net left k q v w).1.session ≡ w.session
  unfolding deduct_attempts
  deduct_attempts-session zero k q v w = refl
  deduct_attempts-session (suc left) k q v w =
      let w' = (ask (Call.deduct k q v) (net.deduct_stock k q v) w).1 in
      elim (Result-cases (get_product net k w').0) [
        | inl (fresh, e) ↦ ground (
          arith,
          get_product-session k w',
          deduct_attempts-session left k q fresh.version (get_product net k w').1,
        )
        | inr (x, e) ↦ ground (arith, get_product-session k w')
      ]

  pub restore_all-session :
      (ds : List (ℕ × ℕ)) (b : Bool) (w : World S) → (restore_all net ds b w).1.session ≡ w.session
  unfolding restore_all restore_stock
  restore_all-session [] b w = refl
  restore_all-session ((k, q) ∷ ds) b w =
      let r = judge_restore (net.restore_stock k q w.remote).0 in
      restore_all-session ds (b && r) (restore_stock net k q w).1

  pub request_payment-session :
      (o : ℕ) (u : ℤ) (a : ℕ) (w : World S) → (request_payment net o u a w).1.session ≡ w.session
  unfolding request_payment
  request_payment-session o u a w = refl
