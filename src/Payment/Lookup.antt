-- ===== src/Payment/Lookup.antt =====
-- Tables of payments with distinct keys, and sums of refunds.
use micro_mart.Shared.{
  ℕ, ◌+◌, ◌≡◌, refl, ◌≢◌, ◌<◌, ◌⊎◌, inl, inr, Bool, false, ◌&&◌, none, some, List, [], ◌∷◌, ◌++◌,
  arith, ◌==◌, Bool-cases, first_where, update_where, if◌then◌else◌, All,
}
use micro_mart.Payment.Table.{Payment, Refund, find, is_completed}
use micro_mart.Payment.Refunds.{already_refunded}

module _ (key : Payment → ℕ) where
  abbrev pub DistinctBy : List Payment → Type 0
  DistinctBy [] = Unit
  DistinctBy (p ∷ ps) = (first_where (λ q. key q == key p) ps ≡ none) × DistinctBy ps

  pub append-DistinctBy :
      (ps : List Payment) (p : Payment)
      → first_where (λ q. key q == key p) ps ≡ none
      → DistinctBy ps
      → DistinctBy (ps ++ p ∷ [])
  append-DistinctBy [] p f d = (refl, tt)
  append-DistinctBy (x ∷ xs) p f d =
      (new_tail x xs (ground arith) d.0, append-DistinctBy xs p (ground arith) d.1)
    where
      new_tail :
          (x : Payment) (xs : List Payment)
          → (key p == key x) ≡ false
          → first_where (λ q. key q == key x) xs ≡ none
          → first_where (λ q. key q == key x) (xs ++ p ∷ []) ≡ none
      new_tail x [] n e = ground arith
      new_tail x (y ∷ ys) n e = ground (arith, new_tail x ys n)

  pub update-DistinctBy :
      (t : Payment → Bool) (f : Payment → Payment) (ps : List Payment)
      → ((p : Payment) → key (f p) ≡ key p)
      → DistinctBy ps
      → DistinctBy (update_where t f ps)
  update-DistinctBy t f [] h d = tt
  update-DistinctBy t f (x ∷ xs) h d =
      (ground (arith, h x, same_first (key x) xs), update-DistinctBy t f xs h d.1)
    where
      same_first :
          (k : ℕ) (xs : List Payment)
          → first_where (λ q. key q == k) xs ≡ none
          → first_where (λ q. key q == k) (update_where t f xs) ≡ none
      same_first k [] e = refl
      same_first k (y ∷ ys) e = ground (arith, h y, same_first k ys)

pub update_last :
    (n : ℕ) (f : Payment → Payment) (ps : List Payment) (p : Payment)
    → All (λ q. q.id < n) ps
    → p.id ≡ n
    → update_where (λ q. q.id == n) f (ps ++ p ∷ []) ≡ ps ++ f p ∷ []
update_last n f [] p a e = ground arith
update_last n f (x ∷ xs) p a e = ground (arith, update_last n f xs p a.1 e)

pub find-fresh : (n : ℕ) (ps : List Payment) → All (λ q. q.id < n) ps → find n ps ≡ none
find-fresh n [] a = refl
find-fresh n (x ∷ xs) a = ground (arith, find-fresh n xs a.1)

-- A row with the id of the row that was found is that row.
pub found_unique :
    (k : ℕ) (ps : List Payment) (p : Payment)
    → DistinctBy (λ q. q.id) ps
    → find k ps ≡ some p
    → All (λ x. (x.id ≢ k) ⊎ (x ≡ p)) ps
found_unique k [] p d e = tt
found_unique k (x ∷ xs) p d e = elim (Bool-cases (x.id == k)) [
  | inl same ↦ (ground arith, absent xs (ground arith))
  | inr other ↦ (ground arith, found_unique k xs p d.1 (ground arith))
]
  where
    absent : (xs : List Payment) → find k xs ≡ none → All (λ x. (x.id ≢ k) ⊎ (x ≡ p)) xs
    absent [] e = tt
    absent (y ∷ ys) e = (ground arith, absent ys (ground arith))

pub already_refunded-append :
    (k : ℕ) (rs : List Refund) (r : Refund)
    → already_refunded k (rs ++ r ∷ [])
      ≡ already_refunded k rs + (if r.payment_id == k && is_completed r.status then r.amount else 0)
already_refunded-append k [] r = ground arith
already_refunded-append k (x ∷ xs) r = ground (arith, already_refunded-append k xs r)

pub already_refunded-fresh :
    (n : ℕ) (rs : List Refund) → All (λ r. r.payment_id < n) rs → already_refunded n rs ≡ 0
already_refunded-fresh n [] a = refl
already_refunded-fresh n (x ∷ xs) a = ground (arith, already_refunded-fresh n xs a.1)

pub found_id : (k : ℕ) (ps : List Payment) (p : Payment) → find k ps ≡ some p → p.id ≡ k
found_id k [] p e = ground arith
found_id k (x ∷ xs) p e = ground (arith, found_id k xs p)

pub found_All :
    (P : Payment → Type 0) (k : ℕ) (ps : List Payment) (p : Payment)
    → All P ps
    → find k ps ≡ some p
    → P p
found_All P k [] p a e = ground arith
found_All P k (x ∷ xs) p a e = ground (arith, found_All P k xs p a.1)
