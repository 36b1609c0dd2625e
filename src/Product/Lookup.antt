-- ===== src/Product/Lookup.antt =====
-- How `find` sees a table whose ids are distinct.
use micro_mart.Shared.{
  ℕ, ◌≡◌, refl, ◌≢◌, ◌<◌, Bool, true, false, Option, none, some, List, [], ◌∷◌, ◌++◌, arith, ◌==◌,
  ==_iff, Bool-cases, inl, inr, first_where, update_where, if◌then◌else◌, All,
}
use micro_mart.Product.Table.{Product, find}

abbrev pub Unique : List Product → Type 0
Unique [] = Unit
Unique (p ∷ ps) = (find p.id ps ≡ none) × Unique ps

-- What a test leaves of a row that was found.
abbrev pub guarded : (Product → Bool) → Option Product → Option Product
guarded t none = none
guarded t (some p) = if t p then some p else none

-- What an UPDATE makes of a row that was found.
abbrev pub rewritten : (Product → Bool) → (Product → Product) → Option Product → Option Product
rewritten t f none = none
rewritten t f (some p) = some (if t p then f p else p)

pub first_where-eq-guarded :
    (k : ℕ) (t : Product → Bool) (ps : List Product)
    → ((p : Product) → t p ≡ true → p.id ≡ k)
    → Unique ps
    → first_where t ps ≡ guarded t (find k ps)
first_where-eq-guarded k t [] h u = refl
first_where-eq-guarded k t (x ∷ xs) h u = ground (arith, h x, first_where-eq-guarded k t xs h u.1)

pub find-update_where :
    (k : ℕ) (t : Product → Bool) (f : Product → Product) (ps : List Product)
    → ((p : Product) → (f p).id ≡ p.id)
    → find k (update_where t f ps) ≡ rewritten t f (find k ps)
find-update_where k t f [] h = refl
find-update_where k t f (x ∷ xs) h = ground (arith, h x, find-update_where k t f xs h)

pub update_where-Unique :
    (t : Product → Bool) (f : Product → Product) (ps : List Product)
    → ((p : Product) → (f p).id ≡ p.id)
    → Unique ps
    → Unique (update_where t f ps)
update_where-Unique t f [] h u = tt
update_where-Unique t f (x ∷ xs) h u = (
  ground (arith, h x, find-update_where (if t x then f x else x).id t f xs h),
  update_where-Unique t f xs h u.1,
)

pub update_where-All :
    (P : Product → Type 0) (t : Product → Bool) (f : Product → Product) (ps : List Product)
    → ((p : Product) → P p → t p ≡ true → P (f p))
    → All P ps
    → All P (update_where t f ps)
update_where-All P t f [] h a = tt
update_where-All P t f (x ∷ xs) h a = (pick (t x) refl, update_where-All P t f xs h a.1)
  where
    pick : (b : Bool) → t x ≡ b → P (if b then f x else x)
    pick true e = h x a.0 e
    pick false e = a.0

-- The id of a row that was found is the one asked for.
pub find-id : (k : ℕ) (ps : List Product) (p : Product) → find k ps ≡ some p → p.id ≡ k
find-id k [] p e = ground arith
find-id k (x ∷ xs) p e = ground (arith, find-id k xs p)

pub find-All :
    (P : Product → Type 0) (k : ℕ) (ps : List Product) (p : Product)
    → All P ps
    → find k ps ≡ some p
    → P p
find-All P k [] p a e = ground arith
find-All P k (x ∷ xs) p a e = ground (arith, find-All P k xs p a.1)

pub find-fresh : (k : ℕ) (ps : List Product) → All (λ p. p.id < k) ps → find k ps ≡ none
find-fresh k [] a = refl
find-fresh k (x ∷ xs) a = ground (arith, find-fresh k xs a.1)

pub find-append_new :
    (k : ℕ) (ps : List Product) (q : Product)
    → find k (ps ++ q ∷ [])
      ≡ elim (find k ps) [ none ↦ if q.id == k then some q else none | some p ↦ some p ]
find-append_new k [] q = refl
find-append_new k (x ∷ xs) q = ground (arith, find-append_new k xs q)

pub append_new-Unique :
    (ps : List Product) (q : Product)
    → All (λ p. p.id < q.id) ps
    → Unique ps
    → Unique (ps ++ q ∷ [])
append_new-Unique [] q a u = (refl, tt)
append_new-Unique (x ∷ xs) q a u =
    (ground (arith, find-append_new x.id xs q), append_new-Unique xs q a.1 u.1)

-- An UPDATE whose test names the id `k` leaves the other ids alone.
pub find-update_where_ne :
    (k j : ℕ) (t : Product → Bool) (f : Product → Product) (ps : List Product)
    → ((p : Product) → t p ≡ true → p.id ≡ k)
    → ((p : Product) → (f p).id ≡ p.id)
    → j ≢ k
    → find j (update_where t f ps) ≡ find j ps
find-update_where_ne k j t f [] h i n = refl
find-update_where_ne k j t f (x ∷ xs) h i n =
    ground (arith, h x, i x, find-update_where_ne k j t f xs h i n)

pub find-update_at :
    (k j : ℕ) (t : Product → Bool) (f : Product → Product) (ps : List Product) (p : Product)
    → ((p : Product) → t p ≡ true → p.id ≡ k)
    → ((p : Product) → (f p).id ≡ p.id)
    → find k ps ≡ some p
    → find j (update_where t f ps) ≡ (if j == k then some (if t p then f p else p) else find j ps)
find-update_at k j t f ps p h i e = elim (Bool-cases (j == k)) [
  | inl same ↦ rw (same, (==_iff j k).0 same, find-update_where k t f ps i, e, rewritten) refl
  | inr other ↦ ground (arith, find-update_where_ne k j t f ps h i)
]
