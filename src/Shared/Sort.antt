-- ===== src/Shared/Sort.antt =====
-- `ORDER BY key DESC`. Among equal keys the given order is kept.
use micro_mart.Shared.{
  ℕ, suc, ◌≤◌, ◌≡◌, refl, ap, ◌∙◌, sym, List, [], ◌∷◌, leb, ◌==◌, Bool-cases, false, inl, inr,
  if◌then◌else◌, arith, All, length,
}
use mathlib.Core.List.{Perm}
use mathlib.Core.List.Perm

module _ {ℓ} {A : Type ℓ} (key : A → ℕ) where
  abbrev pub insert_desc : A → List A → List A
  insert_desc a [] = a ∷ []
  insert_desc a (x ∷ xs) = if leb (key x) (key a) then a ∷ x ∷ xs else x ∷ insert_desc a xs

  abbrev pub sort_desc : List A → List A
  sort_desc [] = []
  sort_desc (x ∷ xs) = insert_desc x (sort_desc xs)

  -- Each key is at most the one before it.
  abbrev pub IsDesc : List A → Type 0
  IsDesc [] = Unit
  IsDesc (x ∷ xs) = All (λ y. key y ≤ key x) xs × IsDesc xs

module _ {ℓ} {A : Type ℓ} (key : A → ℕ) where
  insert_desc-bound :
      (a : A) (xs : List A) (n : ℕ)
      → key a ≤ n
      → All (λ y. key y ≤ n) xs
      → All (λ y. key y ≤ n) (insert_desc key a xs)
  insert_desc-bound a [] n h k = (h, tt)
  insert_desc-bound a (x ∷ xs) n h k = ground (arith, insert_desc-bound a xs n h k.1)

  All-weaken : (xs : List A) (m n : ℕ) → m ≤ n → All (λ y. key y ≤ m) xs → All (λ y. key y ≤ n) xs
  All-weaken [] m n h k = tt
  All-weaken (x ∷ xs) m n h k = (omega arith, All-weaken xs m n h k.1)

  insert_desc-IsDesc : (a : A) (xs : List A) → IsDesc key xs → IsDesc key (insert_desc key a xs)
  insert_desc-IsDesc a [] h = (tt, tt)
  insert_desc-IsDesc a (x ∷ xs) h = ground (
    arith,
    All-weaken xs (key x) (key a),
    insert_desc-bound a xs (key x),
    insert_desc-IsDesc a xs h.1,
  )

  pub sort_desc-IsDesc : (xs : List A) → IsDesc key (sort_desc key xs)
  sort_desc-IsDesc [] = tt
  sort_desc-IsDesc (x ∷ xs) = insert_desc-IsDesc x (sort_desc key xs) (sort_desc-IsDesc xs)

  length-insert_desc : (a : A) (xs : List A) → length (insert_desc key a xs) ≡ suc (length xs)
  length-insert_desc a [] = refl
  length-insert_desc a (x ∷ xs) = ground (arith, length-insert_desc a xs)

  pub length-sort_desc : (xs : List A) → length (sort_desc key xs) ≡ length xs
  length-sort_desc [] = refl
  length-sort_desc (x ∷ xs) =
      ground (arith, length-insert_desc x (sort_desc key xs), length-sort_desc xs)

module _ {ℓ} {A : Type 0} (P : A → Type ℓ) where
  insert_desc-All :
      (key : A → ℕ) (x : A) (xs : List A) → P x → All P xs → All P (insert_desc key x xs)
  insert_desc-All key x [] p h = (p, tt)
  insert_desc-All key x (y ∷ ys) p (q, h) = ground (arith, insert_desc-All key x ys p h)

  pub sort_desc-All : (key : A → ℕ) (xs : List A) → All P xs → All P (sort_desc key xs)
  sort_desc-All key [] h = tt
  sort_desc-All key (x ∷ xs) (p, h) =
      insert_desc-All key x (sort_desc key xs) p (sort_desc-All key xs h)

module _ {A : Type 0} (key : A → ℕ) where
  -- No two rows have one key.
  abbrev pub HasDistinctKeys : List A → Type 0
  HasDistinctKeys [] = Unit
  HasDistinctKeys (x ∷ xs) = All (λ y. (key y == key x) ≡ false) xs × HasDistinctKeys xs

  insert_desc-swap :
      (a b : A) (xs : List A)
      → (key b == key a) ≡ false
      → insert_desc key a (insert_desc key b xs) ≡ insert_desc key b (insert_desc key a xs)
  insert_desc-swap a b [] n = ground arith
  insert_desc-swap a b (x ∷ xs) n = ground (arith, insert_desc-swap a b xs n)

  sort_desc-insert :
      (ties : A → ℕ) (a : A) (xs : List A)
      → All (λ y. (key y == key a) ≡ false) xs
      → sort_desc key (insert_desc ties a xs) ≡ insert_desc key a (sort_desc key xs)
  sort_desc-insert ties a [] n = refl
  sort_desc-insert ties a (x ∷ xs) (n, ns) = elim (Bool-cases (leb (ties x) (ties a))) [
    | inl e ↦ rw e refl
    | inr e ↦ rw e (
        ap (insert_desc key x) (sort_desc-insert ties a xs ns)
        ∙ sym (insert_desc-swap a x (sort_desc key xs) n))
  ]

  -- Where the keys differ, an order by something else before does not matter.
  pub sort_desc-ties :
      (ties : A → ℕ) (xs : List A)
      → HasDistinctKeys xs
      → sort_desc key (sort_desc ties xs) ≡ sort_desc key xs
  sort_desc-ties ties [] d = refl
  sort_desc-ties ties (x ∷ xs) (n, d) =
      sort_desc-insert ties x (sort_desc ties xs)
        (sort_desc-All (λ y. (key y == key x) ≡ false) ties xs n)
      ∙ ap (insert_desc key x) (sort_desc-ties ties xs d)

  insert_desc-Perm : (a : A) (xs : List A) → Perm (insert_desc key a xs) (a ∷ xs)
  insert_desc-Perm a [] = Perm.refl (a ∷ [])
  insert_desc-Perm a (x ∷ xs) = elim (Bool-cases (leb (key x) (key a))) [
    | inl e ↦ rw e (Perm.refl (a ∷ x ∷ xs))
    | inr e ↦ rw e (Perm.trans (Perm.cons x (insert_desc-Perm a xs)) (Perm.swap _ _ _))
  ]

  pub sort_desc-Perm : (xs : List A) → Perm (sort_desc key xs) xs
  sort_desc-Perm [] = Perm.refl []
  sort_desc-Perm (x ∷ xs) =
      Perm.trans (insert_desc-Perm x (sort_desc key xs)) (Perm.cons x (sort_desc-Perm xs))
