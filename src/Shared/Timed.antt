-- ===== src/Shared/Timed.antt =====
-- A dictionary whose entries expire, as Redis keeps them: `setex`, `get`, `ttl` and `delete`. An entry
-- holds until its deadline. Keys are compared by a Boolean test that decides their equality.
use micro_mart.Shared.{
  ℕ, ◌+◌, ◌-◌, ◌≤◌, ◌<◌, ◌≡◌, ap, ◌↔◌, Bool, true, not, Option, none, some, List, [], ◌∷◌, ltb,
  keep_if, if◌then◌else◌, arith, Bool-cases, inl, inr,
}

abbrev pub Timed : Type 0 → Type 0 → Type 0
Timed K V = List (K × V × ℕ)

module _ {K V : Type 0} (eq : K → K → Bool) where
  abbrev pub find : K → Timed K V → Option (V × ℕ)
  find k [] = none
  find k ((j, v, deadline) ∷ d) = if eq k j then some (v, deadline) else find k d

  abbrev pub delete : K → Timed K V → Timed K V
  delete k = keep_if (λ e. not (eq k e.0))

  abbrev pub setex : ℕ → K → ℕ → V → Timed K V → Timed K V
  setex now k ttl v d = (k, v, now + ttl) ∷ delete k d

abbrev pub alive : {V : Type 0} → ℕ → Option (V × ℕ) → Option (V × ℕ)
alive now none = none
alive now (some (v, deadline)) = if ltb now deadline then some (v, deadline) else none

abbrev pub value : {V : Type 0} → Option (V × ℕ) → Option V
value none = none
value (some (v, deadline)) = some v

module _ {K V : Type 0} (eq : K → K → Bool) where
  -- The entry and its deadline, unless it has expired.
  unfoldable pub look : ℕ → K → Timed K V → Option (V × ℕ)
  look now k d = alive now (find eq k d)

  abbrev pub get : ℕ → K → Timed K V → Option V
  get now k d = value (look now k d)

  -- The seconds left, 0 where Redis says that there is no such key.
  abbrev pub ttl : ℕ → K → Timed K V → ℕ
  ttl now k d = elim (look now k d) [ none ↦ 0 | some (v, deadline) ↦ deadline - now ]

module _ {K V : Type 0} (eq : K → K → Bool) (law : (a b : K) → (eq a b ≡ true) ↔ (a ≡ b)) where
  find-keep_if :
      (p : K → Bool) (j : K) (d : Timed K V)
      → find eq j (keep_if (λ e. p e.0) d) ≡ (if p j then find eq j d else none)
  find-keep_if p j [] = ground arith
  find-keep_if p j ((i, v, deadline) ∷ d) = elim (Bool-cases (eq j i)) [
    | inl e ↦ ground (arith, ap p ((law j i).0 e), find-keep_if p j d)
    | inr e ↦ ground (arith, find-keep_if p j d)
  ]

  pub look-keep_if :
      (now : ℕ) (p : K → Bool) (j : K) (d : Timed K V)
      → look eq now j (keep_if (λ e. p e.0) d) ≡ (if p j then look eq now j d else none)
  unfolding look
  look-keep_if now p j d = ground (arith, find-keep_if p j d)

  pub look-delete :
      (now : ℕ) (j k : K) (d : Timed K V)
      → look eq now j (delete eq k d) ≡ (if eq k j then none else look eq now j d)
  look-delete now j k d = ground (arith, look-keep_if now (λ i. not (eq k i)) j d)

  pub look-setex :
      (later now : ℕ) (j k : K) (seconds : ℕ) (v : V) (d : Timed K V)
      → look eq later j (setex eq now k seconds v d)
        ≡ (if eq k j then alive later (some (v, now + seconds)) else look eq later j d)
  unfolding look
  look-setex later now j k seconds v d =
      ground (arith, law k j, law j k, find-keep_if (λ i. not (eq k i)) j d)

-- What is there later was there before, with the same deadline.
pub look_earlier :
    {K V : Type 0} (eq : K → K → Bool) (now later : ℕ) (k : K) (d : Timed K V) (v : V)
    (deadline : ℕ)
    → now ≤ later
    → look eq later k d ≡ some (v, deadline)
    → (look eq now k d ≡ some (v, deadline)) × (later < deadline)
unfolding look
look_earlier eq now later k d v deadline l e = (ground arith, ground arith)

-- And what is there stays until its deadline.
pub look_later :
    {K V : Type 0} (eq : K → K → Bool) (now later : ℕ) (k : K) (d : Timed K V) (v : V)
    (deadline : ℕ)
    → look eq now k d ≡ some (v, deadline)
    → later < deadline
    → look eq later k d ≡ some (v, deadline)
unfolding look
look_later eq now later k d v deadline e l = ground arith

pub look_alive :
    {K V : Type 0} (eq : K → K → Bool) (now : ℕ) (k : K) (d : Timed K V) (v : V) (deadline : ℕ)
    → look eq now k d ≡ some (v, deadline)
    → now < deadline
unfolding look
look_alive eq now k d v deadline e = ground arith

pub look_missing :
    {K V : Type 0} (eq : K → K → Bool) (now : ℕ) (k : K) (d : Timed K V)
    → find eq k d ≡ none
    → look eq now k d ≡ none
unfolding look
look_missing eq now k d e = ground arith

pub look_gone :
    {K V : Type 0} (eq : K → K → Bool) (now later : ℕ) (k : K) (d : Timed K V)
    → now ≤ later
    → look eq now k d ≡ none
    → look eq later k d ≡ none
unfolding look
look_gone eq now later k d l e = ground arith
