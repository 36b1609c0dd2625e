-- ===== src/Shared/Decimal.antt =====
-- Python's `str` and `int` on numbers, as code points: the decimal digits, and their value.
use Prim.Native.Nat.{◌/◌, ◌%◌}
use micro_mart.Shared.{
  ℕ, zero, suc, ◌+◌, ◌-◌, ◌*◌, ◌≤◌, ◌<◌, ◌≡◌, refl, ◌∙◌, Bool, true, false, ◌&&◌, Option, none,
  some, [], ◌∷◌, ◌++◌, ltb, leb, if◌then◌else◌, arith, All, All-append, Bool-cases, inl, inr,
}
use micro_mart.Shared.Texts.{Text}

-- On fuel; the number and one more are enough.
unfoldable pub digits : ℕ → ℕ → Text
digits zero n = []
digits (suc fuel) n =
    let front = digits fuel (n / 10) in
    if ltb n 10 then (48 + n) ∷ [] else front ++ (48 + n % 10) ∷ []

abbrev pub str : ℕ → Text
str n = digits (suc n) n

abbrev pub is_digit : ℕ → Bool
is_digit c = leb 48 c && leb c 57

-- `int(text)`, none for a ValueError; signs and spaces, which `str` does not write, are left out.
unfoldable pub int_from : ℕ → Text → Option ℕ
int_from n [] = some n
int_from n (c ∷ s) = let rest = int_from (n * 10 + (c - 48)) s in if is_digit c then rest else none

abbrev pub int : Text → Option ℕ
int [] = none
int (c ∷ s) = int_from 0 (c ∷ s)

abbrev pub IsDigits : Text → Type 0
IsDigits = All (λ c. is_digit c ≡ true)

int_from-append :
    (n m d : ℕ) (s : Text)
    → int_from n s ≡ some m
    → d < 10
    → int_from n (s ++ (48 + d) ∷ []) ≡ some (m * 10 + d)
unfolding int_from
int_from-append n m d [] e l = ground arith
int_from-append n m d (c ∷ s) e l = ground (arith, int_from-append (n * 10 + (c - 48)) m d s)

tenth : (n : ℕ) → (n / 10) * 10 + n % 10 ≡ n
tenth n = omega arith

int_from-digits : (fuel n : ℕ) → n < fuel → int_from 0 (digits fuel n) ≡ some n
unfolding digits int_from
int_from-digits zero n l = absurd (omega arith)
int_from-digits (suc fuel) n l = elim (Bool-cases (ltb n 10)) [
  | inl e ↦ ground arith
  | inr e ↦
      let big : 10 ≤ n = ground arith in
      let front =
        int_from-append 0 (n / 10) (n % 10) (digits fuel (n / 10))
          (int_from-digits fuel (n / 10) (omega arith)) (omega arith) in
      ground (arith, front, tenth n)
]

if-IsDigits :
    (b : Bool) (s t : Text) → (b ≡ true → IsDigits s) → IsDigits t → IsDigits (if b then s else t)
if-IsDigits true s t d e = d refl
if-IsDigits false s t d e = e

digits-IsDigits : (fuel n : ℕ) → IsDigits (digits fuel n)
unfolding digits
digits-IsDigits zero n = tt
digits-IsDigits (suc fuel) n =
    let front =
      All-append (λ c. is_digit c ≡ true) (digits fuel (n / 10)) ((48 + n % 10) ∷ [])
        (digits-IsDigits fuel (n / 10)) (ground arith, tt) in
    if-IsDigits (ltb n 10) ((48 + n) ∷ []) (digits fuel (n / 10) ++ (48 + n % 10) ∷ [])
      (λ e. (ground arith, tt)) front

pub str-IsDigits : (n : ℕ) → IsDigits (str n)
str-IsDigits n = digits-IsDigits (suc n) n

abbrev pub is_empty : Text → Bool
is_empty [] = true
is_empty (c ∷ s) = false

is_empty-append : (s : Text) (c : ℕ) → is_empty (s ++ c ∷ []) ≡ false
is_empty-append [] c = refl
is_empty-append (d ∷ s) c = refl

pub is_empty-digits : (fuel n : ℕ) → is_empty (digits (suc fuel) n) ≡ false
unfolding digits
is_empty-digits fuel n = ground (arith, is_empty-append (digits fuel (n / 10)) (48 + n % 10))

int-int_from : (s : Text) → is_empty s ≡ false → int s ≡ int_from 0 s
int-int_from [] e = absurd (ground arith)
int-int_from (c ∷ s) e = refl

-- `int` reads what `str` writes.
pub int-str : (n : ℕ) → int (str n) ≡ some n
int-str n = int-int_from (str n) (is_empty-digits n n) ∙ int_from-digits (suc n) n (omega arith)
