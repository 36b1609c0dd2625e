-- ===== src/User/Jwks.antt =====
-- The public key as user-service gives it (`get_jwks_service`,
-- services/user-service/app/services/auth_service.py): numbers as big-endian bytes in base64url without
-- padding. A character of base64url stands for its index, 0 to 63.
use Prim.Native.Nat.{◌/◌, ◌%◌}
use micro_mart.Shared.{
  ℕ, zero, suc, ◌+◌, ◌-◌, ◌*◌, ◌≤◌, ◌<◌, ◌≡◌, refl, ap, String, Option, none, some, List, [], ◌∷◌,
  ◌++◌, ◌==◌, if◌then◌else◌, arith, All, All-append, length, length-append, Bool-cases, inl, inr,
}

-- `n.bit_length()`, on fuel; the number and one more are enough.
unfoldable pub bits : ℕ → ℕ → ℕ
bits zero n = 0
bits (suc fuel) n = let rest = bits fuel (n / 2) in if n == 0 then 0 else suc rest

abbrev pub bit_length : ℕ → ℕ
bit_length n = bits (suc n) n

abbrev pub byte_length : ℕ → ℕ
byte_length n = (bit_length n + 7) / 8

abbrev pub with_last : ℕ → Option (List ℕ) → Option (List ℕ)
with_last b none = none
with_last b (some front) = some (front ++ b ∷ [])

-- `n.to_bytes(length, "big")`, none for an OverflowError.
unfoldable pub to_bytes : ℕ → ℕ → Option (List ℕ)
to_bytes zero n = if n == 0 then some [] else none
to_bytes (suc length) n = with_last (n % 256) (to_bytes length (n / 256))

-- `urlsafe_b64encode(...).rstrip(b"=")`
unfoldable pub base64url : List ℕ → List ℕ
base64url [] = []
base64url (a ∷ []) = (a / 4) ∷ (a % 4 * 16) ∷ []
base64url (a ∷ b ∷ []) = (a / 4) ∷ (a % 4 * 16 + b / 16) ∷ (b % 16 * 4) ∷ []
base64url (a ∷ b ∷ c ∷ rest) =
    let tail = base64url rest in
    (a / 4) ∷ (a % 4 * 16 + b / 16) ∷ (b % 16 * 4 + c / 64) ∷ (c % 64) ∷ tail

-- `_int_to_base64url`
abbrev pub encoded : Option (List ℕ) → Option (List ℕ)
encoded none = none
encoded (some bytes) = some (base64url bytes)

unfoldable pub int_to_base64url : ℕ → Option (List ℕ)
int_to_base64url n = encoded (to_bytes (byte_length n) n)

-- A public key: RSA with its numbers, or of another kind.
pub data PublicKey : Type 0 where
  rsa : ℕ → ℕ → PublicKey
  other : PublicKey

-- One entry of the answer; kty, use and alg are constants, left out.
pub record Jwk : Type 0 where
  pub kid : String
  pub n : List ℕ
  pub e : List ℕ

-- None for an exception: the RuntimeError for a key that is not RSA, an OverflowError.
unfoldable pub get_jwks_service : PublicKey → Option (List Jwk)
get_jwks_service other = none
get_jwks_service (rsa n e) = elim (int_to_base64url n) [
  | none ↦ none
  | some n' ↦ elim (int_to_base64url e) [
    | none ↦ none
    | some e' ↦ some (record { kid = "micromart-key-1"; n = n'; e = e' } ∷ [])
  ]
]

-- What a reader makes of it.
unfoldable pub base64url_decode : List ℕ → List ℕ
base64url_decode (p ∷ q ∷ []) = (p * 4 + q / 16) ∷ []
base64url_decode (p ∷ q ∷ r ∷ []) = (p * 4 + q / 16) ∷ (q % 16 * 16 + r / 4) ∷ []
base64url_decode (p ∷ q ∷ r ∷ s ∷ rest) =
    let tail = base64url_decode rest in
    (p * 4 + q / 16) ∷ (q % 16 * 16 + r / 4) ∷ (r % 4 * 64 + s) ∷ tail
base64url_decode _ = []

unfoldable pub from_bytes : ℕ → List ℕ → ℕ
from_bytes n [] = n
from_bytes n (b ∷ bs) = from_bytes (n * 256 + b) bs

from_bytes-append :
    (n : ℕ) (bs : List ℕ) (b : ℕ) → from_bytes n (bs ++ b ∷ []) ≡ from_bytes n bs * 256 + b
unfolding from_bytes
from_bytes-append n [] b = refl
from_bytes-append n (c ∷ bs) b = from_bytes-append (n * 256 + c) bs b

abbrev pub AreBytes : List ℕ → Type 0
AreBytes = All (λ b. b < 256)

-- Enough fuel gives the bit length, and halving takes one bit.
bits-enough : (f g n : ℕ) → n < f → n < g → bits f n ≡ bits g n
unfolding bits
bits-enough zero g n l m = absurd (omega arith)
bits-enough (suc f) zero n l m = absurd (omega arith)
bits-enough (suc f) (suc g) n l m = elim (Bool-cases (n == 0)) [
  | inl e ↦ ground arith
  | inr e ↦
      let big : 0 < n = ground arith in
      ground (arith, bits-enough f g (n / 2) (omega arith) (omega arith))
]

half : (n : ℕ) → bit_length (n / 2) ≡ bit_length n - 1
unfolding bits
half n = elim (Bool-cases (n == 0)) [
  | inl e ↦ ground arith
  | inr e ↦
      let big : 0 < n = ground arith in
      ground (arith, bits-enough (suc (n / 2)) n (n / 2) (omega arith) (omega arith))
]

first_byte : (a b : ℕ) → b < 256 → a / 4 * 4 + (a % 4 * 16 + b / 16) / 16 ≡ a
first_byte a b l = omega arith

second_byte :
    (a b c : ℕ)
    → b < 256
    → c < 256
    → (a % 4 * 16 + b / 16) % 16 * 16 + (b % 16 * 4 + c / 64) / 4 ≡ b
second_byte a b c l m = omega arith

third_byte : (b c : ℕ) → c < 256 → (b % 16 * 4 + c / 64) % 4 * 64 + c % 64 ≡ c
third_byte b c l = omega arith

base64url_decode-base64url : (bs : List ℕ) → AreBytes bs → base64url_decode (base64url bs) ≡ bs
unfolding base64url base64url_decode
base64url_decode-base64url [] d = refl
base64url_decode-base64url (a ∷ []) d = ground (arith, first_byte a 0)
base64url_decode-base64url (a ∷ b ∷ []) d =
    ground (arith, first_byte a b d.1.0, second_byte a b 0 d.1.0)
base64url_decode-base64url (a ∷ b ∷ c ∷ rest) d = ground (
  arith,
  first_byte a b d.1.0,
  second_byte a b c d.1.0 d.1.1.0,
  third_byte b c d.1.1.0,
  base64url_decode-base64url rest d.1.1.1,
)

quarter : (n : ℕ) → bit_length (n / 4) ≡ bit_length n - 2
quarter n =
    let e : n / 2 / 2 ≡ n / 4 = omega arith in omega (arith, half n, half (n / 2), ap bit_length e)

sixteenth : (n : ℕ) → bit_length (n / 16) ≡ bit_length n - 4
sixteenth n =
    let e : n / 4 / 4 ≡ n / 16 = omega arith in
    omega (arith, quarter n, quarter (n / 4), ap bit_length e)

last_byte : (n : ℕ) → bit_length (n / 256) ≡ bit_length n - 8
last_byte n =
    let e : n / 16 / 16 ≡ n / 256 = omega arith in
    omega (arith, sixteenth n, sixteenth (n / 16), ap bit_length e)

no_bits : (n : ℕ) → bit_length n ≡ 0 → n ≡ 0
unfolding bits
no_bits n e = ground arith

-- Where the bits fit, the bytes are there.
to_bytes-from_bytes :
    (k n : ℕ)
    → bit_length n ≤ 8 * k
    → (bs : List ℕ) × (to_bytes k n ≡ some bs)
      × (from_bytes 0 bs ≡ n)
      × AreBytes bs
      × (length bs ≡ k)
unfolding to_bytes from_bytes
to_bytes-from_bytes zero n l =
    let z = no_bits n (omega arith) in ([], ground arith, omega arith, tt, refl)
to_bytes-from_bytes (suc k) n l =
    let (bs, e, v, d, m) = to_bytes-from_bytes k (n / 256) (omega (arith, last_byte n)) in
    let whole : n / 256 * 256 + n % 256 ≡ n = omega arith in
    (
      bs ++ (n % 256) ∷ [],
      ground arith,
      ground (arith, whole, from_bytes-append 0 bs (n % 256)),
      All-append (λ b. b < 256) bs ((n % 256) ∷ []) d (omega arith, tt),
      omega (arith, length-append bs ((n % 256) ∷ [])),
    )

-- `int_to_base64url` never overflows, and what it writes is read as the number.
pub int_to_base64url-from_bytes :
    (n : ℕ)
    → (cs : List ℕ) × (int_to_base64url n ≡ some cs) × (from_bytes 0 (base64url_decode cs) ≡ n)
unfolding int_to_base64url
int_to_base64url-from_bytes n =
    let (bs, e, v, d, m) = to_bytes-from_bytes (byte_length n) n (omega arith) in
    (base64url bs, ground arith, ground (arith, base64url_decode-base64url bs d))

-- The number that a text of base64url stands for.
abbrev pub number : List ℕ → ℕ
number cs = from_bytes 0 (base64url_decode cs)

-- The numbers of an RSA key come through.
pub get_jwks_service-number :
    (n e : ℕ)
    → (j : Jwk) × (get_jwks_service (rsa n e) ≡ some (j ∷ []))
      × (j.kid ≡ "micromart-key-1")
      × (number j.n ≡ n)
      × (number j.e ≡ e)
unfolding get_jwks_service
get_jwks_service-number n e =
    let (n', p, q) = int_to_base64url-from_bytes n in
    let (e', r, s) = int_to_base64url-from_bytes e in
    (record { kid = "micromart-key-1"; n = n'; e = e' }, ground arith, refl, q, s)
