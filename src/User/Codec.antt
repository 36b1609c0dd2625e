-- ===== src/User/Codec.antt =====
-- The keys and values of Redis as texts (services/user-service/app/auth.py): what
-- `_refresh_token_key` and the pipelines write, and how `get_user_id_from_refresh_token` and the scan of
-- `revoke_all_refresh_tokens` read it. Tokens is about what they stand for.
use micro_mart.Shared.{
  ℕ, ◌≡◌, ◌↔◌, refl, ap, ◌∙◌, false, Option, none, some, [], ◌∷◌, ◌++◌, ◌==◌, Result, ok, err,
  if◌then◌else◌, arith, drop, ==_iff, Bool-cases, inl, inr,
}
use micro_mart.Shared.Texts.{Text, codes, same, same_law, starts_with, span_until}
use micro_mart.Shared.Decimal.{str, int, IsDigits, str-IsDigits, int-str}

abbrev pub colon : ℕ
colon = 58

-- f"refresh:user:{user_id}:", what the pattern of the scan has before its star.
abbrev pub user_prefix : ℕ → Text
user_prefix user_id = codes "refresh:user:" ++ (str user_id ++ colon ∷ [])

-- f"refresh:user:{user_id}:{device}"
unfoldable pub refresh_token_key : ℕ → Text → Text
refresh_token_key user_id device = codes "refresh:user:" ++ (str user_id ++ (colon ∷ device))

-- f"{user_id}:{device}" and f"REVOKED:{user_id}:{device}"
abbrev pub live_value : ℕ → Text → Text
live_value user_id device = str user_id ++ (colon ∷ device)

abbrev pub revoked_value : ℕ → Text → Text
revoked_value user_id device = codes "REVOKED:" ++ live_value user_id device

-- `text.split(":", 1)`, none where there are not two parts.
abbrev pub split_colon : Text → Option (Text × Text)
split_colon s =
    let parts = span_until (λ c. c == colon) s in
    elim parts.1 [ [] ↦ none | c ∷ rest ↦ some (parts.0, rest) ]

-- `int(user_id_str), device`, none for a ValueError.
abbrev pub read_owner : Option (Text × Text) → Option (ℕ × Text)
read_owner none = none
read_owner (some (user_id_str, device)) = elim (int user_id_str) [
  | none ↦ none
  | some user_id ↦ some (user_id, device)
]

-- `_, user_id_str, _ = value.split(":", 2)`: the second part, if there are three.
abbrev pub read_revoked : Option (Text × Text) → Option ℕ
read_revoked none = none
read_revoked (some (first, rest)) = elim (read_owner (split_colon rest)) [
  | none ↦ none
  | some owner ↦ some owner.0
]

abbrev pub raised : Option ℕ → Option (Result ℕ (ℕ × Text))
raised none = none
raised (some user_id) = some (err user_id)

abbrev pub returned : Option (ℕ × Text) → Option (Result ℕ (ℕ × Text))
returned none = none
returned (some owner) = some (ok owner)

-- What a value says: a TokenReusedException of a user, or an owner; none for a ValueError.
unfoldable pub read_value : Text → Option (Result ℕ (ℕ × Text))
read_value value =
    if starts_with value (codes "REVOKED:")
    then raised (read_revoked (split_colon value))
    else returned (read_owner (split_colon value))

-- Digits have no colon.
span_until-digits :
    (s rest : Text)
    → IsDigits s
    → span_until (λ c. c == colon) (s ++ (colon ∷ rest)) ≡ (s, colon ∷ rest)
span_until-digits [] rest d = refl
span_until-digits (c ∷ s) rest d = ground (arith, span_until-digits s rest d.1, d.0)

split_colon-digits :
    (s rest : Text) → IsDigits s → split_colon (s ++ (colon ∷ rest)) ≡ some (s, rest)
split_colon-digits s rest d = ground (arith, span_until-digits s rest d)

starts_with-live_value :
    (s rest : Text) → IsDigits s → starts_with (s ++ (colon ∷ rest)) (codes "REVOKED:") ≡ false
starts_with-live_value [] rest d = refl
starts_with-live_value (c ∷ s) rest d = ground (arith, d.0)

-- What is written for a live token is read as its owner, and what is written for a tombstone as the
-- reuse of a token of that user, whatever the device's name is.
pub read_value-live_value :
    (user_id : ℕ) (device : Text)
    → (read_value (live_value user_id device) ≡ some (ok (user_id, device)))
      × (read_value (revoked_value user_id device) ≡ some (err user_id))
unfolding read_value
read_value-live_value user_id device = (
  ground (
    arith,
    starts_with-live_value (str user_id) device (str-IsDigits user_id),
    split_colon-digits (str user_id) device (str-IsDigits user_id),
    int-str user_id,
  ),
  ground (arith, split_colon-digits (str user_id) device (str-IsDigits user_id), int-str user_id),
)

starts_with_digits :
    (s t rest : Text)
    → IsDigits s
    → IsDigits t
    → starts_with (s ++ (colon ∷ rest)) (t ++ colon ∷ []) ≡ same s t
starts_with_digits [] [] rest d e = refl
starts_with_digits [] (b ∷ t) rest d e = ground (arith, e.0)
starts_with_digits (a ∷ s) [] rest d e = ground (arith, d.0)
starts_with_digits (a ∷ s) (b ∷ t) rest d e = ground (arith, starts_with_digits s t rest d.1 e.1)

same-str : (i j : ℕ) → same (str i) (str j) ≡ (i == j)
same-str i j = elim (Bool-cases (i == j)) [
  | inl e ↦ ground (arith, same_law (str i) (str j), ap str ((==_iff i j).0 e))
  | inr e ↦
      ground (arith, same_law (str i) (str j), int-str i, int-str j, ap int {x = str i} {y = str j})
]

read_owner-live_value :
    (user_id : ℕ) (device : Text)
    → read_owner (split_colon (live_value user_id device)) ≡ some (user_id, device)
read_owner-live_value user_id device =
    ground (arith, split_colon-digits (str user_id) device (str-IsDigits user_id), int-str user_id)

-- The key of a session starts as a user's pattern does if and only if it is a session of that user, and
-- two sessions have one key only if they are of one user and one device.
pub refresh_token_key-user_prefix :
    (i j : ℕ) (d e : Text)
    → (starts_with (refresh_token_key j d) (user_prefix i) ≡ (j == i))
      × ((refresh_token_key i d ≡ refresh_token_key j e) ↔ ((i ≡ j) × (d ≡ e)))
unfolding refresh_token_key
refresh_token_key-user_prefix i j d e = (
  starts_with_digits (str j) (str i) d (str-IsDigits j) (str-IsDigits i) ∙ same-str j i,
  (
    λ p. ground (
      arith,
      ap (λ t. read_owner (split_colon (drop 13 t))) p,
      read_owner-live_value i d,
      read_owner-live_value j e,
    ),
    λ (p, q).
        ap (λ k. codes "refresh:user:" ++ live_value k d) p
        ∙ ap (λ x. codes "refresh:user:" ++ live_value j x) q,
  ),
)
