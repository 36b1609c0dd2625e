-- ===== src/User/Lookups.antt =====
-- What each operation on refresh tokens (services/user-service/app/auth.py) leaves under each key of
-- the two dictionaries.
use micro_mart.Shared.{
  ℕ, ◌+◌, ◌-◌, ◌≡◌, refl, ◌↔◌, ◌⊎◌, String, str_eq, eq_iff, eq_refl, Bool, true, false, not, Option,
  none, some, [], ◌∷◌, ◌==◌, if◌then◌else◌, arith, Option-cases, Bool-cases, inl, inr,
}
use micro_mart.Shared.Timed.{
  Timed, find, look-keep_if, delete, setex, look, get, ttl, alive, look-delete, look-setex,
  look_alive, look_missing,
}
use micro_mart.User.Tokens.{
  SessionKey, session_eq, Owner, live, revoked, Redis, get_session, create_refresh_token,
  rotate_refresh_token, revoke_refresh_token, revoke_all_refresh_tokens, tombstone_ttl, Found,
  missing, reused, owned, scan_tokens, is_in,
}

abbrev pub session : ℕ → ℕ → String → Redis → Option (String × ℕ)
session now user_id device r = look session_eq now (user_id, device) r.sessions

abbrev pub owner : ℕ → String → Redis → Option (Owner × ℕ)
owner now token r = look str_eq now token r.tokens

pub session_law : (a b : SessionKey) → (session_eq a b ≡ true) ↔ (a ≡ b)
session_law (i, d) (j, e) = ground (arith, eq_iff d e)

abbrev pub holds : String → Option String → Bool
holds token none = false
holds token (some t) = str_eq t token

-- What the two dictionaries have after an operation, where the operation is at the time `now`.
module _ (longest now : ℕ) where
  pub create_session :
      (token : String) (j : ℕ) (device : String) (r : Redis) (i : ℕ) (d : String)
      → session now i d (create_refresh_token longest now token j device r) ≡ (
          if session_eq (j, device) (i, d)
          then alive now (some (token, now + longest))
          else session now i d r)
  unfolding create_refresh_token
  create_session token j device r i d = elim (Option-cases (get_session now j device r)) [
    | inl e ↦ ground (
      arith,
      look-setex session_eq session_law now now (i, d) (j, device) longest token r.sessions,
    )
    | inr (x, e) ↦ ground (
      arith,
      look-setex session_eq session_law now now (i, d) (j, device) longest token r.sessions,
    )
  ]

  pub rotate_session :
      (token : String) (j : ℕ) (device : String) (r : Redis) (i : ℕ) (d : String)
      → session now i d (rotate_refresh_token longest now token j device r) ≡ (
          if session_eq (j, device) (i, d)
          then alive now (some (token, now + longest))
          else session now i d r)
  unfolding rotate_refresh_token
  rotate_session token j device r i d = elim (Option-cases (get_session now j device r)) [
    | inl e ↦ ground (
      arith,
      look-setex session_eq session_law now now (i, d) (j, device) longest token r.sessions,
    )
    | inr (x, e) ↦ ground (
      arith,
      look-setex session_eq session_law now now (i, d) (j, device) longest token r.sessions,
    )
  ]

  pub create_owner :
      (token : String) (j : ℕ) (device : String) (r : Redis) (t : String)
      → owner now t (create_refresh_token longest now token j device r) ≡ (
          if str_eq token t
          then alive now (some (live j device, now + longest))
          else if holds t (get_session now j device r)
          then none
          else owner now t r)
  unfolding create_refresh_token
  create_owner token j device r t = elim (Option-cases (get_session now j device r)) [
    | inl e ↦
        ground (arith, look-setex str_eq eq_iff now now t token longest (live j device) r.tokens)
    | inr (x, e) ↦ ground (
      arith,
      look-setex str_eq eq_iff now now t token longest (live j device) (delete str_eq x r.tokens),
      look-delete str_eq eq_iff now t x r.tokens,
    )
  ]

  pub rotate_owner :
      (token : String) (j : ℕ) (device : String) (r : Redis) (t : String)
      → owner now t (rotate_refresh_token longest now token j device r) ≡ (
          if str_eq token t
          then alive now (some (live j device, now + longest))
          else if holds t (get_session now j device r)
          then alive now (some (revoked j device, now + tombstone_ttl longest now j device r))
          else owner now t r)
  unfolding rotate_refresh_token
  rotate_owner token j device r t = elim (Option-cases (get_session now j device r)) [
    | inl e ↦
        ground (arith, look-setex str_eq eq_iff now now t token longest (live j device) r.tokens)
    | inr (x, e) ↦ ground (
      arith,
      look-setex str_eq eq_iff now now t token longest (live j device)
          (setex str_eq now x (tombstone_ttl longest now j device r) (revoked j device) r.tokens),
      look-setex str_eq eq_iff now now t x (tombstone_ttl longest now j device r) (revoked j device)
          r.tokens,
    )
  ]

module _ (now : ℕ) where
  pub revoke_session :
      (j : ℕ) (device : String) (r : Redis) (i : ℕ) (d : String)
      → session now i d (revoke_refresh_token now j device r)
        ≡ (if session_eq (j, device) (i, d) then none else session now i d r)
  unfolding revoke_refresh_token
  revoke_session j device r i d = elim (Option-cases (session now j device r)) [
    | inl e ↦ ground (arith, session_law (j, device) (i, d))
    | inr (x, e) ↦
        ground (arith, look-delete session_eq session_law now (i, d) (j, device) r.sessions)
  ]

  pub revoke_owner :
      (j : ℕ) (device : String) (r : Redis) (t : String)
      → owner now t (revoke_refresh_token now j device r) ≡ (
          if holds t (get_session now j device r)
          then alive now (some (revoked j device, now + ttl session_eq now (j, device) r.sessions))
          else owner now t r)
  unfolding revoke_refresh_token
  revoke_owner j device r t = elim (Option-cases (session now j device r)) [
    | inl e ↦ ground arith
    | inr ((x, end), e) ↦ ground (
      arith,
      look-delete str_eq eq_iff now t x r.tokens,
      look-setex str_eq eq_iff now now t x (end - now) (revoked j device) r.tokens,
      look_alive session_eq now (j, device) r.sessions x end e,
    )
  ]

  -- The tokens that the scan gives are those that the user's sessions hold.
  scan_tokens_sound :
      (user_id : ℕ) (t : String) (all d : Timed SessionKey String)
      → is_in now t (scan_tokens now user_id all d) ≡ true
      → (device : String) × (get session_eq now (user_id, device) all ≡ some t)
  scan_tokens_sound user_id t all [] e = absurd (ground arith)
  scan_tokens_sound user_id t all (((i, device), x, end) ∷ d) e = elim (Bool-cases (i == user_id)) [
    | inr other ↦ scan_tokens_sound user_id t all d (ground arith)
    | inl same ↦ elim (Option-cases (get session_eq now (i, device) all)) [
      | inl gone ↦ scan_tokens_sound user_id t all d (ground arith)
      | inr (y, here) ↦ elim (Bool-cases (str_eq t y)) [
        | inr other ↦ scan_tokens_sound user_id t all d (ground arith)
        | inl it ↦ (device, ground (arith, eq_iff t y))
      ]
    ]
  ]

  scan_tokens_complete :
      (user_id : ℕ) (device t : String) (all d : Timed SessionKey String) (v : String × ℕ)
      → find session_eq (user_id, device) d ≡ some v
      → get session_eq now (user_id, device) all ≡ some t
      → is_in now t (scan_tokens now user_id all d) ≡ true
  scan_tokens_complete user_id device t all [] v f g = absurd (ground arith)
  scan_tokens_complete user_id device t all (((i, x), y, end) ∷ d) v f g =
      elim (Bool-cases (session_eq (user_id, device) (i, x))) [
        | inl same ↦
            let p = (session_law (user_id, device) (i, x)).0 same in ground (arith, eq_refl t)
        | inr other ↦ ground (arith, scan_tokens_complete user_id device t all d v (ground arith) g)
      ]

  pub revoke_all_session :
      (user_id : ℕ) (r : Redis) (i : ℕ) (d : String)
      → session now i d (revoke_all_refresh_tokens now user_id r)
        ≡ (if i == user_id then none else session now i d r)
  unfolding revoke_all_refresh_tokens
  revoke_all_session user_id r i d =
      ground (
        arith,
        look-keep_if session_eq session_law now (λ k. not (k.0 == user_id)) (i, d) r.sessions,
      )

  pub revoke_all_owner :
      (user_id : ℕ) (r : Redis) (t : String)
      → owner now t (revoke_all_refresh_tokens now user_id r) ≡ (
          if is_in now t (scan_tokens now user_id r.sessions r.sessions)
          then none
          else owner now t r)
  unfolding revoke_all_refresh_tokens
  revoke_all_owner user_id r t = ground (
    arith,
    look-keep_if str_eq eq_iff now
        (λ x. not (is_in now x (scan_tokens now user_id r.sessions r.sessions))) t r.tokens,
  )

  -- A token is among those scanned if and only if a session of the user holds it.
  pub scanned :
      (user_id : ℕ) (t : String) (r : Redis)
      → (is_in now t (scan_tokens now user_id r.sessions r.sessions) ≡ true)
        ↔ ((device : String) × (get_session now user_id device r ≡ some t))
  scanned user_id t r = (
    scan_tokens_sound user_id t r.sessions r.sessions,
    λ (device, g). elim (Option-cases (find session_eq (user_id, device) r.sessions)) [
      | inl e ↦ absurd (ground (arith, look_missing session_eq now (user_id, device) r.sessions e))
      | inr (v, e) ↦ scan_tokens_complete user_id device t r.sessions r.sessions v e g
    ],
  )

pub Found-cases :
    (f : Found)
    → (f ≡ missing) ⊎ (((i : ℕ) × (f ≡ reused i)) ⊎ ((i : ℕ) × (d : String) × (f ≡ owned i d)))
Found-cases missing = inl refl
Found-cases (reused i) = inr (inl (i, refl))
Found-cases (owned i d) = inr (inr (i, d, refl))
