-- ===== src/User/Rotation.antt =====
-- The rotation of refresh tokens by `refresh_service` of
-- services/user-service/app/services/auth_service.py, one request at a time and with two at once.
use micro_mart.Shared.{
  ℕ, ◌+◌, ◌<◌, ◌≡◌, refl, sym, subst, ◌≢◌, String, eq_iff, eq_refl, none, some, ◌==◌, arith,
  Option-cases, Bool-cases, inl, inr, ok, err,
}
use micro_mart.Shared.Http.{plain_error}
use micro_mart.Shared.Timed.{look_alive}
use micro_mart.User.Table.{LogoutRequest, RefreshRequest, TokenResponse, Libraries, get_user_by_id}
use micro_mart.User.Tokens.{
  session_eq, live, revoked, rotate_refresh_token, revoke_refresh_token, revoke_all_refresh_tokens,
  get_user_id_from_refresh_token, verify_refresh_token,
}
use micro_mart.User.Service.{
  Settings, World, seconds, refresh_service, logout_service, check_token, issue_tokens,
  close_sessions, subject,
}
use micro_mart.User.Links.{IsLinked, revoke_all-IsLinked, rotate-IsLinked}
use micro_mart.User.Lookups.{
  session, owner, rotate_owner, revoke_owner, revoke_session, revoke_all_session,
}
use micro_mart.User.Sessions.{IsSound}
use micro_mart.User.Tombstones.{IsTombstone}

-- No device of the user has a session, and no token is live for the user.
abbrev pub IsLoggedOut : ℕ → World → Type 0
IsLoggedOut i w =
    ((d : String) → session w.now i d w.redis ≡ none)
    × ((t d : String) (end : ℕ) → owner w.now t w.redis ≢ some (live i d, end))

-- A tombstone that is shown is answered 401 and closes the user's sessions.
pub check_token_tombstone :
    (body : RefreshRequest) (w : World) (i : ℕ) (d : String) (end : ℕ)
    → IsTombstone body.refresh_token i d end w
    → check_token body w
      ≡ (err (plain_error 401), record w { redis = revoke_all_refresh_tokens w.now i w.redis })
unfolding check_token close_sessions get_user_id_from_refresh_token
check_token_tombstone body w i d end e = ground arith

pub revoke_all-IsLoggedOut :
    (longest i : ℕ) (w : World)
    → IsLinked longest w.now w.redis
    → IsLoggedOut i (record w { redis = revoke_all_refresh_tokens w.now i w.redis })
revoke_all-IsLoggedOut longest i w l = (
  none_left,
  λ t d end e.
      let e' = (revoke_all-IsLinked longest w.now i w.redis l).holding i d t end e in
      absurd (ground (arith, none_left d)),
)
  where
    none_left : (d : String) → session w.now i d (revoke_all_refresh_tokens w.now i w.redis) ≡ none
    none_left d = ground (arith, revoke_all_session w.now i w.redis i d)

module _ (libraries : Libraries) (settings : Settings) where
  -- A token that is live for a device is accepted, and its user is looked up.
  pub check_token-live :
      (body : RefreshRequest) (w : World) (i : ℕ) (d : String) (end : ℕ)
      → IsSound settings w
      → owner w.now body.refresh_token w.redis ≡ some (live i d, end)
      → check_token body w ≡ (ok (i, d), w)
  unfolding check_token get_user_id_from_refresh_token verify_refresh_token
  check_token-live body w i d end l e =
      ground (arith, l.0.holding i d body.refresh_token end e, eq_refl body.refresh_token)

  pub issue_tokens-ok :
      (token : String) (i : ℕ) (d : String) (w w' : World) (response : TokenResponse)
      → issue_tokens libraries settings token i d w ≡ (ok response, w')
      → (w' ≡ record w { redis = rotate_refresh_token (seconds settings) w.now token i d w.redis })
        × (response.refresh_token ≡ token)
  unfolding issue_tokens
  issue_tokens-ok token i d w w' response e = elim (Option-cases (get_user_by_id i w.db.users)) [
    | inl f ↦ absurd (ground arith)
    | inr (u, f) ↦ elim (Bool-cases u.is_active) [
      | inr g ↦ absurd (ground arith)
      | inl g ↦ (ground arith, ground arith)
    ]
  ]

  -- A second request of the same user, in what the first one left.
  pub issue_tokens_again :
      (token_1 token_2 : String) (i : ℕ) (d : String) (w w1 : World) (first : TokenResponse)
      → issue_tokens libraries settings token_1 i d w ≡ (ok first, w1)
      → issue_tokens libraries settings token_2 i d w1 ≡ (
        ok (record { access_token = first.access_token; refresh_token = token_2 }),
        record w1 { redis = rotate_refresh_token (seconds settings) w1.now token_2 i d w1.redis },
      )
  unfolding issue_tokens
  issue_tokens_again token_1 token_2 i d w w1 first e =
      elim (Option-cases (get_user_by_id i w.db.users)) [
        | inl f ↦ absurd (ground arith)
        | inr (u, f) ↦ elim (Bool-cases u.is_active) [
          | inr g ↦ absurd (ground arith)
          | inl g ↦ ground arith
        ]
      ]

  pub rotated-IsSound :
      (token : String) (w : World) (i : ℕ) (d : String)
      → 0 < seconds settings
      → IsSound settings w
      → owner w.now token w.redis ≡ none
      → IsSound settings
          (record w { redis = rotate_refresh_token (seconds settings) w.now token i d w.redis })
  rotated-IsSound token w i d p l fresh =
      (rotate-IsLinked (seconds settings) w.now token i d w.redis l.0 p fresh, l.1)

  -- A rotation makes the token that the device holds a tombstone, which lasts as long as the token
  -- would have, and the new one live for the same device.
  pub rotated_owners :
      (token t : String) (w : World) (i : ℕ) (d : String) (end : ℕ)
      → 0 < seconds settings
      → IsSound settings w
      → owner w.now token w.redis ≡ none
      → owner w.now t w.redis ≡ some (live i d, end)
      → let r = rotate_refresh_token (seconds settings) w.now token i d w.redis in
        (owner w.now t r ≡ some (revoked i d, end))
        × (owner w.now token r ≡ some (live i d, w.now + seconds settings))
  rotated_owners token t w i d end p l fresh e =
      let s = l.0.holding i d t end e in
      let alive = look_alive session_eq w.now (i, d) w.redis.sessions t end s in
      (
        ground (
          arith,
          rotate_owner (seconds settings) w.now token i d w.redis t,
          eq_iff token t,
          eq_refl t,
        ),
        ground
            (arith, rotate_owner (seconds settings) w.now token i d w.redis token, eq_refl token),
      )

  -- A refresh that is answered with tokens makes the token that was shown a tombstone, which lasts as
  -- long as the token would have, and the new one live for the same device.
  pub refresh_service-ok :
      (body : RefreshRequest) (token : String) (w w' : World) (response : TokenResponse) (i : ℕ)
      (d : String) (end : ℕ)
      → 0 < seconds settings
      → IsSound settings w
      → owner w.now token w.redis ≡ none
      → owner w.now body.refresh_token w.redis ≡ some (live i d, end)
      → refresh_service libraries settings body token w ≡ (ok response, w')
      → (w' ≡ record w { redis = rotate_refresh_token (seconds settings) w.now token i d w.redis })
        × (response.refresh_token ≡ token)
        × IsTombstone body.refresh_token i d end w'
        × (owner w'.now token w'.redis ≡ some (live i d, w.now + seconds settings))
  unfolding refresh_service
  refresh_service-ok body token w w' response i d end p l fresh e r =
      let (same, given) =
        issue_tokens-ok token i d w w' response
          (ground (arith, check_token-live body w i d end l e)) in
      let (dead, new) = rotated_owners token body.refresh_token w i d end p l fresh e in
      (same, given, ground arith, ground arith)

  refresh_service_tombstone :
      (body : RefreshRequest) (token : String) (w : World) (i : ℕ) (d : String) (end : ℕ)
      → IsTombstone body.refresh_token i d end w
      → refresh_service libraries settings body token w
        ≡ (err (plain_error 401), record w { redis = revoke_all_refresh_tokens w.now i w.redis })
  unfolding refresh_service
  refresh_service_tombstone body token w i d end dead =
      ground (arith, check_token_tombstone body w i d end dead)

  pub spent :
      (body : RefreshRequest) (token : String) (w : World) (i : ℕ) (d : String) (end : ℕ)
      → IsSound settings w
      → IsTombstone body.refresh_token i d end w
      → let out = refresh_service libraries settings body token w in
        (out.0 ≡ err (plain_error 401)) × IsLoggedOut i out.1
  spent body token w i d end l dead =
      subst (λ out. (out.0 ≡ err (plain_error 401)) × IsLoggedOut i out.1)
        (sym (refresh_service_tombstone body token w i d end dead))
        (refl, revoke_all-IsLoggedOut (seconds settings) i w l.0)

  pub logout_service-ok :
      (body : LogoutRequest) (access_token : String) (w w' : World) (i : ℕ) (d : String) (end : ℕ)
      → IsSound settings w
      → owner w.now body.refresh_token w.redis ≡ some (live i d, end)
      → logout_service libraries body access_token w ≡ (ok tt, w')
      → (w' ≡ record w { redis = revoke_refresh_token w.now i d w.redis })
        × (session w.now i d w'.redis ≡ none)
        × IsTombstone body.refresh_token i d end w'
  unfolding logout_service get_user_id_from_refresh_token
  logout_service-ok body access_token w w' i d end l e r =
      elim (Option-cases (subject libraries (libraries.decode w.now access_token))) [
        | inl f ↦ absurd (ground arith)
        | inr (j, f) ↦ elim (Bool-cases (i == j)) [
          | inr g ↦ absurd (ground arith)
          | inl g ↦
              let s = l.0.holding i d body.refresh_token end e in
              let alive =
                look_alive session_eq w.now (i, d) w.redis.sessions body.refresh_token end s in
              (
                ground arith,
                ground (arith, revoke_session w.now i d w.redis i d, eq_refl d),
                ground (
                  arith,
                  revoke_owner w.now i d w.redis body.refresh_token,
                  eq_refl body.refresh_token,
                ),
              )
        ]
      ]
