-- ===== src/User/Life.antt =====
-- The life of an account: registration, login, refresh and logout, one after the other
-- (services/user-service/app/services/auth_service.py).
use micro_mart.Shared.{
  ℕ, ◌+◌, ◌*◌, ◌<◌, ◌≡◌, ◌≢◌, String, str_eq, eq_iff, eq_refl, true, none, some, arith, ok,
}
use micro_mart.Shared.Decimal.{int-str}
use micro_mart.Shared.Timed.{look_later, look_gone}
use micro_mart.User.Table.{
  User, LoginRequest, LogoutRequest, RefreshRequest, TokenResponse, Libraries, Decodes,
  get_user_by_id, get_user_by_email,
}
use micro_mart.User.Tokens.{
  live, create_refresh_token, rotate_refresh_token, revoke_refresh_token,
  get_user_id_from_refresh_token,
}
use micro_mart.User.Service.{
  Settings, World, seconds, login_service, refresh_service, logout_service, issue_tokens,
  create_access_token, claims_of, subject,
}
use micro_mart.User.Accounts.{found-get_user_by_id}
use micro_mart.User.Links.{create-IsLinked, wait-IsLinked}
use micro_mart.User.Lookups.{session, owner, create_owner}
use micro_mart.User.Sessions.{IsSound}
use micro_mart.User.Tombstones.{IsTombstone}
use micro_mart.User.Rotation.{check_token-live, rotated_owners, rotated-IsSound, logout_service-ok}

module _ (libraries : Libraries) (settings : Settings) where
  abbrev pub tokens_for : ℕ → User → String → TokenResponse
  tokens_for now user token = record {
    access_token = create_access_token libraries settings now user;
    refresh_token = token;
  }

  pub login_service_fits :
      (body : LoginRequest) (token : String) (w : World) (u : User)
      → get_user_by_email body.email w.db.users ≡ some u
      → libraries.verify body.password u.hashed_password ≡ true
      → u.is_active ≡ true
      → login_service libraries settings body token w ≡ (
        ok (tokens_for w.now u token),
        record w {
          redis = create_refresh_token (seconds settings) w.now token u.id body.device w.redis;
        },
      )
  unfolding login_service
  login_service_fits body token w u e f g = ground arith

  pub issue_tokens_fits :
      (token : String) (i : ℕ) (d : String) (w : World) (u : User)
      → get_user_by_id i w.db.users ≡ some u
      → u.is_active ≡ true
      → issue_tokens libraries settings token i d w ≡ (
        ok (tokens_for w.now u token),
        record w { redis = rotate_refresh_token (seconds settings) w.now token i d w.redis },
      )
  unfolding issue_tokens
  issue_tokens_fits token i d w u e g = ground arith

  pub refresh_service-live :
      (body : RefreshRequest) (token : String) (w : World) (i : ℕ) (d : String) (end : ℕ) (u : User)
      → IsSound settings w
      → owner w.now body.refresh_token w.redis ≡ some (live i d, end)
      → get_user_by_id i w.db.users ≡ some u
      → u.is_active ≡ true
      → refresh_service libraries settings body token w ≡ (
        ok (tokens_for w.now u token),
        record w { redis = rotate_refresh_token (seconds settings) w.now token i d w.redis },
      )
  unfolding refresh_service
  refresh_service-live body token w i d end u l e f g = ground (
    arith,
    check_token-live libraries settings body w i d end l e,
    issue_tokens_fits token i d w u f g,
  )

  -- The access token of a user names the user for as long as it lasts.
  pub subject-create_access_token :
      (now later : ℕ) (u : User)
      → Decodes libraries (claims_of libraries settings now u)
      → later < now + settings.access_token_expire_minutes * 60
      → subject libraries (libraries.decode later (create_access_token libraries settings now u))
        ≡ some u.id
  unfolding create_access_token
  subject-create_access_token now later u h b = ground (arith, h later b, int-str u.id)

  pub logout_service_fits :
      (body : LogoutRequest) (access_token : String) (w : World) (i : ℕ) (d : String) (end : ℕ)
      → subject libraries (libraries.decode w.now access_token) ≡ some i
      → owner w.now body.refresh_token w.redis ≡ some (live i d, end)
      → logout_service libraries body access_token w
        ≡ (ok tt, record w { redis = revoke_refresh_token w.now i d w.redis })
  unfolding logout_service get_user_id_from_refresh_token
  logout_service_fits body access_token w i d end e f = ground arith

  -- What a session leaves, step by step.
  abbrev logged_in : LoginRequest → String → User → World → World
  logged_in body token u w = record w {
    redis = create_refresh_token (seconds settings) w.now token u.id body.device w.redis;
  }

  abbrev pub waited : ℕ → World → World
  waited n w = record w { now = w.now + n }

  abbrev refreshed : String → ℕ → String → World → World
  refreshed token i d w = record w {
    redis = rotate_refresh_token (seconds settings) w.now token i d w.redis;
  }

  logged_in-owner :
      (body : LoginRequest) (token : String) (u : User) (w : World) (n : ℕ)
      → n < seconds settings
      → owner (w.now + n) token (logged_in body token u w).redis
        ≡ some (live u.id body.device, w.now + seconds settings)
  logged_in-owner body token u w n l =
      look_later str_eq w.now (w.now + n) token (logged_in body token u w).redis.tokens
        (live u.id body.device) (w.now + seconds settings)
        (ground (
          arith,
          create_owner (seconds settings) w.now token u.id body.device w.redis token,
          eq_refl token,
        ))
        (omega arith)

  logged_in_unknown :
      (body : LoginRequest) (token other : String) (u : User) (w : World) (n : ℕ)
      → owner w.now other w.redis ≡ none
      → token ≢ other
      → owner (w.now + n) other (logged_in body token u w).redis ≡ none
  logged_in_unknown body token other u w n e f =
      look_gone str_eq w.now (w.now + n) other (logged_in body token u w).redis.tokens (omega arith)
        (ground (
          arith,
          create_owner (seconds settings) w.now token u.id body.device w.redis other,
          eq_iff token other,
        ))

  logged_in-IsSound :
      (body : LoginRequest) (token : String) (u : User) (w : World) (n : ℕ)
      → 0 < seconds settings
      → IsSound settings w
      → owner w.now token w.redis ≡ none
      → IsSound settings (waited n (logged_in body token u w))
  logged_in-IsSound body token u w n p l e = (
    wait-IsLinked (seconds settings) w.now n (logged_in body token u w).redis
        (create-IsLinked (seconds settings) w.now token u.id body.device w.redis l.0 p e),
    l.1,
  )

  -- A user whose password fits can log in; while the refresh token lasts the user can refresh it, for
  -- tokens of the same user; and the new pair of tokens, while both last, logs out, which leaves no
  -- session of the device and the refresh token a tombstone.
  pub account_life :
      (body : LoginRequest) (n m : ℕ) (token_1 token_2 : String) (w : World) (u : User)
      → Decodes libraries (claims_of libraries settings (w.now + n) u)
      → n < seconds settings
      → m < seconds settings
      → m < settings.access_token_expire_minutes * 60
      → IsSound settings w
      → owner w.now token_1 w.redis ≡ none
      → owner w.now token_2 w.redis ≡ none
      → token_1 ≢ token_2
      → get_user_by_email body.email w.db.users ≡ some u
      → libraries.verify body.password u.hashed_password ≡ true
      → u.is_active ≡ true
      → let login = login_service libraries settings body token_1 w in
        let shown : RefreshRequest = record { refresh_token = token_1 } in
        let refresh = refresh_service libraries settings shown token_2 (waited n login.1) in
        let last : LogoutRequest = record { refresh_token = token_2 } in
        let access = create_access_token libraries settings (w.now + n) u in
        let logout = logout_service libraries last access (waited m refresh.1) in
        (login.0 ≡ ok (tokens_for w.now u token_1))
        × ((refresh.0 ≡ ok (tokens_for (w.now + n) u token_2))
            × ((logout.0 ≡ ok tt)
                × ((session (w.now + n + m) u.id body.device logout.1.redis ≡ none)
                    × IsTombstone token_2 u.id body.device
                        (w.now + n + seconds settings)
                        logout.1)))
  account_life body n m token_1 token_2 w u h before soon valid l fresh_1 fresh_2 other e f g =
      let login_eq = login_service_fits body token_1 w u e f g in
      let w2 : World = waited n (logged_in body token_1 u w) in
      let l2 = logged_in-IsSound body token_1 u w n (omega arith) l fresh_1 in
      let known = logged_in-owner body token_1 u w n before in
      let unknown = logged_in_unknown body token_1 token_2 u w n fresh_2 other in
      let shown : RefreshRequest = record { refresh_token = token_1 } in
      let refresh_eq =
        refresh_service-live shown token_2 w2 u.id body.device (w.now + seconds settings) u l2 known
          (found-get_user_by_id body.email w.db.users u l.1.distinct e) g in
      let (dead, new) =
        rotated_owners libraries settings token_2 token_1 w2 u.id body.device
          (w.now + seconds settings) (omega arith) l2 unknown known in
      let w3 : World = waited m (refreshed token_2 u.id body.device w2) in
      let new_3 =
        look_later str_eq w2.now (w2.now + m) token_2 w3.redis.tokens (live u.id body.device)
          (w2.now + seconds settings) new (omega arith) in
      let l3 : IsSound settings w3 = (
        wait-IsLinked (seconds settings) w2.now m w3.redis
            (rotated-IsSound libraries settings token_2 w2 u.id body.device (omega arith) l2
              unknown).0,
        l.1,
      ) in
      let last : LogoutRequest = record { refresh_token = token_2 } in
      let logout_eq =
        logout_service_fits last (create_access_token libraries settings (w.now + n) u) w3 u.id
          body.device (w2.now + seconds settings)
          (subject-create_access_token (w.now + n) (w.now + n + m) u h (omega arith)) new_3 in
      let (same, gone, tomb) =
        logout_service-ok libraries settings last
          (create_access_token libraries settings (w.now + n) u) w3
          (logout_service libraries last (create_access_token libraries settings (w.now + n) u)
            w3).1
          u.id body.device (w2.now + seconds settings) l3 new_3 (ground arith) in
      (ground arith, (ground arith, (ground arith, (ground arith, ground arith))))
