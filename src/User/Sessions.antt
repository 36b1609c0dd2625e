-- ===== src/User/Sessions.antt =====
-- The handlers of user-service (services/user-service/app/services/auth_service.py): what each leaves
-- in Redis, and that the two dictionaries agree after every history.
use micro_mart.Shared.{
  ℕ, ◌<◌, ◌≡◌, sym, subst, ◌⊎◌, String, none, List, [], ◌∷◌, ◌==◌, arith, Option-cases, Bool-cases,
  inl, inr, ok, err,
}
use micro_mart.Shared.Http.{plain_error}
use micro_mart.User.Table.{
  User, LoginRequest, LogoutRequest, RefreshRequest, Libraries, get_user_by_email, get_user_by_id,
}
use micro_mart.User.Tokens.{
  create_refresh_token, rotate_refresh_token, verify_refresh_token, revoke_refresh_token,
  revoke_all_refresh_tokens, get_user_id_from_refresh_token,
}
use micro_mart.User.Service.{
  Settings, World, login_service, check_token, issue_tokens, refresh_service, logout_service,
  close_sessions, subject, Event, register, login, refresh, logout, wait, handle, run, seconds,
}
use micro_mart.User.Links.{
  IsLinked, create-IsLinked, rotate-IsLinked, revoke-IsLinked, revoke_all-IsLinked, wait-IsLinked,
}
use micro_mart.User.Accounts.{IsDirectory, register_service-IsDirectory}
use micro_mart.User.Lookups.{owner, Found-cases}

-- `uuid.uuid4` draws no token that is still known.
abbrev pub Fresh : Event → World → Type 0
Fresh (register body salt) w = Unit
Fresh (login body token) w = owner w.now token w.redis ≡ none
Fresh (refresh body token) w = owner w.now token w.redis ≡ none
Fresh (logout body access_token) w = Unit
Fresh (wait n) w = Unit

abbrev pub IsSound : Settings → World → Type 0
IsSound settings w = IsLinked (seconds settings) w.now w.redis × IsDirectory w.db

module _ (libraries : Libraries) (settings : Settings) where
  abbrev longest : ℕ
  longest = seconds settings

  pub login_service-redis :
      (body : LoginRequest) (token : String) (w : World)
      → ((login_service libraries settings body token w).1 ≡ w)
        ⊎ ((u : User) × ((login_service libraries settings body token w).1 ≡ record w {
          redis = create_refresh_token longest w.now token u.id body.device w.redis;
        }))
  unfolding login_service
  login_service-redis body token w = elim (Option-cases (get_user_by_email body.email w.db.users)) [
    | inl e ↦ inl (ground arith)
    | inr (u, e) ↦ elim (Bool-cases (libraries.verify body.password u.hashed_password)) [
      | inr f ↦ inl (ground arith)
      | inl f ↦ elim (Bool-cases u.is_active) [
        | inr g ↦ inl (ground arith)
        | inl g ↦ inr (u, ground arith)
      ]
    ]
  ]

  pub issue_tokens-redis :
      (token : String) (i : ℕ) (d : String) (w : World)
      → ((issue_tokens libraries settings token i d w).1 ≡ w)
        ⊎ ((issue_tokens libraries settings token i d w).1
            ≡ record w { redis = rotate_refresh_token longest w.now token i d w.redis })
  unfolding issue_tokens
  issue_tokens-redis token i d w = elim (Option-cases (get_user_by_id i w.db.users)) [
    | inl e ↦ inl (ground arith)
    | inr (u, e) ↦ elim (Bool-cases u.is_active) [
      | inr g ↦ inl (ground arith)
      | inl g ↦ inr (ground arith)
    ]
  ]

  pub check_token-redis :
      (body : RefreshRequest) (w : World)
      → let out = check_token body w in
        ((i : ℕ) × (out ≡ (
          err (plain_error 401),
          record w { redis = revoke_all_refresh_tokens w.now i w.redis },
        )))
        ⊎ ((out ≡ (err (plain_error 401), w)) ⊎ ((i : ℕ) × (d : String) × (out ≡ (ok (i, d), w))))
  unfolding check_token close_sessions
  check_token-redis body w =
      elim (Found-cases (get_user_id_from_refresh_token w.now body.refresh_token w.redis)) [
        | inl e ↦ inr (inl (ground arith))
        | inr (inl (i, e)) ↦ inl (i, ground arith)
        | inr (inr (i, d, e)) ↦
            elim (Bool-cases (verify_refresh_token w.now i body.refresh_token d w.redis)) [
              | inl v ↦ inr (inr (i, d, ground arith))
              | inr v ↦ inl (i, ground arith)
            ]
      ]

  pub refresh_service-redis :
      (body : RefreshRequest) (token : String) (w : World)
      → let w' = (refresh_service libraries settings body token w).1 in
        ((i : ℕ) × (w' ≡ record w { redis = revoke_all_refresh_tokens w.now i w.redis }))
        ⊎ ((w' ≡ w)
            ⊎ ((i : ℕ) × (d : String) × (w'
                  ≡ record w { redis = rotate_refresh_token longest w.now token i d w.redis })))
  unfolding refresh_service
  refresh_service-redis body token w = elim (check_token-redis body w) [
    | inl (i, e) ↦ inl (i, ground arith)
    | inr (inl e) ↦ inr (inl (ground arith))
    | inr (inr (i, d, e)) ↦ elim (issue_tokens-redis token i d w) [
      | inl f ↦ inr (inl (ground arith))
      | inr f ↦ inr (inr (i, d, ground arith))
    ]
  ]

  pub logout_service-redis :
      (body : LogoutRequest) (access_token : String) (w : World)
      → let w' = (logout_service libraries body access_token w).1 in
        (w' ≡ w)
        ⊎ ((i : ℕ) × (d : String) × (w'
              ≡ record w { redis = revoke_refresh_token w.now i d w.redis }))
  unfolding logout_service
  logout_service-redis body access_token w =
      elim (Option-cases (subject libraries (libraries.decode w.now access_token))) [
        | inl e ↦ inl (ground arith)
        | inr (i, e) ↦
            elim (Found-cases (get_user_id_from_refresh_token w.now body.refresh_token w.redis)) [
              | inl f ↦ inl (ground arith)
              | inr (inl (o, f)) ↦ inl (ground arith)
              | inr (inr (o, d, f)) ↦ elim (Bool-cases (o == i)) [
                | inl g ↦ inr (i, d, ground arith)
                | inr g ↦ inl (ground arith)
              ]
            ]
      ]

  pub handle-IsSound :
      (e : Event) (w : World)
      → 0 < longest
      → Fresh e w
      → IsSound settings w
      → IsSound settings (handle libraries settings e w)
  unfolding handle
  handle-IsSound (register body salt) w p f (l, v) =
      (l, register_service-IsDirectory libraries body salt w.db v)
  handle-IsSound (login body token) w p f (l, v) = elim (login_service-redis body token w) [
    | inl e ↦ subst (IsSound settings) (sym e) (l, v)
    | inr (u, e) ↦
        subst (IsSound settings) (sym e)
          (create-IsLinked longest w.now token u.id body.device w.redis l p f, v)
  ]
  handle-IsSound (refresh body token) w p f (l, v) = elim (refresh_service-redis body token w) [
    | inl (i, e) ↦
        subst (IsSound settings) (sym e) (revoke_all-IsLinked longest w.now i w.redis l, v)
    | inr (inl e) ↦ subst (IsSound settings) (sym e) (l, v)
    | inr (inr (i, d, e)) ↦
        subst (IsSound settings) (sym e) (rotate-IsLinked longest w.now token i d w.redis l p f, v)
  ]
  handle-IsSound (logout body access_token) w p f (l, v) =
      elim (logout_service-redis body access_token w) [
        | inl e ↦ subst (IsSound settings) (sym e) (l, v)
        | inr (i, d, e) ↦
            subst (IsSound settings) (sym e) (revoke-IsLinked longest w.now i d w.redis l, v)
      ]
  handle-IsSound (wait n) w p f (l, v) = (wait-IsLinked longest w.now n w.redis l, v)

  -- No token is drawn twice while it is known.
  abbrev pub FreshRun : List Event → World → Type 0
  FreshRun [] w = Unit
  FreshRun (e ∷ es) w = Fresh e w × FreshRun es (handle libraries settings e w)

  -- Over any history of requests and waiting in which no known token is drawn again: a session holds a
  -- token if and only if the token is live for that session with the same deadline, no deadline is
  -- further away than the refresh tokens last, and the users' ids and emails stay distinct.
  pub run-IsSound :
      (es : List Event) (w : World)
      → 0 < longest
      → FreshRun es w
      → IsSound settings w
      → IsSound settings (run libraries settings es w)
  unfolding run
  run-IsSound [] w p f l = l
  run-IsSound (e ∷ es) w p (f, g) l =
      run-IsSound es (handle libraries settings e w) p g (handle-IsSound e w p f l)
