-- ===== src/User/Concurrent/Refinement.antt =====
-- The commands of a request that no other comes between, against the handlers
-- (services/user-service/app/services/auth_service.py).
use micro_mart.Shared.{
  ℕ, ◌≡◌, refl, ◌⊎◌, String, str_eq, Option, none, some, ◌==◌, Result, arith, Option-cases,
  Bool-cases, inl, inr, ok, err,
}
use micro_mart.Shared.Http.{HttpError, plain_error}
use micro_mart.User.Table.{
  LoginRequest, LogoutRequest, RefreshRequest, TokenResponse, Libraries, get_user_by_email,
  get_user_by_id,
}
use micro_mart.User.Tokens.{
  get_session, get_token, Owner, live, revoked, get_user_id_from_refresh_token,
  verify_refresh_token,
}
use micro_mart.User.Service.{
  Settings, World, seconds, check_token, close_sessions, issue_tokens, login_service,
  refresh_service, logout_service, subject, create_access_token,
}
use micro_mart.User.Concurrent.Commands.{
  answer, close_commands, issue_commands, refresh_commands, login_commands, logout_commands,
}
use micro_mart.User.Concurrent.Alone.{
  alone, alone-create, alone-rotate, alone-revoke, alone-revoke_all,
}

alone-close :
    {A : Type 0} (w : World) (i : ℕ) → alone (close_commands {A = A} i) w ≡ close_sessions i w
unfolding alone close_sessions
alone-close w i = alone-revoke_all (answer (err (plain_error 401))) w i

owner_cases :
    (o : Option Owner)
    → (o ≡ none)
      ⊎ (((i : ℕ) × (d : String) × (o ≡ some (revoked i d)))
          ⊎ ((i : ℕ) × (d : String) × (o ≡ some (live i d))))
owner_cases none = inl refl
owner_cases (some (revoked i d)) = inr (inl (i, d, refl))
owner_cases (some (live i d)) = inr (inr (i, d, refl))

module _ (libraries : Libraries) (settings : Settings) where
  alone-issue :
      (token : String) (i : ℕ) (d : String) (w : World)
      → alone (issue_commands libraries settings token i d (get_user_by_id i w.db.users)) w
        ≡ issue_tokens libraries settings token i d w
  unfolding alone issue_tokens
  alone-issue token i d w = elim (Option-cases (get_user_by_id i w.db.users)) [
    | inl e ↦ ground arith
    | inr (u, e) ↦ elim (Bool-cases u.is_active) [
      | inr g ↦ ground arith
      | inl g ↦ ground (
        arith,
        alone-rotate {A = Result HttpError TokenResponse}
            (answer (
              ok (record {
                access_token = create_access_token libraries settings w.now u;
                refresh_token = token;
              })))
            w (seconds settings) token i d,
      )
    ]
  ]

  alone-login :
      (body : LoginRequest) (token : String) (w : World)
      → alone (login_commands libraries settings body token) w
        ≡ login_service libraries settings body token w
  unfolding alone login_commands login_service
  alone-login body token w = elim (Option-cases (get_user_by_email body.email w.db.users)) [
    | inl e ↦ ground arith
    | inr (u, e) ↦ elim (Bool-cases (libraries.verify body.password u.hashed_password)) [
      | inr f ↦ ground arith
      | inl f ↦ elim (Bool-cases u.is_active) [
        | inr g ↦ ground arith
        | inl g ↦ ground (
          arith,
          alone-create {A = Result HttpError TokenResponse}
              (answer (
                ok (record {
                  access_token = create_access_token libraries settings w.now u;
                  refresh_token = token;
                })))
              w (seconds settings) token u.id body.device,
        )
      ]
    ]
  ]

  alone-refresh :
      (body : RefreshRequest) (token : String) (w : World)
      → alone (refresh_commands libraries settings body token) w
        ≡ refresh_service libraries settings body token w
  unfolding alone refresh_commands refresh_service check_token close_sessions
      get_user_id_from_refresh_token verify_refresh_token
  alone-refresh body token w = elim (owner_cases (get_token w.now body.refresh_token w.redis)) [
    | inl e ↦ ground arith
    | inr (inl (i, d, e)) ↦ ground (arith, alone-close {A = TokenResponse} w i)
    | inr (inr (i, d, e)) ↦ elim (Option-cases (get_session w.now i d w.redis)) [
      | inl f ↦ ground (arith, alone-close {A = TokenResponse} w i)
      | inr (x, f) ↦ elim (Bool-cases (str_eq x body.refresh_token)) [
        | inl g ↦ ground (arith, alone-issue token i d w)
        | inr g ↦ ground (arith, alone-close {A = TokenResponse} w i)
      ]
    ]
  ]

  alone-logout :
      (body : LogoutRequest) (access_token : String) (w : World)
      → alone (logout_commands libraries body access_token) w
        ≡ logout_service libraries body access_token w
  unfolding alone logout_commands logout_service get_user_id_from_refresh_token
  alone-logout body access_token w =
      elim (Option-cases (subject libraries (libraries.decode w.now access_token))) [
        | inl e ↦ ground arith
        | inr (i, e) ↦ elim (owner_cases (get_token w.now body.refresh_token w.redis)) [
          | inl f ↦ ground arith
          | inr (inl (j, d, f)) ↦ ground arith
          | inr (inr (j, d, f)) ↦ elim (Bool-cases (j == i)) [
            | inr g ↦ ground arith
            | inl g ↦
                ground (arith, alone-revoke {A = Result HttpError Unit} (answer (ok tt)) w i d)
          ]
        ]
      ]

  -- A login, a refresh and a logout whose commands no other request comes between answer and leave
  -- what the handlers do, which take Redis in one step.
  alone-handlers :
      (body_1 : LoginRequest) (body_2 : RefreshRequest) (body_3 : LogoutRequest)
      (token access_token : String) (w : World)
      → (alone (login_commands libraries settings body_1 token) w
          ≡ login_service libraries settings body_1 token w)
        × (alone (refresh_commands libraries settings body_2 token) w
            ≡ refresh_service libraries settings body_2 token w)
        × (alone (logout_commands libraries body_3 access_token) w
            ≡ logout_service libraries body_3 access_token w)
  alone-handlers body_1 body_2 body_3 token access_token w =
      (alone-login body_1 token w, alone-refresh body_2 token w, alone-logout body_3 access_token w)
