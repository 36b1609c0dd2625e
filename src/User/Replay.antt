-- ===== src/User/Replay.antt =====
-- What a refresh token that was spent can do (services/user-service/app/services/auth_service.py):
-- after a refresh, after a logout, and when two requests showed it at once.
use micro_mart.Shared.{ℕ, ◌+◌, ◌<◌, ◌≡◌, sym, subst, String, none, some, List, arith, ok, err}
use micro_mart.Shared.Http.{plain_error}
use micro_mart.User.Table.{LogoutRequest, RefreshRequest, TokenResponse, Libraries}
use micro_mart.User.Tokens.{live}
use micro_mart.User.Service.{
  Settings, World, Event, run, seconds, refresh_service, logout_service, check_token, issue_tokens,
}
use micro_mart.User.Links.{revoke-IsLinked}
use micro_mart.User.Lookups.{session, owner}
use micro_mart.User.Sessions.{IsSound, FreshRun, run-IsSound}
use micro_mart.User.Tombstones.{run-IsTombstone}
use micro_mart.User.Rotation.{
  IsLoggedOut, spent, refresh_service-ok, rotated-IsSound, issue_tokens-ok, logout_service-ok,
  check_token-live, issue_tokens_again, rotated_owners,
}

module _ (libraries : Libraries) (settings : Settings) where
  -- If a refresh is answered with tokens, then after any history of requests in which no known token
  -- is drawn again, and as long as the token that was shown would have lasted, showing it again is
  -- answered 401, and then no device of the user has a session and no token is live for the user.
  pub refresh_service_replay :
      (body : RefreshRequest) (token again : String) (w w' : World) (response : TokenResponse)
      (i : ℕ) (d : String) (end : ℕ) (es : List Event)
      → 0 < seconds settings
      → IsSound settings w
      → owner w.now token w.redis ≡ none
      → owner w.now body.refresh_token w.redis ≡ some (live i d, end)
      → refresh_service libraries settings body token w ≡ (ok response, w')
      → FreshRun libraries settings es w'
      → (run libraries settings es w').now < end
      → let out = refresh_service libraries settings body again (run libraries settings es w') in
        (out.0 ≡ err (plain_error 401)) × IsLoggedOut i out.1
  refresh_service_replay body token again w w' response i d end es p l fresh e r f before =
      let (same, given, dead, new) =
        refresh_service-ok libraries settings body token w w' response i d end p l fresh e r in
      let l' =
        subst (IsSound settings) (sym same)
          (rotated-IsSound libraries settings token w i d p l fresh) in
      spent libraries settings body again (run libraries settings es w') i d end
        (run-IsSound libraries settings es w' p f l')
        (run-IsTombstone libraries settings es w' body.refresh_token i d end p l' f dead before)

  -- A logout that is answered without an error ends the session of the token that was shown: after any
  -- history of requests in which no known token is drawn again, and as long as the token would have
  -- lasted, a refresh with it is answered 401, and then the user has no session on any device.
  pub logout_service_replay :
      (body : LogoutRequest) (access_token token : String) (w w' : World) (i : ℕ) (d : String)
      (end : ℕ) (es : List Event)
      → 0 < seconds settings
      → IsSound settings w
      → owner w.now body.refresh_token w.redis ≡ some (live i d, end)
      → logout_service libraries body access_token w ≡ (ok tt, w')
      → FreshRun libraries settings es w'
      → (run libraries settings es w').now < end
      → let out =
          refresh_service libraries settings
            (record { refresh_token = body.refresh_token })
            token
            (run libraries settings es w') in
        (session w.now i d w'.redis ≡ none)
        × ((out.0 ≡ err (plain_error 401)) × IsLoggedOut i out.1)
  logout_service_replay body access_token token w w' i d end es p l e r f before =
      let (same, gone, dead) =
        logout_service-ok libraries settings body access_token w w' i d end l e r in
      let l' =
        subst (IsSound settings) (sym same)
          (revoke-IsLinked (seconds settings) w.now i d w.redis l.0, l.1) in
      (
        gone,
        spent libraries settings (record { refresh_token = body.refresh_token }) token
            (run libraries settings es w') i d end (run-IsSound libraries settings es w' p f l')
            (run-IsTombstone libraries settings es w' body.refresh_token i d end p l' f dead
              before),
      )

  -- Two requests that show one token at once, each past the checks before either issues its tokens, are
  -- both answered with tokens: the second's token is live, and the first's, which was never shown, is
  -- the tombstone. Showing the first's token later is answered 401 and ends all of the user's sessions.
  pub refresh_service_race :
      (body : RefreshRequest) (token_1 token_2 again : String) (w w1 : World)
      (first : TokenResponse) (i : ℕ) (d : String) (end : ℕ)
      → 0 < seconds settings
      → IsSound settings w
      → owner w.now body.refresh_token w.redis ≡ some (live i d, end)
      → owner w.now token_1 w.redis ≡ none
      → owner w1.now token_2 w1.redis ≡ none
      → issue_tokens libraries settings token_1 i d w ≡ (ok first, w1)
      → (check_token body w ≡ (ok (i, d), w))
        × (let second = issue_tokens libraries settings token_2 i d w1 in
            (second.0 ≡ ok (record { access_token = first.access_token; refresh_token = token_2 }))
            × (owner w.now token_2 second.1.redis ≡ some (live i d, w.now + seconds settings))
            × (let out =
                  refresh_service libraries settings
                    (record { refresh_token = first.refresh_token })
                    again
                    second.1 in
                (out.0 ≡ err (plain_error 401)) × IsLoggedOut i out.1))
  refresh_service_race body token_1 token_2 again w w1 first i d end p l e fresh_1 fresh_2 r =
      let (same, given) = issue_tokens-ok libraries settings token_1 i d w w1 first r in
      let again_ok = issue_tokens_again libraries settings token_1 token_2 i d w w1 first r in
      let l1 =
        subst (IsSound settings) (sym same)
          (rotated-IsSound libraries settings token_1 w i d p l fresh_1) in
      let (dead_1, new_1) =
        rotated_owners libraries settings token_1 body.refresh_token w i d end p l fresh_1 e in
      let (dead_2, new_2) =
        rotated_owners libraries settings token_2 token_1 w1 i d (w.now + seconds settings) p l1
          fresh_2 (ground arith) in
      let l2 = rotated-IsSound libraries settings token_2 w1 i d p l1 fresh_2 in
      (
        check_token-live libraries settings body w i d end l e,
        (
          ground arith,
          ground arith,
          subst
              (λ second.
                let out =
                  refresh_service libraries settings
                    (record { refresh_token = first.refresh_token }) again second.1 in
                (out.0 ≡ err (plain_error 401)) × IsLoggedOut i out.1)
              (sym again_ok)
              (spent libraries settings (record { refresh_token = first.refresh_token }) again _ i d
                (w.now + seconds settings) l2 (ground arith)),
        ),
      )
