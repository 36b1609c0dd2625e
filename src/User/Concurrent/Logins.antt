-- ===== src/User/Concurrent/Logins.antt =====
-- Two logins on one device at once (services/user-service/app/services/auth_service.py, auth.py).
use micro_mart.Shared.{
  ℕ, ◌+◌, ◌<◌, ◌≡◌, ◌≢◌, sym, ap, ◌∙◌, String, str_eq, eq_iff, eq_refl, Option, none, some, arith,
  Option-cases, inl, inr, err,
}
use micro_mart.Shared.Http.{plain_error}
use micro_mart.Shared.Timed.{look-setex, look-delete}
use micro_mart.User.Table.{RefreshRequest, Libraries}
use micro_mart.User.Tokens.{
  session_eq, Redis, live, get_session, create_refresh_token, revoke_all_refresh_tokens,
  get_user_id_from_refresh_token, verify_refresh_token,
}
use micro_mart.User.Service.{Settings, World, seconds, refresh_service, check_token, close_sessions}
use micro_mart.User.Links.{IsLinked}
use micro_mart.User.Lookups.{
  session, owner, session_law, create_owner, create_session, revoke_all_session,
}
use micro_mart.User.Concurrent.Commands.{delete_token, write, execute, creation}

module _ (libraries : Libraries) (settings : Settings) where
  abbrev longest : ℕ
  longest = seconds settings

  -- What a creation leaves, given what was read before it.
  creation_session :
      (token : String) (i : ℕ) (d : String) (existing : Option String) (now : ℕ) (r : Redis)
      → 0 < longest
      → session now i d (execute now (creation longest token i d existing) r)
        ≡ some (token, now + longest)
  unfolding execute
  creation_session token i d none now r p = ground (
    arith,
    look-setex session_eq session_law now now (i, d) (i, d) longest token r.sessions,
    eq_refl d,
  )
  creation_session token i d (some x) now r p = ground (
    arith,
    look-setex session_eq session_law now now (i, d) (i, d) longest token r.sessions,
    eq_refl d,
  )

  creation_owner :
      (token t : String) (i : ℕ) (d : String) (existing : Option String) (now : ℕ) (r : Redis)
      → token ≢ t
      → existing ≢ some t
      → owner now t (execute now (creation longest token i d existing) r) ≡ owner now t r
  unfolding execute
  creation_owner token t i d none now r h o =
      ground (
        arith,
        look-setex str_eq eq_iff now now t token longest (live i d) r.tokens,
        eq_iff token t,
      )
  creation_owner token t i d (some x) now r h o = ground (
    arith,
    look-setex str_eq eq_iff now now t token longest (live i d)
        (write now (delete_token x) r).tokens,
    look-delete str_eq eq_iff now t x r.tokens,
    eq_iff token t,
    eq_iff x t,
  )

  creation_own :
      (token : String) (i : ℕ) (d : String) (existing : Option String) (now : ℕ) (r : Redis)
      → 0 < longest
      → owner now token (execute now (creation longest token i d existing) r)
        ≡ some (live i d, now + longest)
  unfolding execute
  creation_own token i d none now r p = ground (
    arith,
    look-setex str_eq eq_iff now now token token longest (live i d) r.tokens,
    eq_refl token,
  )
  creation_own token i d (some x) now r p = ground (
    arith,
    look-setex str_eq eq_iff now now token token longest (live i d)
        (write now (delete_token x) r).tokens,
    eq_refl token,
  )

  unread :
      (i : ℕ) (d t : String) (now : ℕ) (r : Redis)
      → IsLinked longest now r
      → owner now t r ≡ none
      → get_session now i d r ≢ some t
  unread i d t now r l fresh e = elim (Option-cases (session now i d r)) [
    | inl f ↦ absurd (ground arith)
    | inr ((x, end), f) ↦ absurd (ground (arith, l.held i d x end f))
  ]

  -- A token that is live for a session which holds another: showing it closes the user's sessions.
  shown_orphan :
      (body : RefreshRequest) (again x : String) (i : ℕ) (d : String) (m n : ℕ) (w : World)
      → owner w.now body.refresh_token w.redis ≡ some (live i d, m)
      → session w.now i d w.redis ≡ some (x, n)
      → x ≢ body.refresh_token
      → refresh_service libraries settings body again w
        ≡ (err (plain_error 401), record w { redis = revoke_all_refresh_tokens w.now i w.redis })
  unfolding refresh_service check_token close_sessions get_user_id_from_refresh_token
      verify_refresh_token
  shown_orphan body again x i d m n w o s other = ground (arith, eq_iff x body.refresh_token)

  shown_unknown :
      (body : RefreshRequest) (again : String) (w : World)
      → owner w.now body.refresh_token w.redis ≡ none
      → refresh_service libraries settings body again w ≡ (err (plain_error 401), w)
  unfolding refresh_service check_token get_user_id_from_refresh_token
  shown_unknown body again w o = ground arith

  -- Let Redis be sound, let two logins of a user on one device draw different tokens, and let the first
  -- token be unknown. If both look up the device's session before either runs its pipeline, the
  -- second's token is in the session and the first's stays live without one; a refresh that shows the
  -- first's is answered 401 and leaves the user no session on any device. If the first is over before
  -- the second begins, such a refresh is answered 401 too, and changes nothing.
  pub login_race :
      (body : RefreshRequest) (second again : String) (i : ℕ) (d e : String) (w : World)
      → 0 < longest
      → IsLinked longest w.now w.redis
      → body.refresh_token ≢ second
      → owner w.now body.refresh_token w.redis ≡ none
      → let existing = get_session w.now i d w.redis in
        let first_done = execute w.now (creation longest body.refresh_token i d existing) w.redis in
        let at_once = record w {
          redis = execute w.now (creation longest second i d existing) first_done;
        } in
        let in_turn = record w {
          redis =
              create_refresh_token longest w.now second i d
                (create_refresh_token longest w.now body.refresh_token i d w.redis);
        } in
        let out = refresh_service libraries settings body again at_once in
        (session w.now i d at_once.redis ≡ some (second, w.now + longest))
        × (owner w.now body.refresh_token at_once.redis ≡ some (live i d, w.now + longest))
        × (out.0 ≡ err (plain_error 401))
        × (session w.now i e out.1.redis ≡ none)
        × (session w.now i d in_turn.redis ≡ some (second, w.now + longest))
        × (refresh_service libraries settings body again in_turn ≡ (err (plain_error 401), in_turn))
  login_race body second again i d e w p l differ fresh =
      let first = body.refresh_token in
      let existing = get_session w.now i d w.redis in
      let r1 = execute w.now (creation longest first i d existing) w.redis in
      let r2 = execute w.now (creation longest second i d existing) r1 in
      let q1 = create_refresh_token longest w.now first i d w.redis in
      let q2 = create_refresh_token longest w.now second i d q1 in
      let at_once : World = record w { redis = r2 } in
      let in_turn : World = record w { redis = q2 } in
      let held = creation_session second i d existing w.now r1 p in
      let orphan =
        creation_owner second first i d existing w.now r1 (λ f. differ (sym f))
          (unread i d first w.now w.redis l fresh)
        ∙ creation_own first i d existing w.now w.redis p in
      let out =
        shown_orphan body again second i d (w.now + longest) (w.now + longest) at_once orphan held
          (λ f. differ (sym f)) in
      let session_1 = create_session longest w.now first i d w.redis i d in
      let session_2 = create_session longest w.now second i d q1 i d in
      (
        held,
        orphan,
        ap (λ x. x.0) out,
        ap (λ x. session w.now i e x.1.redis) out
            ∙ ground (arith, revoke_all_session w.now i r2 i e),
        ground (arith, session_2, eq_refl d),
        shown_unknown body again in_turn (
            ground (
              arith,
              create_owner longest w.now second i d q1 first,
              session_1,
              eq_refl d,
              eq_refl first,
              eq_iff second first,
            )),
      )
