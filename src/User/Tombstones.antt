-- ===== src/User/Tombstones.antt =====
-- Tombstones of refresh tokens (services/user-service/app/auth.py and services/auth_service.py): no
-- operation revives the token.
use micro_mart.Shared.{
  ℕ, ◌+◌, ◌≤◌, ◌<◌, ◌≡◌, sym, subst, String, str_eq, eq_iff, false, none, some, List, [], ◌∷◌,
  arith, Option-cases, Bool-cases, inl, inr,
}
use micro_mart.Shared.Timed.{look_later}
use micro_mart.User.Table.{Libraries}
use micro_mart.User.Tokens.{
  Redis, revoked, create_refresh_token, rotate_refresh_token, get_session, revoke_refresh_token,
  revoke_all_refresh_tokens, scan_tokens, is_in,
}
use micro_mart.User.Service.{
  Settings, World, Event, register, login, refresh, logout, wait, handle, run, seconds,
}
use micro_mart.User.Links.{IsLinked}
use micro_mart.User.Lookups.{
  session, owner, holds, create_owner, rotate_owner, revoke_owner, revoke_all_owner, scanned,
}
use micro_mart.User.Sessions.{
  IsSound, Fresh, FreshRun, handle-IsSound, login_service-redis, refresh_service-redis,
  logout_service-redis,
}

module _ {longest now : ℕ} {r : Redis} (l : IsLinked longest now r) (t d : String) (i end : ℕ)
    (dead : owner now t r ≡ some (revoked i d, end)) where
  unheld_tombstone : (j : ℕ) (device : String) → holds t (get_session now j device r) ≡ false
  unheld_tombstone j device = elim (Option-cases (session now j device r)) [
    | inl none_there ↦ ground arith
    | inr ((x, end'), there) ↦ ground (arith, eq_iff x t, l.held j device x end' there)
  ]

  unscanned_tombstone : (j : ℕ) → is_in now t (scan_tokens now j r.sessions r.sessions) ≡ false
  unscanned_tombstone j =
      elim (Bool-cases (is_in now t (scan_tokens now j r.sessions r.sessions))) [
        | inr out ↦ out
        | inl scan ↦
            let (device, g) = (scanned now j t r).0 scan in
            ground (arith, unheld_tombstone j device, eq_iff t t)
      ]

  pub create-IsTombstone :
      (token : String) (j : ℕ) (device : String)
      → owner now token r ≡ none
      → owner now t (create_refresh_token longest now token j device r) ≡ some (revoked i d, end)
  create-IsTombstone token j device fresh = ground (
    arith,
    create_owner longest now token j device r t,
    unheld_tombstone j device,
    eq_iff token t,
  )

  pub rotate-IsTombstone :
      (token : String) (j : ℕ) (device : String)
      → owner now token r ≡ none
      → owner now t (rotate_refresh_token longest now token j device r) ≡ some (revoked i d, end)
  rotate-IsTombstone token j device fresh = ground (
    arith,
    rotate_owner longest now token j device r t,
    unheld_tombstone j device,
    eq_iff token t,
  )

  pub revoke-IsTombstone :
      (j : ℕ) (device : String)
      → owner now t (revoke_refresh_token now j device r) ≡ some (revoked i d, end)
  revoke-IsTombstone j device =
      ground (arith, revoke_owner now j device r t, unheld_tombstone j device)

  pub revoke_all-IsTombstone :
      (j : ℕ) → owner now t (revoke_all_refresh_tokens now j r) ≡ some (revoked i d, end)
  revoke_all-IsTombstone j = ground (arith, revoke_all_owner now j r t, unscanned_tombstone j)

-- The token is a tombstone of the user's device, until the deadline.
abbrev pub IsTombstone : String → ℕ → String → ℕ → World → Type 0
IsTombstone t i d end w = owner w.now t w.redis ≡ some (revoked i d, end)

module _ (libraries : Libraries) (settings : Settings) where
  handle-now : (e : Event) (w : World) → w.now ≤ (handle libraries settings e w).now
  unfolding handle
  handle-now (register body salt) w = omega arith
  handle-now (login body token) w = elim (login_service-redis libraries settings body token w) [
    | inl e ↦ ground arith
    | inr (u, e) ↦ ground arith
  ]
  handle-now (refresh body token) w = elim (refresh_service-redis libraries settings body token w) [
    | inl (i, e) ↦ ground arith
    | inr (inl e) ↦ ground arith
    | inr (inr (i, d, e)) ↦ ground arith
  ]
  handle-now (logout body access_token) w =
      elim (logout_service-redis libraries settings body access_token w) [
        | inl e ↦ ground arith
        | inr (i, d, e) ↦ ground arith
      ]
  handle-now (wait n) w = omega arith

  handle-IsTombstone :
      (e : Event) (w : World) (t : String) (i : ℕ) (d : String) (end : ℕ)
      → IsSound settings w
      → Fresh e w
      → IsTombstone t i d end w
      → (handle libraries settings e w).now < end
      → IsTombstone t i d end (handle libraries settings e w)
  unfolding handle
  handle-IsTombstone (register body salt) w t i d end l f dead before = dead
  handle-IsTombstone (login body token) w t i d end l f dead before =
      elim (login_service-redis libraries settings body token w) [
        | inl e ↦ subst (IsTombstone t i d end) (sym e) dead
        | inr (u, e) ↦
            subst (IsTombstone t i d end) (sym e)
              (create-IsTombstone l.0 t d i end dead token u.id body.device f)
      ]
  handle-IsTombstone (refresh body token) w t i d end l f dead before =
      elim (refresh_service-redis libraries settings body token w) [
        | inl (j, e) ↦
            subst (IsTombstone t i d end) (sym e) (revoke_all-IsTombstone l.0 t d i end dead j)
        | inr (inl e) ↦ subst (IsTombstone t i d end) (sym e) dead
        | inr (inr (j, device, e)) ↦
            subst (IsTombstone t i d end) (sym e)
              (rotate-IsTombstone l.0 t d i end dead token j device f)
      ]
  handle-IsTombstone (logout body access_token) w t i d end l f dead before =
      elim (logout_service-redis libraries settings body access_token w) [
        | inl e ↦ subst (IsTombstone t i d end) (sym e) dead
        | inr (j, device, e) ↦
            subst (IsTombstone t i d end) (sym e) (revoke-IsTombstone l.0 t d i end dead j device)
      ]
  handle-IsTombstone (wait n) w t i d end l f dead before =
      look_later str_eq w.now (w.now + n) t w.redis.tokens (revoked i d) end dead before

  pub run-now : (es : List Event) (w : World) → w.now ≤ (run libraries settings es w).now
  unfolding run
  run-now [] w = omega arith
  run-now (e ∷ es) w = omega (arith, handle-now e w, run-now es (handle libraries settings e w))

  pub run-IsTombstone :
      (es : List Event) (w : World) (t : String) (i : ℕ) (d : String) (end : ℕ)
      → 0 < seconds settings
      → IsSound settings w
      → FreshRun libraries settings es w
      → IsTombstone t i d end w
      → (run libraries settings es w).now < end
      → IsTombstone t i d end (run libraries settings es w)
  unfolding run
  run-IsTombstone [] w t i d end p l f dead before = dead
  run-IsTombstone (e ∷ es) w t i d end p l (f, g) dead before =
      let w' = handle libraries settings e w in
      run-IsTombstone es w' t i d end p (handle-IsSound libraries settings e w p f l) g
        (handle-IsTombstone e w t i d end l f dead (omega (arith, run-now es w'))) before
