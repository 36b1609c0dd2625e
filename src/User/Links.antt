-- ===== src/User/Links.antt =====
-- The two dictionaries of refresh tokens (services/user-service/app/auth.py) agree: what a session
-- holds is a live token of that session, and a live token is what its session holds.
use micro_mart.Shared.{
  ℕ, ◌+◌, ◌≤◌, ◌<◌, ◌≡◌, ap, String, str_eq, eq_iff, eq_refl, true, false, none, some, [], ◌==◌,
  arith, Option-cases, Bool-cases, inl, inr,
}
use micro_mart.Shared.Timed.{look, ttl, look_earlier, look_later}
use micro_mart.User.Tokens.{
  session_eq, Owner, live, Redis, get_session, create_refresh_token, rotate_refresh_token,
  revoke_refresh_token, revoke_all_refresh_tokens, tombstone_ttl, scan_tokens, is_in,
}
use micro_mart.User.Lookups.{
  session, owner, session_law, holds, create_session, create_owner, rotate_session, rotate_owner,
  revoke_session, revoke_owner, revoke_all_session, revoke_all_owner, scanned,
}

pub record IsLinked (longest now : ℕ) (r : Redis) : Type 0 where
  pub held :
      (i : ℕ) (d t : String) (end : ℕ)
      → session now i d r ≡ some (t, end)
      → owner now t r ≡ some (live i d, end)
  pub holding :
      (i : ℕ) (d t : String) (end : ℕ)
      → owner now t r ≡ some (live i d, end)
      → session now i d r ≡ some (t, end)
  pub timely :
      (t : String) (o : Owner) (end : ℕ) → owner now t r ≡ some (o, end) → end ≤ now + longest

pub wait-IsLinked :
    (longest now n : ℕ) (r : Redis) → IsLinked longest now r → IsLinked longest (now + n) r
wait-IsLinked longest now n r l = record {
  held = λ i d t end e.
      let (e', b) = look_earlier session_eq now (now + n) (i, d) r.sessions t end (omega arith) e in
      look_later str_eq now (now + n) t r.tokens (live i d) end (l.held i d t end e') b;
  holding = λ i d t end e.
      let (e', b) = look_earlier str_eq now (now + n) t r.tokens (live i d) end (omega arith) e in
      look_later session_eq now (now + n) (i, d) r.sessions t end (l.holding i d t end e') b;
  timely = λ t o end e.
      let (e', b) = look_earlier str_eq now (now + n) t r.tokens o end (omega arith) e in
      omega (arith, l.timely t o end e');
}

module _ {longest now : ℕ} {r : Redis} (l : IsLinked longest now r) where
  -- What one session holds, no other holds.
  pub unheld :
      (j : ℕ) (device : String) (i : ℕ) (d t : String) (end : ℕ)
      → session now i d r ≡ some (t, end)
      → session_eq (j, device) (i, d) ≡ false
      → holds t (get_session now j device r) ≡ false
  unheld j device i d t end e other = elim (Option-cases (session now j device r)) [
    | inl none_there ↦ ground arith
    | inr ((x, end'), there) ↦ ground (
      arith,
      eq_iff x t,
      l.held i d t end e,
      l.held j device x end' there,
      session_law (j, device) (i, d),
    )
  ]

  pub ttl_bound : (j : ℕ) (device : String) → ttl session_eq now (j, device) r.sessions ≤ longest
  ttl_bound j device = elim (Option-cases (session now j device r)) [
    | inl none_there ↦ ground arith
    | inr ((x, end), there) ↦
        let e = l.held j device x end there in ground (arith, l.timely x (live j device) end e)
  ]

  pub tombstone_ttl_bound :
      (j : ℕ) (device : String) → tombstone_ttl longest now j device r ≤ longest
  tombstone_ttl_bound j device = ground (arith, ttl_bound j device)

module _ (longest now : ℕ) where
  pub create-IsLinked :
      (token : String) (j : ℕ) (device : String) (r : Redis)
      → IsLinked longest now r
      → 0 < longest
      → owner now token r ≡ none
      → IsLinked longest now (create_refresh_token longest now token j device r)
  create-IsLinked token j device r l p fresh = record {
    held = λ i d t end e. ground (
      arith,
      create_session longest now token j device r i d,
      create_owner longest now token j device r t,
      session_law (j, device) (i, d),
      eq_iff token t,
      l.held i d t end,
      unheld l j device i d t end,
    );
    holding = λ i d t end e. ground (
      arith,
      create_session longest now token j device r i d,
      create_owner longest now token j device r t,
      session_law (j, device) (i, d),
      eq_iff token t,
      eq_refl t,
      l.holding i d t end,
    );
    timely =
        λ t o end e. ground (arith, create_owner longest now token j device r t, l.timely t o end);
  }

  pub rotate-IsLinked :
      (token : String) (j : ℕ) (device : String) (r : Redis)
      → IsLinked longest now r
      → 0 < longest
      → owner now token r ≡ none
      → IsLinked longest now (rotate_refresh_token longest now token j device r)
  rotate-IsLinked token j device r l p fresh = record {
    held = λ i d t end e. ground (
      arith,
      rotate_session longest now token j device r i d,
      rotate_owner longest now token j device r t,
      session_law (j, device) (i, d),
      eq_iff token t,
      l.held i d t end,
      unheld l j device i d t end,
    );
    holding = λ i d t end e. ground (
      arith,
      rotate_session longest now token j device r i d,
      rotate_owner longest now token j device r t,
      session_law (j, device) (i, d),
      eq_iff token t,
      eq_refl t,
      l.holding i d t end,
    );
    timely = λ t o end e. ground (
      arith,
      rotate_owner longest now token j device r t,
      l.timely t o end,
      tombstone_ttl_bound l j device,
    );
  }

  pub revoke-IsLinked :
      (j : ℕ) (device : String) (r : Redis)
      → IsLinked longest now r
      → IsLinked longest now (revoke_refresh_token now j device r)
  revoke-IsLinked j device r l = record {
    held = λ i d t end e. ground (
      arith,
      revoke_session now j device r i d,
      revoke_owner now j device r t,
      l.held i d t end,
      unheld l j device i d t end,
    );
    holding = λ i d t end e. ground (
      arith,
      revoke_session now j device r i d,
      revoke_owner now j device r t,
      session_law (j, device) (i, d),
      eq_refl t,
      l.holding i d t end,
    );
    timely = λ t o end e.
        ground (arith, revoke_owner now j device r t, l.timely t o end, ttl_bound l j device);
  }

  unscanned :
      (user_id : ℕ) (r : Redis) (i : ℕ) (d t : String) (end : ℕ)
      → IsLinked longest now r
      → session now i d r ≡ some (t, end)
      → (i == user_id) ≡ false
      → is_in now t (scan_tokens now user_id r.sessions r.sessions) ≡ false
  unscanned user_id r i d t end l e other =
      elim (Bool-cases (is_in now t (scan_tokens now user_id r.sessions r.sessions))) [
        | inr out ↦ out
        | inl scan ↦
            let (device, g) = (scanned now user_id t r).0 scan in
            elim (Option-cases (session now user_id device r)) [
              | inl none_there ↦ absurd (ground arith)
              | inr ((x, end'), there) ↦
                  ground (arith, l.held i d t end e, l.held user_id device x end' there)
            ]
      ]

  pub scanned_own :
      (user_id : ℕ) (r : Redis) (i : ℕ) (d t : String) (end : ℕ)
      → session now i d r ≡ some (t, end)
      → i ≡ user_id
      → is_in now t (scan_tokens now user_id r.sessions r.sessions) ≡ true
  scanned_own user_id r i d t end e same =
      (scanned now user_id t r).1 (d, ground (arith, ap (λ k. session now k d r) same))

  pub revoke_all-IsLinked :
      (user_id : ℕ) (r : Redis)
      → IsLinked longest now r
      → IsLinked longest now (revoke_all_refresh_tokens now user_id r)
  revoke_all-IsLinked user_id r l = record {
    held = λ i d t end e. ground (
      arith,
      revoke_all_session now user_id r i d,
      revoke_all_owner now user_id r t,
      l.held i d t end,
      unscanned user_id r i d t end l,
    );
    holding = λ i d t end e. ground (
      arith,
      revoke_all_session now user_id r i d,
      revoke_all_owner now user_id r t,
      l.holding i d t end,
      scanned_own user_id r i d t end,
    );
    timely = λ t o end e. ground (arith, revoke_all_owner now user_id r t, l.timely t o end);
  }

abbrev pub empty_redis : Redis
empty_redis = record { sessions = []; tokens = [] }

pub empty-IsLinked : (longest now : ℕ) → IsLinked longest now empty_redis
unfolding look
empty-IsLinked longest now = record {
  held = λ i d t end e. absurd (ground arith);
  holding = λ i d t end e. absurd (ground arith);
  timely = λ t o end e. absurd (ground arith);
}
