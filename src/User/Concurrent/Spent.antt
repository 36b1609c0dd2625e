-- ===== src/User/Concurrent/Spent.antt =====
-- A refresh token that was spent, while requests run at once
-- (services/user-service/app/services/auth_service.py, auth.py).
use micro_mart.Shared.{
  ◌≢◌, ap, ◌∙◌, ℕ, ◌≡◌, refl, sym, subst, String, str_eq, ltb, eq_iff, true, false, Option, none,
  some, List, Result, arith, Bool-cases, inl, inr, err,
}
use micro_mart.Shared.Http.{HttpError, plain_error}
use micro_mart.User.Table.{RefreshRequest, TokenResponse, Libraries}
use micro_mart.User.Tokens.{SessionKey, session_eq, get_session, verify_refresh_token}
use micro_mart.User.Service.{Settings}
use micro_mart.User.Concurrent.Commands.{
  Write, Program, answer, ask_session, ask_ttl, ask_token, scan, find_email, find_id, clock,
  execute, creation, rotation, revocation, pipeline,
}
use micro_mart.User.Concurrent.Holders.{nowhere, Withholds, narrowed, execute-narrowed}
use micro_mart.User.Concurrent.Avoiding.{Refuses, refresh-Refuses}
use micro_mart.User.Concurrent.Confined.{
  ThreadAvoids, IsConfined, update-ThreadAvoids, Reach-IsConfined, Refusing, Reach-Refusing,
}
use micro_mart.User.Concurrent.Progress.{IsAnswered, finish_request}
use micro_mart.User.Concurrent.Steps.{
  refresh, Thread, issuing, leaving, started, update, System, Reach, idle,
}

-- The pipeline that a request is about to run, and what is left of it: the one of a login on the
-- device, of a refresh for it, or of a logout from it.
pub data IsEnding (i : ℕ) (d : String) (thread : Thread) (ws : List Write) (rest : Thread)
    : Type 0 where
  by_login :
      (expire : ℕ) (token : String) (existing : Option String)
      (p : Program (Result HttpError TokenResponse))
      → thread ≡ issuing (pipeline ws p)
      → ws ≡ creation expire token i d existing
      → rest ≡ issuing p
      → IsEnding i d thread ws rest
  by_refresh :
      (expire : ℕ) (token : String) (existing : Option String) (remaining : ℕ)
      (p : Program (Result HttpError TokenResponse))
      → thread ≡ issuing (pipeline ws p)
      → ws ≡ rotation expire token i d existing remaining
      → rest ≡ issuing p
      → IsEnding i d thread ws rest
  by_logout :
      (stored : String) (remaining : ℕ) (p : Program (Result HttpError (Unit {0})))
      → thread ≡ leaving (pipeline ws p)
      → ws ≡ revocation i d stored remaining
      → rest ≡ leaving p
      → IsEnding i d thread ws rest

abbrev pub executed : ℕ → List Write → Thread → System → System
executed n ws rest s = record {
  world = record s.world { redis = execute s.world.now ws s.world.redis };
  threads = update n rest s.threads;
}

narrowed-creation :
    (i : ℕ) (d : String) (expire : ℕ) (token : String) (existing : Option String) (k : SessionKey)
    → narrowed (session_eq (i, d)) (creation expire token i d existing) k ≡ false
narrowed-creation i d expire token none k = ground arith
narrowed-creation i d expire token (some x) k = ground arith

narrowed-rotation :
    (i : ℕ) (d : String) (expire : ℕ) (token : String) (existing : Option String) (n : ℕ)
    (k : SessionKey)
    → narrowed (session_eq (i, d)) (rotation expire token i d existing n) k ≡ false
narrowed-rotation i d expire token none n k = ground arith
narrowed-rotation i d expire token (some x) n k = ground arith

narrowed-revocation :
    (i : ℕ) (d stored : String) (n : ℕ) (k : SessionKey)
    → narrowed (session_eq (i, d)) (revocation i d stored n) k ≡ false
narrowed-revocation i d stored n k = elim (Bool-cases (ltb 0 n)) [
  | inl e ↦ ground arith
  | inr e ↦ ground arith
]

narrowed-ending :
    {i : ℕ} {d : String} {thread rest : Thread} {ws : List Write} (k : SessionKey)
    → IsEnding i d thread ws rest
    → narrowed (session_eq (i, d)) ws k ≡ false
narrowed-ending {i} {d} k (by_login expire token existing p e f g) =
    rw f (narrowed-creation i d expire token existing k)
narrowed-ending {i} {d} k (by_refresh expire token existing n p e f g) =
    rw f (narrowed-rotation i d expire token existing n k)
narrowed-ending {i} {d} k (by_logout stored n p e f g) = rw f (narrowed-revocation i d stored n k)

ending-ThreadAvoids :
    (t : String) {d : String} {i : ℕ} {thread rest : Thread} {ws : List Write}
    → IsEnding i d thread ws rest
    → ThreadAvoids t thread
    → Withholds t ws × ThreadAvoids t rest
ending-ThreadAvoids t (by_login expire token existing p e f g) a =
    let b = subst (ThreadAvoids t) e a in (b.0, subst (ThreadAvoids t) (sym g) b.1)
ending-ThreadAvoids t (by_refresh expire token existing n p e f g) a =
    let b = subst (ThreadAvoids t) e a in (b.0, subst (ThreadAvoids t) (sym g) b.1)
ending-ThreadAvoids t (by_logout stored n p e f g) a =
    let b = subst (ThreadAvoids t) e a in (b.0, subst (ThreadAvoids t) (sym g) b.1)

-- Once the pipeline has run, no session holds the token.
executed-IsConfined :
    (t d : String) (i n : ℕ) (ws : List Write) (rest : Thread) (s : System)
    → IsEnding i d (s.threads n) ws rest
    → IsConfined t (session_eq (i, d)) s
    → IsConfined t nowhere (executed n ws rest s)
executed-IsConfined t d i n ws rest s ending (h, a) =
    let b = ending-ThreadAvoids t ending (a n) in
    (
      λ j e f. absurd (
          ground (
            arith,
            narrowed-ending (j, e) ending,
            execute-narrowed t (session_eq (i, d)) s.world.now ws s.world.redis b.0 h j e f,
          )),
      update-ThreadAvoids t n rest s.threads b.1 a,
    )

-- A refresh that is under way, or was answered 401.
abbrev IsRefused : Program (Result HttpError TokenResponse) → Type 0
IsRefused (answer a) = a ≡ err (plain_error 401)
IsRefused _ = Unit

abbrev pub IsRefusal : Thread → Type 0
IsRefusal idle = ⊥
IsRefusal (issuing p) = IsRefused p
IsRefusal (leaving p) = ⊥

module _ (t : String) (libraries : Libraries) (settings : Settings) where
  Refusing-IsRefused : (p : Program (Result HttpError TokenResponse)) → Refuses t p → IsRefused p
  Refusing-IsRefused (answer a) h = h
  Refusing-IsRefused (ask_session i d k) h = tt
  Refusing-IsRefused (ask_ttl i d k) h = tt
  Refusing-IsRefused (ask_token x k) h = tt
  Refusing-IsRefused (scan i k) h = tt
  Refusing-IsRefused (pipeline ws p) h = tt
  Refusing-IsRefused (find_email x k) h = tt
  Refusing-IsRefused (find_id i k) h = tt
  Refusing-IsRefused (clock k) h = tt

  Refusing-IsRefusal : (p : Thread) → Refusing t libraries settings p → IsRefusal p
  Refusing-IsRefusal idle h = h
  Refusing-IsRefusal (issuing p) h = Refusing-IsRefused p h
  Refusing-IsRefusal (leaving p) h = h

  busy_Refusing : (p : Thread) → Refusing t libraries settings p → p ≢ idle
  busy_Refusing p h e = subst (Refusing t libraries settings) e h

  Refusing-IsAnswered :
      (p : Thread)
      → Refusing t libraries settings p
      → IsAnswered p
      → p ≡ issuing (answer (err (plain_error 401)))
  Refusing-IsAnswered idle h a = absurd h
  Refusing-IsAnswered (issuing p) h (a, e) =
      ap issuing e ∙ ap (λ x. issuing (answer x)) (subst (Refuses t) e h)
  Refusing-IsAnswered (leaving p) h a = absurd h

module _ (libraries : Libraries) (settings : Settings) where
  -- Let a token be held by the session of one device only, and let no request be about to give it to a
  -- session. However the commands of logins, refreshes and logouts interleave in which it is not drawn
  -- again: once the pipeline of a login on that device, a refresh for it or a logout from it has run,
  -- the token is not verified for any session, and a refresh that shows it and begins after that is
  -- under way or was answered 401, and comes to that answer by commands of its own.
  pub spent_refused :
      (body : RefreshRequest) (token : String) (i j n m : ℕ) (d e : String) (ws : List Write)
      (rest : Thread) {s s' u v : System}
      → IsConfined body.refresh_token (session_eq (i, d)) s
      → Reach libraries settings body.refresh_token s s'
      → IsEnding i d (s'.threads n) ws rest
      → Reach libraries settings body.refresh_token (executed n ws rest s') u
      → u.threads m ≡ started libraries settings (refresh body token)
      → Reach libraries settings body.refresh_token u v
      → (verify_refresh_token v.world.now j body.refresh_token e v.world.redis ≡ false)
        × IsRefusal (v.threads m)
        × ((z : System) × Reach libraries settings body.refresh_token v z
            × (z.threads m ≡ issuing (answer (err (plain_error 401)))))
  unfolding verify_refresh_token
  spent_refused body token i j n m d e ws rest {s'} {u} {v} c r ending r' shown r'' =
      let t = body.refresh_token in
      let over =
        executed-IsConfined t d i n ws rest s' ending
          (Reach-IsConfined t libraries settings (session_eq (i, d)) r c) in
      let at_u = Reach-IsConfined t libraries settings nowhere r' over in
      let at_v = Reach-IsConfined t libraries settings nowhere r'' at_u in
      let refusing = Reach-Refusing t libraries settings m r'' at_u (
        subst (Refusing t libraries settings) (sym shown)
          (refresh-Refuses libraries settings body token)) in
      let (z, reach, done, others) =
        finish_request libraries settings t m v
          (busy_Refusing t libraries settings (v.threads m) refusing) in
      (
        unverified t (get_session v.world.now j e v.world.redis) (at_v.0 j e),
        Refusing-IsRefusal t libraries settings (v.threads m) refusing,
        (
          z,
          reach,
          Refusing-IsAnswered t libraries settings (z.threads m)
              (Reach-Refusing t libraries settings m reach at_v refusing) done,
        ),
      )
    where
      unverified :
          (t : String) (x : Option String)
          → (x ≡ some t → false ≡ true)
          → (elim x [ none ↦ false | some y ↦ str_eq y t ]) ≡ false
      unverified t none h = refl
      unverified t (some y) h = ground (arith, eq_iff y t)
