-- ===== src/User/Concurrent/Confined.antt =====
-- What no step of requests that run at once does with a token that none of them draws
-- (services/user-service/app/services/auth_service.py, auth.py).
use micro_mart.Shared.{
  ℕ, ◌≡◌, ◌≢◌, sym, ap, subst, String, Bool, some, ◌==◌, Result, arith, Bool-cases, inl, inr,
}
use micro_mart.Shared.Http.{HttpError}
use micro_mart.User.Table.{Libraries}
use micro_mart.User.Tokens.{SessionKey, Redis}
use micro_mart.User.Service.{Settings, World}
use micro_mart.User.Concurrent.Commands.{Program}
use micro_mart.User.Concurrent.Holders.{IsWithin, nowhere, execute-IsWithin, wait-IsWithin}
use micro_mart.User.Concurrent.Avoiding.{
  Avoids, Refuses, refresh-Avoids, login-Avoids, logout-Avoids,
}
use micro_mart.User.Concurrent.Steps.{
  Move, got_session, got_ttl, got_token, scanned, ran, found_email, found_id, read_clock, Request,
  login, refresh, logout, drawn, Thread, idle, issuing, leaving, started, update, System, Step,
  begin, issue, leave, pass, settle, Reach, here, later,
}

module _ (t : String) where
  Move-Avoids :
      {A : Type 0} {w : World} {p q : Program A} {r : Redis}
      → Move w p q r
      → Avoids t p
      → Avoids t q
  Move-Avoids (got_session i d k) a = a _
  Move-Avoids (got_ttl i d k) a = a _
  Move-Avoids (got_token s k) a = a _
  Move-Avoids (scanned i k keys own) a = a keys
  Move-Avoids (ran ws p) a = a.1
  Move-Avoids (found_email e k) a = a _
  Move-Avoids (found_id i k) a = a _
  Move-Avoids (read_clock k) a = a _

  Move-IsWithin :
      {A : Type 0} {w : World} {p q : Program A} {r : Redis} (test : SessionKey → Bool)
      → Move w p q r
      → Avoids t p
      → IsWithin t test w.now w.redis
      → IsWithin t test w.now r
  Move-IsWithin test (got_session i d k) a h = h
  Move-IsWithin test (got_ttl i d k) a h = h
  Move-IsWithin test (got_token s k) a h = h
  Move-IsWithin test (scanned i k keys own) a h = h
  Move-IsWithin {w} test (ran ws p) a h = execute-IsWithin t test w.now ws w.redis a.0 h
  Move-IsWithin test (found_email e k) a h = h
  Move-IsWithin test (found_id i k) a h = h
  Move-IsWithin test (read_clock k) a h = h

  Move-Refuses :
      {A : Type 0} {w : World} {p q : Program (Result HttpError A)} {r : Redis}
      → Move w p q r
      → IsWithin t nowhere w.now w.redis
      → Refuses t p
      → Refuses t q
  Move-Refuses (got_session i d k) h a = a _ (λ e. absurd (ground (arith, h i d e)))
  Move-Refuses (got_ttl i d k) h a = a _
  Move-Refuses (got_token s k) h a = a _
  Move-Refuses (scanned i k keys own) h a = a keys
  Move-Refuses (ran ws p) h a = a
  Move-Refuses (found_email e k) h a = a _
  Move-Refuses (found_id i k) h a = a _
  Move-Refuses (read_clock k) h a = a _

  abbrev pub ThreadAvoids : Thread → Type 0
  ThreadAvoids idle = Unit
  ThreadAvoids (issuing p) = Avoids t p
  ThreadAvoids (leaving p) = Avoids t p

  -- The sessions that hold `t` are among those of the test, and no request will give `t` to one.
  abbrev pub IsConfined : (SessionKey → Bool) → System → Type 0
  IsConfined test s =
      IsWithin t test s.world.now s.world.redis × ((n : ℕ) → ThreadAvoids (s.threads n))

  pub update-ThreadAvoids :
      (n : ℕ) (p : Thread) (threads : ℕ → Thread)
      → ThreadAvoids p
      → ((m : ℕ) → ThreadAvoids (threads m))
      → (m : ℕ) → ThreadAvoids (update n p threads m)
  update-ThreadAvoids n p threads a h m = elim (Bool-cases (n == m)) [
    | inl e ↦ rw e a
    | inr e ↦ rw e (h m)
  ]

  module _ (libraries : Libraries) (settings : Settings) where
    started-ThreadAvoids :
        (q : Request) → drawn q ≢ some t → ThreadAvoids (started libraries settings q)
    started-ThreadAvoids (login body token) h =
        login-Avoids t libraries settings body token (λ e. h (ap some e))
    started-ThreadAvoids (refresh body token) h =
        refresh-Avoids t libraries settings body token (λ e. h (ap some e))
    started-ThreadAvoids (logout body access_token) h =
        logout-Avoids t libraries settings body access_token

    Step-IsConfined :
        {s s' : System} (test : SessionKey → Bool)
        → Step libraries settings t s s'
        → IsConfined test s
        → IsConfined test s'
    Step-IsConfined {s} test (begin n q free other) (h, a) =
        (h, update-ThreadAvoids n _ s.threads (started-ThreadAvoids q other) a)
    Step-IsConfined {s} test (issue n at move) (h, a) =
        let b = subst ThreadAvoids at (a n) in
        (Move-IsWithin test move b h, update-ThreadAvoids n _ s.threads (Move-Avoids move b) a)
    Step-IsConfined {s} test (leave n at move) (h, a) =
        let b = subst ThreadAvoids at (a n) in
        (Move-IsWithin test move b h, update-ThreadAvoids n _ s.threads (Move-Avoids move b) a)
    Step-IsConfined {s} test (pass seconds) (h, a) =
        (wait-IsWithin t test s.world.now seconds s.world.redis h, a)
    Step-IsConfined test (settle db) (h, a) = (h, a)

    pub Reach-IsConfined :
        {s s' : System} (test : SessionKey → Bool)
        → Reach libraries settings t s s'
        → IsConfined test s
        → IsConfined test s'
    Reach-IsConfined test here c = c
    Reach-IsConfined test (later r st) c = Step-IsConfined test st (Reach-IsConfined test r c)

    -- The request at `n` will answer 401 only.
    abbrev pub Refusing : Thread → Type 0
    Refusing idle = ⊥
    Refusing (issuing p) = Refuses t p
    Refusing (leaving p) = ⊥

    update-Refusing :
        (n m : ℕ) (p : Thread) (threads : ℕ → Thread)
        → (n ≡ m → Refusing p)
        → Refusing (threads m)
        → Refusing (update n p threads m)
    update-Refusing n m p threads a h = elim (Bool-cases (n == m)) [
      | inl e ↦ rw e (a (ground arith))
      | inr e ↦ rw e h
    ]

    Step-Refusing :
        {s s' : System} (m : ℕ)
        → Step libraries settings t s s'
        → IsConfined nowhere s
        → Refusing (s.threads m)
        → Refusing (s'.threads m)
    Step-Refusing {s} m (begin n q free other) c h =
        update-Refusing n m _ s.threads
          (λ e. absurd (subst Refusing free (subst (λ k. Refusing (s.threads k)) (sym e) h))) h
    Step-Refusing {s} m (issue n at move) c h =
        update-Refusing n m _ s.threads
          (λ e.
            Move-Refuses move c.0
              (subst Refusing at (subst (λ k. Refusing (s.threads k)) (sym e) h)))
          h
    Step-Refusing {s} m (leave n at move) c h =
        update-Refusing n m _ s.threads
          (λ e. absurd (subst Refusing at (subst (λ k. Refusing (s.threads k)) (sym e) h))) h
    Step-Refusing m (pass seconds) c h = h
    Step-Refusing m (settle db) c h = h

    pub Reach-Refusing :
        {s s' : System} (m : ℕ)
        → Reach libraries settings t s s'
        → IsConfined nowhere s
        → Refusing (s.threads m)
        → Refusing (s'.threads m)
    Reach-Refusing m here c h = h
    Reach-Refusing m (later r st) c h =
        Step-Refusing m st (Reach-IsConfined nowhere r c) (Reach-Refusing m r c h)
