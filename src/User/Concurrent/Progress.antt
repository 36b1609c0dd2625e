-- ===== src/User/Concurrent/Progress.antt =====
-- Requests that run at once do not block one another
-- (services/user-service/app/services/auth_service.py, auth.py).
use micro_mart.Shared.{
  ℕ, ◌≡◌, ◌≢◌, refl, String, true, [], ◌∷◌, ◌==◌, Result, arith, Bool-cases, inl, inr, ◌⊎◌,
}
use micro_mart.Shared.Http.{HttpError}
use micro_mart.Shared.Timed.{Timed, ttl}
use micro_mart.User.Table.{TokenResponse, Libraries, get_user_by_email, get_user_by_id}
use micro_mart.User.Tokens.{SessionKey, session_eq, Redis, get_session, get_token}
use micro_mart.User.Service.{Settings}
use micro_mart.User.Concurrent.Commands.{
  Program, answer, ask_session, ask_ttl, ask_token, scan, pipeline, find_email, find_id, clock,
}
use micro_mart.User.Concurrent.Alone.{keys_of}
use micro_mart.User.Concurrent.Steps.{
  are_of, Move, got_session, got_ttl, got_token, scanned, ran, found_email, found_id, read_clock,
  Thread, idle, issuing, leaving, update, System, Step, issue, leave, Reach, here, later,
}

-- The request has its answer.
abbrev pub IsAnswered : Thread → Type 0
IsAnswered idle = ⊥
IsAnswered (issuing p) = (a : Result HttpError TokenResponse) × (p ≡ answer a)
IsAnswered (leaving p) = (a : Result HttpError (Unit {0})) × (p ≡ answer a)

are_of-keys_of : (i : ℕ) (d : Timed SessionKey String) → are_of i (keys_of i d) ≡ true
are_of-keys_of i [] = refl
are_of-keys_of i (((j, x), t, end) ∷ d) = ground (arith, are_of-keys_of i d)

update_same : (n : ℕ) (p : Thread) (threads : ℕ → Thread) → update n p threads n ≡ p
update_same n p threads = ground arith

module _ (libraries : Libraries) (settings : Settings) (t : String) where
  step-Reach :
      {s u v : System}
      → Step libraries settings t s u
      → Reach libraries settings t u v
      → Reach libraries settings t s v
  step-Reach st here = later here st
  step-Reach st (later r st') = later (step-Reach st r) st'

  module _ (n : ℕ) where
    -- What `n` comes to from here, and that no other request has moved.
    abbrev Finished : System → Type 0
    Finished s =
        (v : System) × Reach libraries settings t s v
        × IsAnswered (v.threads n)
        × ((m : ℕ) → (n ≡ m) ⊎ (v.threads m ≡ s.threads m))

    module _ {A : Type 0} (put : Program A → Thread)
        (act : (s : System) (p q : Program A) (r : Redis)
          → s.threads n ≡ put p
          → Move s.world p q r
          → Step libraries settings t s (record {
            world = record s.world { redis = r };
            threads = update n (put q) s.threads;
          }))
        (done : (a : A) → IsAnswered (put (answer a))) where
      moved :
          (s : System) (p q : Program A) (r : Redis)
          → s.threads n ≡ put p
          → Move s.world p q r
          → ((s' : System) → s'.threads n ≡ put q → Finished s')
          → Finished s
      moved s p q r at move h =
          let s' : System = record {
            world = record s.world { redis = r };
            threads = update n (put q) s.threads;
          } in
          let (v, reach, end, others) = h s' (update_same n (put q) s.threads) in
          (
            v,
            step-Reach (act s p q r at move) reach,
            end,
            λ m. elim (Bool-cases (n == m)) [
              | inl e ↦ inl (ground arith)
              | inr e ↦ elim (others m) [ inl f ↦ inl f | inr f ↦ inr (ground arith) ]
            ],
          )

      finish_program : (p : Program A) (s : System) → s.threads n ≡ put p → Finished s
      finish_program (answer a) s at = (s, here, rw at (done a), λ m. inr refl)
      finish_program (ask_session i d k) s at =
          let x = get_session s.world.now i d s.world.redis in
          moved s _ (k x) _ at (got_session i d k) (finish_program (k x))
      finish_program (ask_ttl i d k) s at =
          let x = ttl session_eq s.world.now (i, d) s.world.redis.sessions in
          moved s _ (k x) _ at (got_ttl i d k) (finish_program (k x))
      finish_program (ask_token x k) s at =
          let o = get_token s.world.now x s.world.redis in
          moved s _ (k o) _ at (got_token x k) (finish_program (k o))
      finish_program (scan i k) s at =
          let keys = keys_of i s.world.redis.sessions in
          moved s _ (k keys) _ at (scanned i k keys (are_of-keys_of i s.world.redis.sessions))
            (finish_program (k keys))
      finish_program (pipeline ws p) s at = moved s _ p _ at (ran ws p) (finish_program p)
      finish_program (find_email e k) s at =
          let u = get_user_by_email e s.world.db.users in
          moved s _ (k u) _ at (found_email e k) (finish_program (k u))
      finish_program (find_id i k) s at =
          let u = get_user_by_id i s.world.db.users in
          moved s _ (k u) _ at (found_id i k) (finish_program (k u))
      finish_program (clock k) s at =
          moved s _ (k s.world.now) _ at (read_clock k) (finish_program (k s.world.now))

    finish_thread : (p : Thread) (s : System) → s.threads n ≡ p → p ≢ idle → Finished s
    finish_thread idle s at busy = absurd (busy refl)
    finish_thread (issuing p) s at busy =
        finish_program issuing (λ s p q r e move. issue n e move) (λ a. (a, refl)) p s at
    finish_thread (leaving p) s at busy =
        finish_program leaving (λ s p q r e move. leave n e move) (λ a. (a, refl)) p s at

    -- From whatever system of interleaved requests, a request at work comes to its answer by commands
    -- of its own, and none of the others has moved.
    pub finish_request :
        (s : System)
        → s.threads n ≢ idle
        → (v : System) × Reach libraries settings t s v
          × IsAnswered (v.threads n)
          × ((m : ℕ) → (n ≡ m) ⊎ (v.threads m ≡ s.threads m))
    finish_request s busy = finish_thread (s.threads n) s refl busy
