-- ===== src/User/Concurrent/Avoiding.antt =====
-- What a request that draws another token never does
-- (services/user-service/app/services/auth_service.py, auth.py).
use micro_mart.Shared.{
  ℕ, ◌≡◌, ◌≢◌, refl, String, str_eq, eq_iff, Bool, true, false, not, Option, none, some, List, [],
  ◌∷◌, ◌++◌, map, ◌==◌, ltb, if◌then◌else◌, Result, arith, Bool-cases, inl, inr, ok, err,
}
use micro_mart.Shared.Http.{HttpError, plain_error}
use micro_mart.User.Table.{
  User, LoginRequest, LogoutRequest, RefreshRequest, TokenResponse, Libraries,
}
use micro_mart.User.Tokens.{SessionKey, Owner, live, revoked}
use micro_mart.User.Service.{Settings, seconds, subject}
use micro_mart.User.Concurrent.Commands.{
  delete_session, delete_token, Program, answer, ask_session, ask_ttl, ask_token, scan, pipeline,
  find_email, find_id, clock, creation, rotation, revocation, collect, clear, revoke_stored,
  close_commands, issue_commands, refresh_found, refresh_commands, login_found, login_commands,
  logout_found, logout_commands,
}
use micro_mart.User.Concurrent.Holders.{Withholds}

-- Whatever its commands give, the program gives `t` to no session.
abbrev pub Avoids : {A : Type 0} → String → Program A → Type 0
Avoids t (answer a) = Unit
Avoids t (ask_session i d k) = (x : Option String) → Avoids t (k x)
Avoids t (ask_ttl i d k) = (x : ℕ) → Avoids t (k x)
Avoids t (ask_token s k) = (x : Option Owner) → Avoids t (k x)
Avoids t (scan i k) = (x : List SessionKey) → Avoids t (k x)
Avoids t (pipeline ws p) = Withholds t ws × Avoids t p
Avoids t (find_email e k) = (x : Option User) → Avoids t (k x)
Avoids t (find_id i k) = (x : Option User) → Avoids t (k x)
Avoids t (clock k) = (x : ℕ) → Avoids t (k x)

-- As long as no session holds `t`, the program answers 401 only.
abbrev pub Refuses : {A : Type 0} → String → Program (Result HttpError A) → Type 0
Refuses t (answer a) = a ≡ err (plain_error 401)
Refuses t (ask_session i d k) = (x : Option String) → x ≢ some t → Refuses t (k x)
Refuses t (ask_ttl i d k) = (x : ℕ) → Refuses t (k x)
Refuses t (ask_token s k) = (x : Option Owner) → Refuses t (k x)
Refuses t (scan i k) = (x : List SessionKey) → Refuses t (k x)
Refuses t (pipeline ws p) = Refuses t p
Refuses t (find_email e k) = (x : Option User) → Refuses t (k x)
Refuses t (find_id i k) = (x : Option User) → Refuses t (k x)
Refuses t (clock k) = (x : ℕ) → Refuses t (k x)

branch : {X : Type 0} (P : X → Type 0) {x y : X} (b : Bool) → P x → P y → P (if b then x else y)
branch P true p q = p
branch P false p q = q

module _ (t : String) where
  creation-Withholds :
      (expire : ℕ) (token : String) (i : ℕ) (d : String) (existing : Option String)
      → token ≢ t
      → Withholds t (creation expire token i d existing)
  creation-Withholds expire token i d none h = (h, tt)
  creation-Withholds expire token i d (some x) h = (h, tt)

  rotation-Withholds :
      (expire : ℕ) (token : String) (i : ℕ) (d : String) (existing : Option String) (n : ℕ)
      → token ≢ t
      → Withholds t (rotation expire token i d existing n)
  rotation-Withholds expire token i d none n h = (h, tt)
  rotation-Withholds expire token i d (some x) n h = (h, tt)

  revocation-Withholds : (i : ℕ) (d stored : String) (n : ℕ) → Withholds t (revocation i d stored n)
  revocation-Withholds i d stored n = elim (Bool-cases (ltb 0 n)) [
    | inl e ↦ rw e tt
    | inr e ↦ rw e tt
  ]

  deletions-Withholds :
      (keys : List SessionKey) (ts : List String)
      → Withholds t (map delete_session keys ++ map delete_token ts)
  deletions-Withholds [] [] = tt
  deletions-Withholds [] (x ∷ ts) = deletions-Withholds [] ts
  deletions-Withholds (k ∷ keys) ts = deletions-Withholds keys ts

  collect-Avoids :
      {A : Type 0} (keys : List SessionKey) (rest : List String → Program A)
      → ((ts : List String) → Avoids t (rest ts))
      → Avoids t (collect keys rest)
  collect-Avoids [] rest h = h []
  collect-Avoids ((i, d) ∷ keys) rest h = λ x.
      collect-Avoids keys (λ ts. rest (elim x [ none ↦ ts | some s ↦ s ∷ ts ]))
        (λ ts. h (elim x [ none ↦ ts | some s ↦ s ∷ ts ]))

  clear-Avoids :
      {A : Type 0} (keys : List SessionKey) (rest : Program A)
      → Avoids t rest
      → Avoids t (clear keys rest)
  clear-Avoids [] rest h = h
  clear-Avoids (k ∷ keys) rest h =
      collect-Avoids (k ∷ keys)
        (λ ts. pipeline (map delete_session (k ∷ keys) ++ map delete_token ts) rest)
        (λ ts. (deletions-Withholds (k ∷ keys) ts, h))

  close-Avoids : (A : Type 0) (i : ℕ) → Avoids t (close_commands {A = A} i)
  close-Avoids A i = λ keys. clear-Avoids keys (answer (err (plain_error 401))) tt

  collect-Refuses :
      {A : Type 0} (keys : List SessionKey) (rest : List String → Program (Result HttpError A))
      → ((ts : List String) → Refuses t (rest ts))
      → Refuses t (collect keys rest)
  collect-Refuses [] rest h = h []
  collect-Refuses ((i, d) ∷ keys) rest h = λ x o.
      collect-Refuses keys (λ ts. rest (elim x [ none ↦ ts | some s ↦ s ∷ ts ]))
        (λ ts. h (elim x [ none ↦ ts | some s ↦ s ∷ ts ]))

  clear-Refuses :
      {A : Type 0} (keys : List SessionKey) (rest : Program (Result HttpError A))
      → Refuses t rest
      → Refuses t (clear keys rest)
  clear-Refuses [] rest h = h
  clear-Refuses (k ∷ keys) rest h =
      collect-Refuses (k ∷ keys)
        (λ ts. pipeline (map delete_session (k ∷ keys) ++ map delete_token ts) rest) (λ ts. h)

  close-Refuses : (A : Type 0) (i : ℕ) → Refuses t (close_commands {A = A} i)
  close-Refuses A i = λ keys. clear-Refuses keys (answer (err (plain_error 401))) refl

  module _ (libraries : Libraries) (settings : Settings) where
    issue-Avoids :
        (token : String) (i : ℕ) (d : String) (u : Option User)
        → token ≢ t
        → Avoids t (issue_commands libraries settings token i d u)
    issue-Avoids token i d none h = tt
    issue-Avoids token i d (some u) h =
        branch (Avoids t) (not u.is_active) tt
          (λ now x n. (rotation-Withholds (seconds settings) token i d x _ h, tt))

    refresh_found-Avoids :
        (shown token : String) (o : Option Owner)
        → token ≢ t
        → Avoids t (refresh_found libraries settings shown token o)
    refresh_found-Avoids shown token none h = tt
    refresh_found-Avoids shown token (some (revoked i d)) h = close-Avoids TokenResponse i
    refresh_found-Avoids shown token (some (live i d)) h = λ x.
        branch (Avoids t) (elim x [ none ↦ false | some s ↦ str_eq s shown ])
          (λ u. issue-Avoids token i d u h) (close-Avoids TokenResponse i)

    pub refresh-Avoids :
        (body : RefreshRequest) (token : String)
        → token ≢ t
        → Avoids t (refresh_commands libraries settings body token)
    unfolding refresh_commands
    refresh-Avoids body token h = λ o. refresh_found-Avoids body.refresh_token token o h

    refresh_found-Refuses :
        (token : String) (o : Option Owner) → Refuses t (refresh_found libraries settings t token o)
    refresh_found-Refuses token none = refl
    refresh_found-Refuses token (some (revoked i d)) = close-Refuses TokenResponse i
    refresh_found-Refuses token (some (live i d)) = λ x o.
        let refused : (elim x [ none ↦ false | some s ↦ str_eq s t ]) ≡ false = not_shown x o in
        rw refused (close-Refuses TokenResponse i)
      where
        not_shown :
            (x : Option String)
            → x ≢ some t
            → (elim x [ none ↦ false | some s ↦ str_eq s t ]) ≡ false
        not_shown none o = refl
        not_shown (some s) o = ground (arith, eq_iff s t)

    login_found-Avoids :
        (body : LoginRequest) (token : String) (u : Option User)
        → token ≢ t
        → Avoids t (login_found libraries settings body token u)
    login_found-Avoids body token none h = tt
    login_found-Avoids body token (some u) h =
        branch (Avoids t) (not (libraries.verify body.password u.hashed_password)) tt (
          branch (Avoids t) (not u.is_active) tt
            (λ now x. (creation-Withholds (seconds settings) token u.id body.device x h, tt)))

    pub login-Avoids :
        (body : LoginRequest) (token : String)
        → token ≢ t
        → Avoids t (login_commands libraries settings body token)
    unfolding login_commands
    login-Avoids body token h = λ u. login_found-Avoids body token u h

    revoke_stored-Avoids :
        (i : ℕ) (d : String) (x : Option String)
        → Avoids t (revoke_stored {A = Result HttpError (Unit {0})} i d (answer (ok tt)) x)
    revoke_stored-Avoids i d none = tt
    revoke_stored-Avoids i d (some s) = λ n. (revocation-Withholds i d s n, tt)

    logout_found-Avoids : (i : ℕ) (o : Option Owner) → Avoids t (logout_found libraries i o)
    logout_found-Avoids i none = tt
    logout_found-Avoids i (some (revoked j d)) = tt
    logout_found-Avoids i (some (live j d)) =
        branch (Avoids t) (not (j == i)) tt (revoke_stored-Avoids i d)

    pub logout-Avoids :
        (body : LogoutRequest) (access_token : String)
        → Avoids t (logout_commands libraries body access_token)
    unfolding logout_commands
    logout-Avoids body access_token =
        λ now. named (subject libraries (libraries.decode now access_token))
      where
        named :
            (s : Option ℕ)
            → Avoids {A = Result HttpError (Unit {0})} t (elim s [
              | none ↦ answer (err (plain_error 401))
              | some i ↦ ask_token body.refresh_token (logout_found libraries i)
            ])
        named none = tt
        named (some i) = logout_found-Avoids i

-- A request that shows a token answers 401 only, as long as no session holds the token.
pub refresh-Refuses :
    (libraries : Libraries) (settings : Settings) (body : RefreshRequest) (token : String)
    → Refuses body.refresh_token (refresh_commands libraries settings body token)
unfolding refresh_commands
refresh-Refuses libraries settings body token =
    λ o. refresh_found-Refuses body.refresh_token libraries settings token o
