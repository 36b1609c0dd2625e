-- ===== src/Tests/ConcurrentTests.antt =====
-- Requests of one user of user-service at once.
use micro_mart.Shared.{
  ◌≡◌, refl, inl, inr, String, str_eq, eq_iff, true, false, none, some, List, [], ◌∷◌, ok, err,
  arith, ◌==◌, Bool-cases,
}
use micro_mart.Shared.Http.{plain_error}
use micro_mart.Shared.Timed.{look}
use micro_mart.User.Table.{
  User, LoginRequest, LogoutRequest, RefreshRequest, Libraries, TokenResponse,
}
use micro_mart.User.Tokens.{session_eq, Redis, live, create_refresh_token, verify_refresh_token}
use micro_mart.User.Service.{Settings, World, refresh_service}
use micro_mart.User.Links.{empty_redis, empty-IsLinked}
use micro_mart.User.Lookups.{session, session_law, owner}
use micro_mart.User.Concurrent.Commands.{
  Write, answer, pipeline, rotation, creation, execute, refresh_commands,
}
use micro_mart.User.Concurrent.Confined.{IsConfined}
use micro_mart.User.Concurrent.Steps.{
  got_session, got_token, scanned, ran, refresh, idle, issuing, started, update, System, begin,
  issue, Reach, here, later,
}
use micro_mart.User.Concurrent.Spent.{IsRefusal, by_refresh, executed, spent_refused}
use micro_mart.User.Concurrent.Logins.{login_race}

abbrev ada : User
ada = record {
  id = 1;
  email = "ada@shop";
  hashed_password = "#pw";
  role = "customer";
  token_version = 0;
  is_active = true;
}

abbrev settings : Settings
settings = record { access_token_expire_minutes = 15; refresh_token_expire_days = 7 }

-- No payload is told from another.
abbrev libraries : Libraries
libraries = record {
  hash = λ salt p. "#pw";
  verify = λ p h. str_eq p "pw";
  encode = λ c. "jwt";
  decode = λ now t. none;
}

abbrev show : String → RefreshRequest
show t = record { refresh_token = t }

abbrev shop : World
shop = record { db = record { users = ada ∷ []; next_user = 2 }; redis = empty_redis; now = 1000 }

abbrev login_body : LoginRequest
login_body = record { email = "ada@shop"; password = "pw"; device = "web" }

abbrev logout_body : LogoutRequest
logout_body = record { refresh_token = "t1" }

login_race_example :
    let first_done = execute 1000 (creation 604800 "t1" 1 "web" none) empty_redis in
    let at_once = record shop {
      redis = execute 1000 (creation 604800 "t2" 1 "web" none) first_done;
    } in
    let in_turn = record shop {
      redis =
          create_refresh_token 604800 1000 "t2" 1 "web"
            (create_refresh_token 604800 1000 "t1" 1 "web" empty_redis);
    } in
    let out = refresh_service libraries settings (show "t1") "t3" at_once in
    (session 1000 1 "web" at_once.redis ≡ some ("t2", 605800))
    × (owner 1000 "t1" at_once.redis ≡ some (live 1 "web", 605800))
    × (out.0 ≡ err (plain_error 401))
    × (session 1000 1 "web" out.1.redis ≡ none)
    × (session 1000 1 "web" in_turn.redis ≡ some ("t2", 605800))
    × (refresh_service libraries settings (show "t1") "t3" in_turn
        ≡ (err (plain_error 401), in_turn))
unfolding look
login_race_example =
    login_race libraries settings (show "t1") "t2" "t3" 1 "web" "web" shop (omega arith)
      (empty-IsLinked 604800 1000) (λ e. ground (arith, eq_iff "t1" "t2")) refl

-- A refresh of t1 has read its session and is about to run its pipeline.
abbrev rotating : List Write
rotating = rotation 604800 "t2" 1 "web" (some "t1") 500

abbrev pair : TokenResponse
pair = record { access_token = "jwt"; refresh_token = "t2" }

abbrev held : Redis
held = record { sessions = ((1, "web"), "t1", 1500) ∷ []; tokens = ("t1", live 1 "web", 1500) ∷ [] }

abbrev about_to : System
about_to = record {
  world = record shop { redis = held };
  threads = update 0 (issuing (pipeline rotating (answer (ok pair)))) (λ n. idle);
}

about_to-IsConfined : IsConfined "t1" (session_eq (1, "web")) about_to
unfolding look
about_to-IsConfined = (
  λ i d e. ground (arith, session_law (1, "web") (i, d), session_law (i, d) (1, "web")),
  λ n. elim (Bool-cases (0 == n)) [
    | inl e ↦ rw e ((λ e. ground (arith, eq_iff "t2" "t1"), tt), tt)
    | inr e ↦ rw e tt
  ],
)

-- The token is shown again.
abbrev shown : System
shown =
    let s = executed 0 rotating (issuing (answer (ok pair))) about_to in
    record s {
      threads = update 1 (started libraries settings (refresh (show "t1") "t3")) s.threads;
    }

shown-Reach :
    Reach libraries settings "t1" (executed 0 rotating (issuing (answer (ok pair))) about_to) shown
shown-Reach =
    later here (begin 1 (refresh (show "t1") "t3") refl (λ e. ground (arith, eq_iff "t3" "t1")))

-- It is a tombstone by now: the sessions are scanned, the one found is read and deleted.
refused :
    (v : System) × Reach libraries settings "t1" shown v
    × (v.threads 1 ≡ issuing (answer (err (plain_error 401))))
unfolding look execute refresh_commands
refused = (
  _,
  later
      (later
        (later (later here (issue 1 refl (got_token _ _)))
          (issue 1 refl (scanned _ _ ((1, "web") ∷ []) refl)))
        (issue 1 refl (got_session _ _ _)))
      (issue 1 refl (ran _ _)),
  refl,
)

spent_refused_example :
    (verify_refresh_token refused.0.world.now 1 "t1" "web" refused.0.world.redis ≡ false)
    × IsRefusal (refused.0.threads 1)
    × ((z : System) × Reach libraries settings "t1" refused.0 z
        × (z.threads 1 ≡ issuing (answer (err (plain_error 401)))))
spent_refused_example =
    spent_refused libraries settings (show "t1") "t3" 1 1 0 1 "web" "web" rotating
      (issuing (answer (ok pair))) about_to-IsConfined here
      (by_refresh 604800 "t2" (some "t1") 500 (answer (ok pair)) refl refl refl) shown-Reach refl
      refused.1
