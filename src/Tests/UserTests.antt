-- ===== src/Tests/UserTests.antt =====
-- One user of user-service, whose sessions are opened, refreshed and closed.
use micro_mart.Shared.{
  ◌+◌, ◌≡◌, refl, String, str_eq, eq_iff, true, none, some, [], ◌∷◌, ok, err, arith, if◌then◌else◌,
  ltb,
}
use micro_mart.Shared.Http.{plain_error}
use micro_mart.Shared.Texts.{codes}
use micro_mart.Shared.Decimal.{int_from, digits}
use micro_mart.Shared.Timed.{look}
use micro_mart.User.Table.{
  User, LoginRequest, LogoutRequest, RefreshRequest, Libraries, Claims, TokenResponse, Decodes,
}
use micro_mart.User.Tokens.{
  live, create_refresh_token, rotate_refresh_token, verify_refresh_token, revoke_refresh_token,
  get_user_id_from_refresh_token,
}
use micro_mart.User.Service.{
  Settings, World, login, refresh, logout, wait, handle, run, login_service, refresh_service,
  logout_service, check_token, issue_tokens, create_access_token, claims_of,
}
use micro_mart.User.Links.{empty_redis, empty-IsLinked}
use micro_mart.User.Lookups.{session, owner}
use micro_mart.User.Sessions.{IsSound, run-IsSound}
use micro_mart.User.Tombstones.{IsTombstone}
use micro_mart.User.Rotation.{IsLoggedOut}
use micro_mart.User.Replay.{refresh_service_replay, logout_service_replay, refresh_service_race}
use micro_mart.User.Life.{account_life, tokens_for, waited}

abbrev ada : User
ada = record {
  id = 1;
  email = "ada@shop";
  hashed_password = "#pw";
  role = "customer";
  token_version = 0;
  is_active = true;
}

abbrev settings : Settings
settings = record { access_token_expire_minutes = 15; refresh_token_expire_days = 7 }

abbrev ada_claims : Claims
ada_claims = record {
  sub = some (codes "1");
  role = some "customer";
  token_version = 0;
  iat = 1100;
  exp = 2000;
}

-- One token stands for the payload of ada at the time 1100.
abbrev libraries : Libraries
libraries = record {
  hash = λ salt p. "#pw";
  verify = λ p h. str_eq p "pw";
  encode = λ c. "jwt";
  decode = λ now t. if ltb now 2000 then some ada_claims else none;
}

abbrev begin : World
begin = record { db = record { users = ada ∷ []; next_user = 2 }; redis = empty_redis; now = 1000 }

abbrev ada_login : LoginRequest
ada_login = record { email = "ada@shop"; password = "pw"; device = "web" }

begin-IsSound : IsSound settings begin
begin-IsSound = (
  empty-IsLinked 604800 1000,
  record { numbered = (omega arith, tt); distinct = ((refl, refl), tt) },
)

-- After a login.
abbrev logged : World
logged = run libraries settings (login ada_login "t1" ∷ []) begin

run-IsSound_example : IsSound settings logged
unfolding look
run-IsSound_example =
    run-IsSound libraries settings (login ada_login "t1" ∷ []) begin (omega arith) (refl, tt)
      begin-IsSound

abbrev show : String → RefreshRequest
show t = record { refresh_token = t }

t1_live : owner logged.now "t1" logged.redis ≡ some (live 1 "web", 605800)
unfolding look run handle login_service create_refresh_token
t1_live = refl

-- After a refresh of it.
abbrev refreshed : World
refreshed = run libraries settings (refresh (show "t1") "t2" ∷ []) logged

abbrev second_pair : TokenResponse
second_pair = record { access_token = "jwt"; refresh_token = "t2" }

refresh_ok :
    refresh_service libraries settings (show "t1") "t2" logged ≡ (ok second_pair, refreshed)
unfolding look run handle login_service create_refresh_token refresh_service check_token
    issue_tokens create_access_token rotate_refresh_token verify_refresh_token
    get_user_id_from_refresh_token
refresh_ok = refl

t2_unknown : owner logged.now "t2" logged.redis ≡ none
unfolding look run handle login_service create_refresh_token
t2_unknown = refl

waited_now : (run libraries settings (wait 60 ∷ []) refreshed).now ≡ 1060
unfolding look run handle login_service create_refresh_token refresh_service check_token
    issue_tokens create_access_token rotate_refresh_token verify_refresh_token
    get_user_id_from_refresh_token
waited_now = refl

refresh_service_replay_example :
    let out =
      refresh_service libraries settings
        (show "t1")
        "t3"
        (run libraries settings (wait 60 ∷ []) refreshed) in
    (out.0 ≡ err (plain_error 401)) × IsLoggedOut 1 out.1
refresh_service_replay_example =
    refresh_service_replay libraries settings (show "t1") "t2" "t3" logged refreshed second_pair 1
      "web" 605800 (wait 60 ∷ []) (omega arith) run-IsSound_example t2_unknown t1_live refresh_ok
      (tt, tt) (omega (arith, waited_now))

-- After a logout with it.
abbrev logged_out : World
logged_out = run libraries settings (logout (record { refresh_token = "t1" }) "jwt" ∷ []) logged

logout_ok :
    logout_service libraries (record { refresh_token = "t1" }) "jwt" logged ≡ (ok tt, logged_out)
unfolding look run handle login_service create_refresh_token logout_service revoke_refresh_token
    get_user_id_from_refresh_token int_from
logout_ok = refl

out_now : (run libraries settings (wait 60 ∷ []) logged_out).now ≡ 1060
unfolding look run handle login_service create_refresh_token logout_service revoke_refresh_token
    get_user_id_from_refresh_token int_from
out_now = refl

logout_service_replay_example :
    let out =
      refresh_service libraries settings
        (show "t1")
        "t3"
        (run libraries settings (wait 60 ∷ []) logged_out) in
    (session logged.now 1 "web" logged_out.redis ≡ none)
    × ((out.0 ≡ err (plain_error 401)) × IsLoggedOut 1 out.1)
logout_service_replay_example =
    logout_service_replay libraries settings (record { refresh_token = "t1" }) "jwt" "t3" logged
      logged_out 1 "web" 605800 (wait 60 ∷ []) (omega arith) run-IsSound_example t1_live logout_ok
      (tt, tt) (omega (arith, out_now))

issue_ok : issue_tokens libraries settings "t2" 1 "web" logged ≡ (ok second_pair, refreshed)
unfolding look run handle login_service create_refresh_token refresh_service check_token
    issue_tokens create_access_token rotate_refresh_token verify_refresh_token
    get_user_id_from_refresh_token
issue_ok = refl

t3_unknown : owner refreshed.now "t3" refreshed.redis ≡ none
unfolding look run handle login_service create_refresh_token refresh_service check_token
    issue_tokens create_access_token rotate_refresh_token verify_refresh_token
    get_user_id_from_refresh_token
t3_unknown = refl

refresh_service_race_example :
    (check_token (show "t1") logged ≡ (ok (1, "web"), logged))
    × (let second = issue_tokens libraries settings "t3" 1 "web" refreshed in
        (second.0 ≡ ok (record { access_token = "jwt"; refresh_token = "t3" }))
        × (owner logged.now "t3" second.1.redis ≡ some (live 1 "web", logged.now + 604800))
        × (let out = refresh_service libraries settings (show "t2") "t4" second.1 in
            (out.0 ≡ err (plain_error 401)) × IsLoggedOut 1 out.1))
refresh_service_race_example =
    refresh_service_race libraries settings (show "t1") "t2" "t3" "t4" logged refreshed second_pair
      1 "web" 605800 (omega arith) run-IsSound_example t1_live t2_unknown t3_unknown issue_ok

ada-Decodes : Decodes libraries (claims_of libraries settings (1000 + 100) ada)
unfolding digits
ada-Decodes later b = ground arith

account_life_example :
    let login = login_service libraries settings ada_login "t1" begin in
    let refresh =
      refresh_service libraries settings (show "t1") "t2" (waited libraries settings 100 login.1) in
    let access = create_access_token libraries settings (1000 + 100) ada in
    let last : LogoutRequest = record { refresh_token = "t2" } in
    let logout = logout_service libraries last access (waited libraries settings 200 refresh.1) in
    (login.0 ≡ ok (tokens_for libraries settings 1000 ada "t1"))
    × ((refresh.0 ≡ ok (tokens_for libraries settings (1000 + 100) ada "t2"))
        × ((logout.0 ≡ ok tt)
            × ((session (1000 + 100 + 200) 1 "web" logout.1.redis ≡ none)
                × IsTombstone "t2" 1 "web" (1000 + 100 + 604800) logout.1)))
unfolding look
account_life_example =
    account_life libraries settings ada_login 100 200 "t1" "t2" begin ada ada-Decodes (omega arith)
      (omega arith) (omega arith) begin-IsSound refl refl
      (λ e. absurd (ground (arith, eq_iff "t1" "t2"))) refl refl refl
