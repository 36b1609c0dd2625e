-- ===== src/Tests/GatewayTests.antt =====
-- The key cache with keys that are numbers.
use micro_mart.Shared.{ℕ, ◌≡◌, refl, String, Option, none, some, List, [], ◌∷◌, true}
use micro_mart.Gateway.{JwksCache, get_locked, get_public_key, refresh}
use micro_mart.Gateway.Keys.{get_public_key-outage}

abbrev held : JwksCache ℕ
held = record { keys = ("a", 7) ∷ ("b", 8) ∷ []; fetched_at = 100 }

abbrev rotated : List (Option String × ℕ)
rotated = (some "b", 8) ∷ (some "c", 9) ∷ []

c_found : (get_public_key 60 120 (some "c") (some rotated) held).key ≡ some 9
unfolding get_public_key get_locked refresh
c_found = refl

c_asked : (get_public_key 60 120 (some "c") (some rotated) held).asked ≡ true
unfolding get_public_key get_locked refresh
c_asked = refl

get_public_key-outage_example :
    ((get_public_key 60 900 (some "b") none held).key ≡ some 8)
    × ((get_public_key 60 900 (some "b") none held).cache ≡ held)
get_public_key-outage_example = get_public_key-outage 60 900 (some "b") held 8 refl
