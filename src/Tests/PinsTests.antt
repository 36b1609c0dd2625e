-- ===== src/Tests/PinsTests.antt =====
-- Files of pinned requirements.
use micro_mart.Shared.{ℕ, ◌≤◌, ◌≡◌, refl, ◌↔◌, List, [], ◌∷◌, ◌++◌, ok, err, if◌then◌else◌, All}
use micro_mart.Shared.Texts.{Text, codes, same}
use micro_mart.Pins.{iter_pins, Pin, Failure, Answer, releases, http_error, main, too_few_values}
use micro_mart.Pins.Laws.{lines_of, numbered, IsPublished, main-lines_of, main_marker}

abbrev pypi : Text → Answer
pypi name = if same name (codes "fastapi") then releases (codes "1.0" ∷ []) else http_error 404

abbrev entries : List (Text × Text × Text)
entries = (codes "fastapi", codes "1.0", codes " web") ∷ (codes "nats-py", codes "2.7", []) ∷ []

main-lines_of_example :
    (iter_pins 1 (lines_of entries) ≡ ok (numbered 1 entries))
    × ((code : ℕ) × (failures : List (Pin × Failure)) × (main pypi (lines_of entries)
          ≡ ok (code, failures))
        × (code ≤ 1)
        × ((code ≡ 0) ↔ All (IsPublished pypi) (numbered 1 entries))
        × ((failures ≡ []) ↔ All (IsPublished pypi) (numbered 1 entries)))
main-lines_of_example = main-lines_of pypi entries ((refl, refl), ((refl, refl), tt))

main_marker_example :
    main pypi (codes "fastapi==1.0" ∷ (codes "tomli" ++ 59 ∷ codes "python_version=='3.10'") ∷ [])
    ≡ err too_few_values
main_marker_example =
    main_marker pypi (codes "tomli") (codes "python_version=='3.10'") (codes "fastapi==1.0" ∷ []) []
      refl refl refl refl refl refl
