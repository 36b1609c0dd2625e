-- ===== src/Pins/Laws.antt =====
-- What the check of pinned requirements (scripts/validate_pinned_versions.py) reads and answers.
use micro_mart.Shared.{
  ℕ, suc, ◌≡◌, ◌≤◌, refl, ap, ◌∙◌, ◌↔◌, inl, inr, true, false, none, List, [], ◌∷◌, ◌++◌, ok, err,
  arith, All, Bool-cases, Option-cases, Result-cases,
}
use micro_mart.Shared.Texts.{Text, same}
use micro_mart.Pins.Reading.{
  is_absent, is_tight, is_plain, strip_tight, before_absent, before-append, split_equals_absent,
  pinned, read_line-pinned,
}
use micro_mart.Pins.{
  strip, before, split_equals, has_equals, too_few_values, Unpacking, read_requirement, read_line,
  Pin, iter_pins, Answer, releases, http_error, url_error, value_error, is_project_name, is_one_of,
  pypi_versions, check_answer, failures_of, exit_code, Failure, main,
}

-- A line for each project, with its version and a comment.
abbrev pub lines_of : List (Text × Text × Text) → List Text
lines_of [] = []
lines_of ((p, v, comment) ∷ entries) = (pinned (p, v) ++ 35 ∷ comment) ∷ lines_of entries

abbrev pub numbered : ℕ → List (Text × Text × Text) → List Pin
numbered n [] = []
numbered n ((p, v, comment) ∷ entries) = (n, p, v) ∷ numbered (suc n) entries

abbrev pub IsPlainEntry : Text × Text × Text → Type 0
IsPlainEntry (p, v, comment) = (is_plain p ≡ true) × (is_plain v ≡ true)

iter_pins-lines_of :
    (n : ℕ) (entries : List (Text × Text × Text))
    → All IsPlainEntry entries
    → iter_pins n (lines_of entries) ≡ ok (numbered n entries)
unfolding iter_pins
iter_pins-lines_of n [] h = refl
iter_pins-lines_of n ((p, v, comment) ∷ entries) ((e, f), h) =
    ground (arith, read_line-pinned p v comment e f, iter_pins-lines_of (suc n) entries h)

module _ (pypi : Text → Answer) where
  -- PyPI accepts the name and has the version among the releases that it gives.
  abbrev pub IsPublished : Pin → Type 0
  IsPublished (n, p, v) =
      (is_project_name p ≡ true)
      × ((versions : List Text) × (pypi p ≡ releases versions) × (is_one_of v versions ≡ true))

  check_releases :
      (v : Text) (a : Answer)
      → check_answer pypi v a ≡ none
      → (versions : List Text) × (a ≡ releases versions) × (is_one_of v versions ≡ true)
  check_releases v (releases versions) e = (versions, refl, ground arith)
  check_releases v (http_error code) e = absurd (ground arith)
  check_releases v url_error e = absurd (ground arith)
  check_releases v value_error e = absurd (ground arith)

  check-IsPublished :
      (n : ℕ) (p v : Text)
      → (check_answer pypi v (pypi_versions pypi p) ≡ none) ↔ IsPublished (n, p, v)
  check-IsPublished n p v = (
    λ e. elim (Bool-cases (is_project_name p)) [
      | inl good ↦
          let (versions, a, there) = check_releases v (pypi_versions pypi p) e in
          (good, (versions, ground arith, there))
      | inr bad ↦ absurd (ground arith)
    ],
    λ (good, (versions, a, there)). ground arith,
  )

  failures-IsPublished : (pins : List Pin) → (failures_of pypi pins ≡ []) ↔ All IsPublished pins
  unfolding failures_of
  failures-IsPublished [] = (λ e. tt, λ h. refl)
  failures-IsPublished ((n, p, v) ∷ pins) =
      let (there, back) = check-IsPublished n p v in
      let (each, none_left) = failures-IsPublished pins in
      elim (Option-cases (check_answer pypi v (pypi_versions pypi p))) [
        | inl e ↦ (λ f. (there e, each (ground arith)), λ h. ground (arith, none_left h.1))
        | inr (f, e) ↦ (λ g. absurd (ground arith), λ h. absurd (ground (arith, back h.0)))
      ]

  exit_code-0 :
      (fs : List (Pin × Failure)) → ((exit_code pypi fs ≡ 0) ↔ (fs ≡ [])) × (exit_code pypi fs ≤ 1)
  exit_code-0 [] = ((λ e. refl, λ e. refl), omega arith)
  exit_code-0 (f ∷ fs) = ((λ e. absurd (omega arith), λ e. absurd (ground arith)), omega arith)

  -- In a file of lines `project==version#comment`, where neither text is empty or has a space, `#`, `;`,
  -- `=` or `[`, each line is read as its project and version, with its number; and the script exits
  -- with 0 or 1, with 0 if and only if PyPI accepts every project's name and gives its version, and
  -- reports no failure if and only if that is so.
  pub main-lines_of :
      (entries : List (Text × Text × Text))
      → All IsPlainEntry entries
      → (iter_pins 1 (lines_of entries) ≡ ok (numbered 1 entries))
        × ((code : ℕ) × (failures : List (Pin × Failure)) × (main pypi (lines_of entries)
              ≡ ok (code, failures))
            × (code ≤ 1)
            × ((code ≡ 0) ↔ All IsPublished (numbered 1 entries))
            × ((failures ≡ []) ↔ All IsPublished (numbered 1 entries)))
  unfolding main
  main-lines_of entries h =
      let read = iter_pins-lines_of 1 entries h in
      let failures = failures_of pypi (numbered 1 entries) in
      let (there, back) = failures-IsPublished (numbered 1 entries) in
      let ((zero_there, zero_back), few) = exit_code-0 failures in
      (
        read,
        (
          exit_code pypi failures,
          failures,
          ground arith,
          few,
          (λ e. there (zero_there e), λ all. zero_back (back all)),
          (there, back),
        ),
      )

append_some : (s t : Text) → same (s ++ 59 ∷ t) [] ≡ false
append_some [] t = refl
append_some (c ∷ s) t = refl

-- A requirement whose only `==` is in its marker.
read_requirement_marker :
    (p marker : Text)
    → is_tight p ≡ true
    → is_absent 59 p ≡ true
    → is_absent 61 p ≡ true
    → has_equals (p ++ 59 ∷ marker) ≡ true
    → read_requirement (p ++ 59 ∷ marker) ≡ err too_few_values
unfolding read_requirement
read_requirement_marker p marker tight free plain inside =
    let whole : strip (before 59 (p ++ 59 ∷ marker)) ≡ p =
      ap strip (before-append 59 p marker free) ∙ strip_tight p tight in
    ground (arith, append_some p marker, ap split_equals whole ∙ split_equals_absent p plain)

only_raise : (e : Unpacking) → e ≡ too_few_values
only_raise too_few_values = refl

iter_pins-err :
    (n : ℕ) (before_it after_it : List Text) (l : Text)
    → read_line l ≡ err too_few_values
    → iter_pins n (before_it ++ l ∷ after_it) ≡ err too_few_values
unfolding iter_pins
iter_pins-err n [] ls l e = ground arith
iter_pins-err n (x ∷ xs) ls l e = elim (Result-cases (read_line x)) [
  | inl (found, f) ↦ ground (arith, iter_pins-err (suc n) xs ls l e)
  | inr (raised, f) ↦ ground (arith, only_raise raised)
]

-- If a file has a line `project;marker`, without a comment or spaces around it, that has `==` in its
-- marker only, then the script raises, whatever the other lines are and PyPI answers.
pub main_marker :
    (pypi : Text → Answer) (p marker : Text) (before_it after_it : List Text)
    → is_tight p ≡ true
    → is_absent 59 p ≡ true
    → is_absent 61 p ≡ true
    → has_equals (p ++ 59 ∷ marker) ≡ true
    → is_absent 35 (p ++ 59 ∷ marker) ≡ true
    → strip (p ++ 59 ∷ marker) ≡ p ++ 59 ∷ marker
    → main pypi (before_it ++ (p ++ 59 ∷ marker) ∷ after_it) ≡ err too_few_values
unfolding main
main_marker pypi p marker before_it after_it tight free plain inside bare trim =
    let line = p ++ 59 ∷ marker in
    let raised =
      ap read_requirement (ap strip (before_absent 35 line bare) ∙ trim)
      ∙ read_requirement_marker p marker tight free plain inside in
    ground (arith, iter_pins-err 1 before_it after_it line raised)
