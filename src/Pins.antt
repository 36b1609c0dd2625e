-- ===== src/Pins.antt =====
-- The check that pinned requirements are published (scripts/validate_pinned_versions.py). A file is
-- its lines; PyPI is an argument. A failure is kept as what it reports, not as its text.
pub mod Reading
pub mod Laws
use micro_mart.Shared.{
  ℕ, suc, ◌+◌, Bool, true, false, ◌&&◌, ◌||◌, not, Option, none, some, List, [], ◌∷◌, ◌==◌, leb,
  Result, ok, err, if◌then◌else◌,
}
use micro_mart.Shared.Texts.{Text, same, is_space, skip_spaces, span_until}

-- `text.rstrip()` and `text.strip()`
abbrev pub rstrip : Text → Text
rstrip [] = []
rstrip (c ∷ s) = let rest = rstrip s in if is_space c && same rest [] then [] else c ∷ rest

abbrev pub strip : Text → Text
strip s = skip_spaces (rstrip s)

-- `text.split(character, 1)[0]`
abbrev pub before : ℕ → Text → Text
before c s = (span_until (λ x. x == c) s).0

abbrev pub onto : ℕ → Option (Text × Text) → Option (Text × Text)
onto c none = none
onto c (some (s, t)) = some (c ∷ s, t)

abbrev pub starts_equal : Text → Bool
starts_equal [] = false
starts_equal (c ∷ s) = c == 61

abbrev pub tail : Text → Text
tail [] = []
tail (c ∷ s) = s

-- `text.split("==", 1)`, none where there are not two parts.
abbrev pub split_equals : Text → Option (Text × Text)
split_equals [] = none
split_equals (c ∷ s) =
    let rest = split_equals s in
    if c == 61 && starts_equal s then some ([], tail s) else onto c rest

abbrev pub has_equals : Text → Bool
has_equals s = elim (split_equals s) [ none ↦ false | some parts ↦ true ]

-- The ValueError of `package_part, version = requirement_part.split("==", 1)`.
pub data Unpacking : Type 0 where
  too_few_values : Unpacking

abbrev pub named_pin : Text × Text → Option (Text × Text)
named_pin (project_part, version) =
    let project = strip (before 91 project_part) in
    if not (same project []) && not (same (strip version) [])
    then some (project, strip version)
    else none

-- One line: no pin, a package with its version, or what is raised.
unfoldable pub read_requirement : Text → Result Unpacking (Option (Text × Text))
read_requirement line =
    if same line [] || not (has_equals line)
    then ok none
    else elim (split_equals (strip (before 59 line))) [
      | none ↦ err too_few_values
      | some parts ↦ ok (named_pin parts)
    ]

abbrev pub read_line : Text → Result Unpacking (Option (Text × Text))
read_line raw_line = read_requirement (strip (before 35 raw_line))

abbrev pub Pin : Type 0
Pin = ℕ × Text × Text

abbrev pub with_pin : ℕ → Option (Text × Text) → List Pin → List Pin
with_pin n none pins = pins
with_pin n (some (project, version)) pins = (n, project, version) ∷ pins

-- All pins from line `n` on. What is raised ends the run, whatever was asked of PyPI before it.
unfoldable pub iter_pins : ℕ → List Text → Result Unpacking (List Pin)
iter_pins n [] = ok []
iter_pins n (l ∷ ls) =
    let rest = iter_pins (suc n) ls in
    elim (read_line l) [
      | err e ↦ err e
      | ok found ↦ elim rest [ err e ↦ err e | ok pins ↦ ok (with_pin n found pins) ]
    ]

-- What PyPI's answer comes to: the releases, an HTTPError, a URLError, or no JSON. A timeout while the
-- body is read, which is none of these, is left out.
pub data Answer : Type 0 where
  releases : List Text → Answer
  http_error : ℕ → Answer
  url_error : Answer
  value_error : Answer

pub data Failure : Type 0 where
  lookup_failed : ℕ → Failure
  network_error : Failure
  invalid_value : Failure
  unpublished : Failure

abbrev is_alphanumeric : ℕ → Bool
is_alphanumeric c = (leb 48 c && leb c 57) || ((leb 65 c && leb c 90) || (leb 97 c && leb c 122))

-- Dot, underscore and hyphen.
abbrev is_name_code : ℕ → Bool
is_name_code c = is_alphanumeric c || (c == 46 || (c == 95 || c == 45))

abbrev is_name_rest : Text → Bool
is_name_rest [] = true
is_name_rest (c ∷ s) =
    let rest = is_name_rest s in elim s [ [] ↦ is_alphanumeric c | d ∷ t ↦ is_name_code c && rest ]

-- `_PYPI_PROJECT_NAME.fullmatch(package)`
unfoldable pub is_project_name : Text → Bool
is_project_name [] = false
is_project_name (c ∷ s) = is_alphanumeric c && is_name_rest s

abbrev pub is_one_of : Text → List Text → Bool
is_one_of version [] = false
is_one_of version (v ∷ vs) = if same v version then true else is_one_of version vs

module _ (pypi : Text → Answer) where
  abbrev pub pypi_versions : Text → Answer
  pypi_versions project = if not (is_project_name project) then value_error else pypi project

  -- The body of the loop: what is appended to `failures`.
  abbrev pub check_answer : Text → Answer → Option Failure
  check_answer version (releases versions) =
      if not (is_one_of version versions) then some unpublished else none
  check_answer version (http_error code) = some (lookup_failed code)
  check_answer version url_error = some network_error
  check_answer version value_error = some invalid_value

  unfoldable pub failures_of : List Pin → List (Pin × Failure)
  failures_of [] = []
  failures_of ((n, project, version) ∷ pins) =
      let rest = failures_of pins in
      elim (check_answer version (pypi_versions project)) [
        | none ↦ rest
        | some f ↦ ((n, project, version), f) ∷ rest
      ]

  abbrev pub exit_code : List (Pin × Failure) → ℕ
  exit_code [] = 0
  exit_code (f ∷ fs) = 1

  unfoldable pub main : List Text → Result Unpacking (ℕ × List (Pin × Failure))
  main lines = elim (iter_pins 1 lines) [
    | err e ↦ err e
    | ok pins ↦ ok (exit_code (failures_of pins), failures_of pins)
  ]
