-- ===== src/Pins/Reading.antt =====
-- How the check of pinned requirements reads one line (_iter_pins of
-- scripts/validate_pinned_versions.py).
use micro_mart.Shared.{
  ℕ, ◌≡◌, refl, ap, ◌∙◌, Bool, true, false, ◌&&◌, not, none, some, [], ◌∷◌, ◌++◌, ◌==◌, ok, arith,
}
use micro_mart.Shared.Texts.{Text, same, is_space, skip_spaces}
use micro_mart.Pins.{rstrip, strip, before, split_equals, named_pin, read_requirement, read_line}

abbrev pub is_absent : ℕ → Text → Bool
is_absent c [] = true
is_absent c (d ∷ s) = not (d == c) && is_absent c s

abbrev pub is_tight : Text → Bool
is_tight [] = true
is_tight (d ∷ s) = not (is_space d) && is_tight s

-- No space, `#`, `;`, `=` or `[`, and not empty.
abbrev pub is_plain : Text → Bool
is_plain s =
    not (same s [])
    && (is_tight s && (is_absent 35 s && (is_absent 59 s && (is_absent 61 s && is_absent 91 s))))

rstrip_tight : (s : Text) → is_tight s ≡ true → rstrip s ≡ s
rstrip_tight [] e = refl
rstrip_tight (c ∷ s) e = ground (arith, rstrip_tight s)

skip_tight : (s : Text) → is_tight s ≡ true → skip_spaces s ≡ s
skip_tight [] e = refl
skip_tight (c ∷ s) e = ground arith

pub strip_tight : (s : Text) → is_tight s ≡ true → strip s ≡ s
strip_tight s e = ground (arith, rstrip_tight s e, skip_tight s e)

pub before_absent : (c : ℕ) (s : Text) → is_absent c s ≡ true → before c s ≡ s
before_absent c [] e = refl
before_absent c (d ∷ s) e = ground (arith, before_absent c s)

pub before-append : (c : ℕ) (s t : Text) → is_absent c s ≡ true → before c (s ++ c ∷ t) ≡ s
before-append c [] t e = ground arith
before-append c (d ∷ s) t e = ground (arith, before-append c s t)

pub split_equals_absent : (s : Text) → is_absent 61 s ≡ true → split_equals s ≡ none
split_equals_absent [] e = refl
split_equals_absent (d ∷ s) e = ground (arith, split_equals_absent s)

split_equals-append :
    (s t : Text) → is_absent 61 s ≡ true → split_equals (s ++ 61 ∷ 61 ∷ t) ≡ some (s, t)
split_equals-append [] t e = refl
split_equals-append (d ∷ s) t e = ground (arith, split_equals-append s t)

is_tight-append : (s t : Text) → is_tight s ≡ true → is_tight t ≡ true → is_tight (s ++ t) ≡ true
is_tight-append [] t e f = f
is_tight-append (d ∷ s) t e f = ground (arith, is_tight-append s t)

is_absent-append :
    (c : ℕ) (s t : Text) → is_absent c s ≡ true → is_absent c t ≡ true → is_absent c (s ++ t) ≡ true
is_absent-append c [] t e f = f
is_absent-append c (d ∷ s) t e f = ground (arith, is_absent-append c s t)

-- `project==version#comment`
abbrev pub pinned : Text × Text → Text
pinned (project, version) = project ++ 61 ∷ 61 ∷ version

pinned_absent :
    (c : ℕ) (p v : Text)
    → (c == 61) ≡ false
    → is_absent c p ≡ true
    → is_absent c v ≡ true
    → is_absent c (pinned (p, v)) ≡ true
pinned_absent c p v e f g = is_absent-append c p (61 ∷ 61 ∷ v) f (ground arith)

pinned_some : (p v : Text) → same p [] ≡ false → same (pinned (p, v)) [] ≡ false
pinned_some [] v e = absurd (ground arith)
pinned_some (c ∷ p) v e = refl

read_requirement-pinned :
    (p v : Text)
    → is_plain p ≡ true
    → is_plain v ≡ true
    → read_requirement (pinned (p, v)) ≡ ok (some (p, v))
unfolding read_requirement
read_requirement-pinned p v e f =
    let line = pinned (p, v) in
    let tight : is_tight line ≡ true =
      is_tight-append p (61 ∷ 61 ∷ v) (ground arith) (ground arith) in
    let free : is_absent 59 line ≡ true = pinned_absent 59 p v refl (ground arith) (ground arith) in
    let whole : strip (before 59 line) ≡ line =
      ap strip (before_absent 59 line free) ∙ strip_tight line tight in
    let parts = split_equals-append p v (ground arith) in
    let named : named_pin (p, v) ≡ some (p, v) =
      ground (arith, before_absent 91 p, strip_tight p, strip_tight v) in
    ground (arith, pinned_some p v, whole, ap split_equals whole ∙ parts, parts, named)

pub read_line-pinned :
    (p v comment : Text)
    → is_plain p ≡ true
    → is_plain v ≡ true
    → read_line (pinned (p, v) ++ 35 ∷ comment) ≡ ok (some (p, v))
read_line-pinned p v comment e f =
    let line = pinned (p, v) in
    let free : is_absent 35 line ≡ true = pinned_absent 35 p v refl (ground arith) (ground arith) in
    let tight : is_tight line ≡ true =
      is_tight-append p (61 ∷ 61 ∷ v) (ground arith) (ground arith) in
    ap read_requirement (ap strip (before-append 35 line comment free) ∙ strip_tight line tight)
    ∙ read_requirement-pinned p v e f
