-- ===== src/Shared/Texts.antt =====
-- Texts that the program takes apart, as their code points, and Python's operations on them.
-- `lower` and `is_space` are those of bytes and of the characters below 256 that matter here.
use Prim.Native.Char.{code}
use Prim.Native.String.{String}
use Prim.Native.Nat.{ℕ, ◌+◌}
use mathlib.Core.Path.{◌≡◌, refl}
use mathlib.Core.Logic.{◌↔◌}
use mathlib.Core.Bool.{Bool, true, false, ◌&&◌, ◌||◌}
use mathlib.Core.List.{List, [], ◌∷◌, ◌++◌, map}
use mathlib.Core.Option.{Option, none, some}
use native.Mathlib.Omega.{arith}
use micro_mart.Shared.Tests.{if◌then◌else◌, ◌==◌, leb}

abbrev pub Text : Type 0
Text = List ℕ

abbrev pub codes : String → Text
codes String.[] = []
codes (String.◌∷◌ c s) = code c ∷ codes s

abbrev pub same : Text → Text → Bool
same [] [] = true
same [] (b ∷ t) = false
same (a ∷ s) [] = false
same (a ∷ s) (b ∷ t) = a == b && same s t

pub same_law : (s t : Text) → (same s t ≡ true) ↔ (s ≡ t)
same_law [] [] = (λ _. refl, λ _. refl)
same_law [] (b ∷ t) = ground arith
same_law (a ∷ s) [] = ground arith
same_law (a ∷ s) (b ∷ t) = ground (arith, same_law s t)

-- `text.startswith(prefix)`
abbrev pub starts_with : Text → Text → Bool
starts_with s [] = true
starts_with [] (b ∷ t) = false
starts_with (a ∷ s) (b ∷ t) = a == b && starts_with s t

pub starts_with-append : (s t : Text) → starts_with (s ++ t) s ≡ true
starts_with-append [] t = ground arith
starts_with-append (a ∷ s) t = ground (arith, starts_with-append s t)

abbrev pub lower_code : ℕ → ℕ
lower_code c = if leb 65 c && leb c 90 then c + 32 else c

abbrev pub lower : Text → Text
lower = map lower_code

abbrev pub is_space : ℕ → Bool
is_space c = (leb 9 c && leb c 13) || ((leb 28 c && leb c 32) || (c == 133 || c == 160))

abbrev pub skip_spaces : Text → Text
skip_spaces [] = []
skip_spaces (c ∷ s) = if is_space c then skip_spaces s else c ∷ s

-- The part before the first code that passes the test, and the rest from there.
abbrev pub span_until : (ℕ → Bool) → Text → Text × Text
span_until p [] = ([], [])
span_until p (c ∷ s) =
    let rest = span_until p s in if p c then ([], c ∷ s) else (c ∷ rest.0, rest.1)

-- `text.split(None, 1)`: the first word and the rest, none where there are not two parts.
abbrev pub two_parts : Text → Option (Text × Text)
two_parts s =
    let parts = span_until is_space (skip_spaces s) in
    elim (skip_spaces parts.1) [ [] ↦ none | c ∷ rest ↦ some (parts.0, c ∷ rest) ]

-- `text.split("/")` and `"/".join(parts)`
abbrev pub slash : ℕ
slash = 47

abbrev pub onto_first : ℕ → List Text → List Text
onto_first c [] = (c ∷ []) ∷ []
onto_first c (t ∷ ts) = (c ∷ t) ∷ ts

abbrev pub split_slash : Text → List Text
split_slash [] = [] ∷ []
split_slash (c ∷ s) =
    let rest = split_slash s in if c == slash then [] ∷ rest else onto_first c rest

abbrev pub join_slash : List Text → Text
join_slash [] = []
join_slash (t ∷ ts) = let rest = join_slash ts in elim ts [ [] ↦ t | u ∷ us ↦ t ++ (slash ∷ rest) ]
