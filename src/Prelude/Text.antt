-- ===== src/Prelude/Text.antt =====
-- Python's `str` where the program takes it apart: the list of its code points.
pub mod Decimal
use Prim.Native.Nat.{ℕ}
use Prim.Native.Char.{code}
use Prim.Native.String.{String}
use mathlib.Core.Path.{◌≡◌, refl, ap}
use mathlib.Core.Logic.{◌≢◌}
use mathlib.Core.Bool.{Bool, true, false, ◌&&◌, ◌||◌}
use mathlib.Core.List.{List, [], ◌∷◌, ◌++◌}
use native.Mathlib.Omega.{arith}
use pg_monitor.Prelude.Tests.{leb, ◌==◌, if◌then◌else◌}
use pg_monitor.Prelude.Lists.{All}

abbrev pub Text : Type 0
Text = List ℕ

abbrev pub codes : String → Text
codes String.[] = []
codes (String.◌∷◌ c s) = code c ∷ codes s

abbrev pub newline : ℕ
newline = 10

abbrev pub quote : ℕ
quote = 34

abbrev pub backslash : ℕ
backslash = 92

-- `s.replace(c, to)` of one character
unfoldable pub replace : ℕ → Text → Text → Text
replace c to [] = []
replace c to (x ∷ s) = if x == c then to ++ replace c to s else x ∷ replace c to s

-- `"\n".join(chunks)`
unfoldable pub join_lines : List Text → Text
join_lines [] = []
join_lines (line ∷ []) = line
join_lines (line ∷ next ∷ rest) = line ++ newline ∷ join_lines (next ∷ rest)

-- `c.isspace()`
abbrev pub between : ℕ → ℕ → ℕ → Bool
between low high c = leb low c && leb c high

unfoldable pub is_space : ℕ → Bool
is_space c =
    between 9 13 c
    || between 28 32 c
    || c == 133
    || c == 160
    || c == 5760
    || between 8192 8202 c
    || between 8232 8233 c
    || c == 8239
    || c == 8287
    || c == 12288

abbrev pub is_empty : Text → Bool
is_empty [] = true
is_empty (_ ∷ _) = false

-- `s.lstrip(...)` and `s.rstrip(...)` of the characters of a class
unfoldable pub lstrip : (ℕ → Bool) → Text → Text
lstrip p [] = []
lstrip p (x ∷ s) = if p x then lstrip p s else x ∷ s

-- A character goes in front of what is left of the rest, unless nothing is left and it is of the class.
unfoldable pub keep : Bool → ℕ → Text → Text
keep drops x [] = if drops then [] else x ∷ []
keep drops x (y ∷ rest) = x ∷ y ∷ rest

unfoldable pub rstrip : (ℕ → Bool) → Text → Text
unfolding keep
rstrip p [] = []
rstrip p (x ∷ s) = keep (p x) x (rstrip p s)

-- `s.strip()`
unfoldable pub strip : Text → Text
unfolding lstrip rstrip is_space
strip s = rstrip is_space (lstrip is_space s)

-- The text has no character `c`.
abbrev pub Lacks : ℕ → Text → Type 0
Lacks c = All (λ x. x ≢ c)

-- `s.startswith(start)`
unfoldable pub starts_with : Text → Text → Bool
starts_with [] s = true
starts_with (c ∷ start) [] = false
starts_with (c ∷ start) (x ∷ s) = let rest = starts_with start s in if c == x then rest else false
