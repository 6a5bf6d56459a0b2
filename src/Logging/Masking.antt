-- ===== src/Logging/Masking.antt =====
-- _mask_secrets and SECRET_PATTERNS of logging/structured.py. A scanner reads at one position of the text: it has
-- what it consumed and what follows. No pattern can match in two ways at one position, since a repeated class
-- never has the character that must follow it.
pub mod Secrets
use pg_monitor.Prelude.{
  ℕ, zero, suc, ◌+◌, ◌-◌, String, Option, none, some, List, [], ◌∷◌, ◌++◌, Bool, true, false, not,
  ◌&&◌, ◌||◌, ◌==◌, if◌then◌else◌, length,
}
use pg_monitor.Prelude.Text.{Text, codes, between, is_space}

-- A character of a pattern in lower case against one of the text, with re.IGNORECASE: i, k and s have the further
-- forms İ and ı, the Kelvin sign, and ſ.
unfoldable pub same_letter : ℕ → ℕ → Bool
same_letter l c =
    c == l
    || between 97 122 l
      && (c + 32 == l
          || l == 105 && between 304 305 c
          || l == 107 && c == 8490
          || l == 115 && c == 383)

abbrev pub push : ℕ → Option (Text × Text) → Option (Text × Text)
push c none = none
push c (some (a, s)) = some (c ∷ a, s)

unfoldable pub literal : Text → Text → Option (Text × Text)
unfolding same_letter
literal [] s = some ([], s)
literal (l ∷ ls) [] = none
literal (l ∷ ls) (c ∷ s) = if same_letter l c then push c (literal ls s) else none

abbrev pub after : Text → Option (Text × Text) → Option (Text × Text)
after a none = none
after a (some (b, s)) = some (a ++ b, s)

abbrev pub then_literal : Text → Option (Text × Text) → Option (Text × Text)
then_literal word none = none
then_literal word (some (a, s)) = after a (literal word s)

abbrev pub or_as_it_was : Text × Text → Option (Text × Text) → Option (Text × Text)
or_as_it_was r none = some r
or_as_it_was r (some r') = some r'

abbrev pub maybe_literal : Text → Option (Text × Text) → Option (Text × Text)
maybe_literal word none = none
maybe_literal word (some (a, s)) = or_as_it_was (a, s) (after a (literal word s))

-- The longest run of characters of a class.
abbrev pub longer : ℕ → Text × Text → Text × Text
longer c (w, s) = (c ∷ w, s)

unfoldable pub span : (ℕ → Bool) → Text → Text × Text
span p [] = ([], [])
span p (c ∷ s) = if p c then longer c (span p s) else ([], c ∷ s)

-- `[^:/\s]`, `[^@/\s]` and `[^,\s]`
unfoldable pub of_user : ℕ → Bool
of_user c = not (c == 58 || c == 47 || is_space c)

unfoldable pub of_password : ℕ → Bool
of_password c = not (c == 64 || c == 47 || is_space c)

unfoldable pub of_value : ℕ → Bool
of_value c = not (c == 44 || is_space c)

abbrev pub stars : Text
stars = 42 ∷ 42 ∷ 42 ∷ []

-- `\1***\3`, and how many characters it is for.
abbrev pub close_dsn : Text → Text × Text → Option (Text × ℕ)
close_dsn kept ([], s) = none
close_dsn kept (c ∷ w, []) = none
close_dsn kept (c ∷ w, x ∷ s) =
    if x == 64 then some (kept ++ (stars ++ 64 ∷ []), length (kept ++ (c ∷ w ++ 64 ∷ []))) else none

abbrev pub after_user : Text → Text × Text → Option (Text × ℕ)
after_user kept ([], s) = none
after_user kept (c ∷ w, []) = none
after_user kept (c ∷ w, x ∷ s) =
    if x == 58 then close_dsn (kept ++ (c ∷ w ++ 58 ∷ [])) (span of_password s) else none

abbrev pub after_scheme : Option (Text × Text) → Option (Text × ℕ)
after_scheme none = none
after_scheme (some (a, s)) = after_user a (span of_user s)

-- SECRET_PATTERNS[0]
unfoldable pub dsn_secret : Text → Option (Text × ℕ)
unfolding literal span of_user of_password
dsn_secret s =
    after_scheme
      (then_literal (codes "://") (maybe_literal (codes "ql") (literal (codes "postgres") s)))

-- The words of the second pattern, in its order.
abbrev pub or_else : Option (Text × Text) → Option (Text × Text) → Option (Text × Text)
or_else (some r) _ = some r
or_else none r = r

unfoldable pub key : Text → Option (Text × Text)
unfolding literal
key s = or_else (literal (codes "password") s) (
    or_else (literal (codes "passwd") s) (
      or_else (literal (codes "pwd") s) (
        or_else (literal (codes "token") s)
          (or_else (literal (codes "secret") s) (then_literal (codes "key") (api s))))))
  where
    -- `api[_-]?`
    api : Text → Option (Text × Text)
    api s =
        or_else (literal (codes "api_") s)
          (or_else (literal (codes "api-") s) (literal (codes "api") s))

-- `\1***`
abbrev pub close_pair : Text → Text × Text → Option (Text × ℕ)
close_pair kept ([], s) = none
close_pair kept (c ∷ w, s) = some (kept ++ stars, length (kept ++ c ∷ w))

abbrev pub after_sign : Text → Text × Text → Option (Text × ℕ)
after_sign kept (blanks, s) = close_pair (kept ++ blanks) (span of_value s)

abbrev pub after_blanks : Text → Text × Text → Option (Text × ℕ)
after_blanks kept (blanks, []) = none
after_blanks kept (blanks, c ∷ s) =
    if c == 61 || c == 58 then after_sign (kept ++ blanks ++ c ∷ []) (span is_space s) else none

abbrev pub after_key : Option (Text × Text) → Option (Text × ℕ)
after_key none = none
after_key (some (a, s)) = after_blanks a (span is_space s)

-- SECRET_PATTERNS[1]
unfoldable pub pair_secret : Text → Option (Text × ℕ)
unfolding key span of_value is_space
pair_secret s = after_key (key s)

-- `pattern.sub(...)`, from the left; `skip` characters are of the last match.
unfoldable pub sub : (Text → Option (Text × ℕ)) → ℕ → Text → Text
sub pattern skip [] = []
sub pattern (suc skip) (c ∷ s) = sub pattern skip s
sub pattern zero (c ∷ s) = elim (pattern (c ∷ s)) [
  | none ↦ c ∷ sub pattern 0 s
  | some m ↦ m.0 ++ sub pattern (m.1 - 1) s
]

unfoldable pub mask_secrets : Text → Text
unfolding sub
mask_secrets value = let masked = sub dsn_secret 0 value in sub pair_secret 0 masked
