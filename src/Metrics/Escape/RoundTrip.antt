-- ===== src/Metrics/Escape/RoundTrip.antt =====
-- Labels are read back as they were.
use mathlib.Core.List.{append_assoc}
use pg_monitor.Prelude.{
  ℕ, ◌≡◌, refl, sym, subst, some, [], ◌∷◌, ◌++◌, false, ◌==◌, if◌then◌else◌, All-append, arith,
}
use pg_monitor.Prelude.Text.{Text, newline, quote, backslash, replace, Lacks}
use pg_monitor.Metrics.Escape.{escape_label, reveal, read_label}

-- The three replacements at once, of one character.
unfoldable pub hide : ℕ → Text
hide c =
    if c == backslash
    then backslash ∷ backslash ∷ []
    else if c == newline
    then backslash ∷ 110 ∷ []
    else if c == quote
    then backslash ∷ quote ∷ []
    else c ∷ []

escape_label-cons : (c : ℕ) (s : Text) → escape_label (c ∷ s) ≡ hide c ++ escape_label s
unfolding escape_label replace hide
escape_label-cons c s = ground arith

read_label-hide :
    (c : ℕ) (s a b : Text)
    → read_label false s ≡ some (a, b)
    → read_label false (hide c ++ s) ≡ some (c ∷ a, b)
unfolding read_label hide reveal
read_label-hide c s a b h = ground arith

-- Whatever characters a value has, the reader of the text format reads the escaped value, closed by a quote, as
-- exactly that value, and goes on with exactly what follows the quote.
pub read_label-escape_label :
    (value rest : Text) → read_label false (escape_label value ++ quote ∷ rest) ≡ some (value, rest)
unfolding escape_label replace read_label
read_label-escape_label [] rest = refl
read_label-escape_label (c ∷ value) rest =
    rw (escape_label-cons c value, append_assoc)
      (read_label-hide c (escape_label value ++ quote ∷ rest) value rest
        (read_label-escape_label value rest))

hide-Lacks : (c : ℕ) → Lacks newline (hide c)
unfolding hide
hide-Lacks c = ground arith

pub escape_label-Lacks : (value : Text) → Lacks newline (escape_label value)
unfolding escape_label replace
escape_label-Lacks [] = tt
escape_label-Lacks (c ∷ value) =
    subst (Lacks newline) (sym (escape_label-cons c value))
      (All-append _ (hide c) (escape_label value) (hide-Lacks c) (escape_label-Lacks value))
