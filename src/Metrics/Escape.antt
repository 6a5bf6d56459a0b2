-- ===== src/Metrics/Escape.antt =====
-- _escape_label of metrics/prometheus_exporter.py, and a reader of quoted labels as the text format of Prometheus
-- has them.
pub mod RoundTrip
use pg_monitor.Prelude.{
  ℕ, Option, none, some, List, [], ◌∷◌, ◌++◌, Bool, true, false, ◌==◌, if◌then◌else◌,
}
use pg_monitor.Prelude.Text.{Text, newline, quote, backslash, replace}

unfoldable pub escape_label : Text → Text
unfolding replace
escape_label value =
    let escaped = replace backslash (backslash ∷ backslash ∷ []) value in
    let escaped = replace newline (backslash ∷ 110 ∷ []) escaped in
    replace quote (backslash ∷ quote ∷ []) escaped

-- The character that an escape stands for; other escapes are not of the format.
unfoldable pub reveal : ℕ → Option ℕ
reveal c =
    if c == 110
    then some newline
    else if c == backslash
    then some backslash
    else if c == quote
    then some quote
    else none

prepend : Option ℕ → Option (Text × Text) → Option (Text × Text)
prepend none r = none
prepend (some c) none = none
prepend (some c) (some r) = some (c ∷ r.0, r.1)

-- The value up to the closing quote, and what follows it; `escaped` after a backslash. There is none
-- if a line ends, or the text does, before the quote.
unfoldable pub read_label : Bool → Text → Option (Text × Text)
unfolding prepend reveal
read_label escaped [] = none
read_label true (c ∷ s) = prepend (reveal c) (read_label false s)
read_label false (c ∷ s) =
    let after = read_label true s in
    let plain = read_label false s in
    if c == quote
    then some ([], s)
    else if c == backslash
    then after
    else if c == newline
    then none
    else prepend (some c) plain
