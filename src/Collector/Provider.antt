-- ===== src/Collector/Provider.antt =====
-- _build_db_identifier of providers/collector.py: the name under which snapshots are stored. The dsn is read by
-- urlparse, whose answer is an argument.
use pg_monitor.Prelude.{ℕ, zero, suc, Option, none, some, [], ◌∷◌, ◌++◌, ◌==◌}
use pg_monitor.Prelude.Text.{Text, codes, lstrip}
use pg_monitor.Prelude.Text.Decimal.{decimal}

pub record ParseResult : Type 0 where
  pub url_path : Text
  pub hostname : Option Text
  pub port : Option ℕ

-- `x or "unknown"` and `x or 5432`
abbrev pub or_unknown : Text → Text
or_unknown [] = codes "unknown"
or_unknown (c ∷ s) = c ∷ s

abbrev pub host_or_unknown : Option Text → Text
host_or_unknown none = codes "unknown"
host_or_unknown (some host) = or_unknown host

abbrev pub port_or_default : Option ℕ → ℕ
port_or_default none = 5432
port_or_default (some zero) = 5432
port_or_default (some (suc n)) = suc n

unfoldable pub build_db_identifier : ParseResult → Text
unfolding lstrip decimal
build_db_identifier parsed =
    let db_name = or_unknown (lstrip (λ c. c == 47) parsed.url_path) in
    let host = host_or_unknown parsed.hostname in
    let port = port_or_default parsed.port in db_name ++ (64 ∷ (host ++ (58 ∷ decimal port)))
