-- ===== src/Storage/Engine.antt =====
-- The driver of the storage engine, storage/session.py.
use pg_monitor.Prelude.{◌++◌, if◌then◌else◌, length, drop, ◌≡◌, refl, inl, inr, Bool-cases}
use pg_monitor.Prelude.Text.{Text, codes, starts_with}

abbrev pub plain_driver : Text
plain_driver = codes "postgresql://"

abbrev pub async_driver : Text
async_driver = codes "postgresql+asyncpg://"

-- The first place of the plain driver is the start, where the test found it.
unfoldable pub normalize_async_driver : Text → Text
unfolding starts_with
normalize_async_driver dsn =
    if starts_with plain_driver dsn then async_driver ++ drop (length plain_driver) dsn else dsn

-- A dsn that has its driver keeps it.
pub normalize_async_driver_again :
    (dsn : Text) → normalize_async_driver (normalize_async_driver dsn) ≡ normalize_async_driver dsn
unfolding normalize_async_driver starts_with
normalize_async_driver_again dsn = elim (Bool-cases (starts_with plain_driver dsn)) [
  | inl t ↦ rw (t, normalize_async_driver) refl
  | inr f ↦ rw (f, normalize_async_driver) (rw (f, normalize_async_driver) refl)
]
