-- ===== src/Examples/Logging.antt =====
-- Runs of the masking of secrets and of the formatter.
use pg_monitor.Prelude.{◌≡◌, refl, ◌++◌}
use pg_monitor.Prelude.Text.{codes, is_space}
use pg_monitor.Logging.Masking.{
  same_letter, of_user, of_password, dsn_secret, pair_secret, mask_secrets,
}
use pg_monitor.Logging.Masking.Secrets.{postgresql, dsn, mask_secrets-hides}

mask_dsn : mask_secrets (codes "at POSTGRES://u:pw@db and") ≡ codes "at POSTGRES://u:***@db and"
unfolding mask_secrets dsn_secret pair_secret is_space
mask_dsn = refl

mask_pairs :
    mask_secrets (codes "password = a, Api_Key:b pwd") ≡ codes "password = ***, Api_Key:*** pwd"
unfolding mask_secrets dsn_secret pair_secret is_space
mask_pairs = refl

-- With a blank in the place of the password nothing is masked.
mask_nothing : mask_secrets (codes "postgresql://u: @db") ≡ codes "postgresql://u: @db"
unfolding mask_secrets dsn_secret pair_secret is_space
mask_nothing = refl

-- The dsn of SQLAlchemy's driver is none that the first pattern takes.
mask_asyncpg :
    mask_secrets (codes "postgresql+asyncpg://u:pw@db") ≡ codes "postgresql+asyncpg://u:pw@db"
unfolding mask_secrets dsn_secret pair_secret is_space
mask_asyncpg = refl

mask_secrets-hides_example :
    mask_secrets (codes "down: " ++ dsn postgresql (codes "app") (codes "one") (codes "db/main"))
    ≡ mask_secrets
        (codes "down: " ++ dsn postgresql (codes "app") (codes "other") (codes "db/main"))
unfolding same_letter of_user of_password is_space
mask_secrets-hides_example =
    mask_secrets-hides (codes "down: ") postgresql (codes "app") (codes "one") (codes "other")
      (codes "db/main") (refl, (refl, (refl, (refl, (refl, (refl, tt))))))
      (refl, (refl, (refl, tt))) (refl, (refl, (refl, tt)))
      (refl, (refl, (refl, (refl, (refl, tt)))))
