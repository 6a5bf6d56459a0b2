-- ===== src/Logging/Masking/Secrets.antt =====
-- The masking of the password of a dsn.
use mathlib.Core.List.{append_assoc}
use pg_monitor.Prelude.{
  ℕ, suc, ◌≡◌, refl, sym, ap, ◌∙◌, Option, none, some, [], ◌∷◌, ◌++◌, Bool, true, false, length,
  arith, All,
}
use pg_monitor.Prelude.Text.{Text, codes}
use pg_monitor.Logging.Masking.{
  same_letter, literal, span, longer, of_user, of_password, stars, dsn_secret, pair_secret,
  close_dsn, after_user, sub, mask_secrets,
}

-- A run of a class ends where a character that is not of it follows.
span-run :
    (p : ℕ → Bool) (w : Text) (c : ℕ) (s : Text)
    → All (λ x. p x ≡ true) w
    → p c ≡ false
    → span p (w ++ c ∷ s) ≡ (w, c ∷ s)
unfolding span
span-run p [] c s h e = rw e refl
span-run p (x ∷ w) c s h e = rw h.0 (ap (longer x) (span-run p w c s h.1 e))

-- The characters of a match are skipped.
sub-skip : (f : Text → Option (Text × ℕ)) (w s : Text) → sub f (length w) (w ++ s) ≡ sub f 0 s
unfolding sub
sub-skip f [] [] = refl
sub-skip f [] (c ∷ s) = refl
sub-skip f (x ∷ w) s = sub-skip f w s

sub-matched :
    (f : Text → Option (Text × ℕ)) (c : ℕ) (s out : Text) (n : ℕ)
    → f (c ∷ s) ≡ some (out, suc n)
    → sub f 0 (c ∷ s) ≡ out ++ sub f n s
unfolding sub
sub-matched f c s out n e = rw (e, sub) (ap (λ k. out ++ sub f k s) (omega arith))

sub-unmatched :
    (f : Text → Option (Text × ℕ)) (c : ℕ) (s : Text)
    → f (c ∷ s) ≡ none
    → sub f 0 (c ∷ s) ≡ c ∷ sub f 0 s
unfolding sub
sub-unmatched f c s e = rw (e, sub) refl

-- No dsn starts at a character that is no p.
dsn_secret-none : (c : ℕ) (s : Text) → same_letter 112 c ≡ false → dsn_secret (c ∷ s) ≡ none
unfolding dsn_secret literal
dsn_secret-none c s e = rw e refl

sub-before :
    (before s : Text)
    → All (λ c. same_letter 112 c ≡ false) before
    → sub dsn_secret 0 (before ++ s) ≡ before ++ sub dsn_secret 0 s
sub-before [] s h = refl
sub-before (c ∷ before) s h =
    sub-unmatched dsn_secret c (before ++ s) (dsn_secret-none c (before ++ s) h.0)
    ∙ ap (λ r. c ∷ r) (sub-before before s h.1)

pub data Scheme : Type 0 where
  postgres postgresql : Scheme

unfoldable pub scheme_text : Scheme → Text
scheme_text postgres = codes "postgres://"
scheme_text postgresql = codes "postgresql://"

-- A dsn with the password `c ∷ w`.
abbrev pub dsn : Scheme → Text → Text → Text → Text
dsn scheme user password rest = scheme_text scheme ++ (user ++ 58 ∷ (password ++ 64 ∷ rest))

dsn_secret-user :
    (scheme : Scheme) (s : Text)
    → dsn_secret (scheme_text scheme ++ s) ≡ after_user (scheme_text scheme) (span of_user s)
unfolding dsn_secret literal same_letter scheme_text
dsn_secret-user postgres s = refl
dsn_secret-user postgresql s = refl

-- A match from the front is replaced, and the scan goes on behind it.
sub-match :
    (f : Text → Option (Text × ℕ)) (c : ℕ) (m s out : Text)
    → f ((c ∷ m) ++ s) ≡ some (out, length (c ∷ m))
    → sub f 0 ((c ∷ m) ++ s) ≡ out ++ sub f 0 s
sub-match f c m s out e =
    sub-matched f c (m ++ s) out (length m) e ∙ ap (λ r. out ++ r) (sub-skip f m s)

after_user-match :
    (kept : Text) (u : ℕ) (user : Text) (c : ℕ) (w rest : Text)
    → All (λ x. of_user x ≡ true) (u ∷ user)
    → All (λ x. of_password x ≡ true) (c ∷ w)
    → after_user kept (span of_user ((u ∷ user) ++ 58 ∷ ((c ∷ w) ++ 64 ∷ rest)))
      ≡ some (
        (kept ++ (u ∷ user ++ 58 ∷ [])) ++ (stars ++ 64 ∷ []),
        length ((kept ++ (u ∷ user ++ 58 ∷ [])) ++ (c ∷ w ++ 64 ∷ [])),
      )
unfolding of_user of_password
after_user-match kept u user c w rest hu hw =
    ap (after_user kept) (span-run of_user (u ∷ user) 58 ((c ∷ w) ++ 64 ∷ rest) hu colon)
    ∙ ap (close_dsn (kept ++ (u ∷ user ++ 58 ∷ []))) (span-run of_password (c ∷ w) 64 rest hw at)
  where
    colon : of_user 58 ≡ false
    colon = refl

    at : of_password 64 ≡ false
    at = refl

-- What the first pattern leaves of a dsn.
abbrev pub masked_dsn : Scheme → Text → Text
masked_dsn scheme user = (scheme_text scheme ++ (user ++ 58 ∷ [])) ++ (stars ++ 64 ∷ [])

dsn_eq :
    (scheme : Scheme) (user password rest : Text)
    → (scheme_text scheme ++ (user ++ 58 ∷ [])) ++ (password ++ 64 ∷ []) ++ rest
      ≡ dsn scheme user password rest
dsn_eq scheme user password rest =
    append_assoc (scheme_text scheme ++ (user ++ 58 ∷ [])) (password ++ 64 ∷ []) rest
    ∙ append_assoc (scheme_text scheme) (user ++ 58 ∷ []) (password ++ 64 ∷ [] ++ rest)
    ∙ ap (λ r. scheme_text scheme ++ r)
        (append_assoc user (58 ∷ []) (password ++ 64 ∷ [] ++ rest)
          ∙ ap (λ r. user ++ 58 ∷ r) (append_assoc password (64 ∷ []) rest))

abbrev IsNonempty : Text → Type 0
IsNonempty [] = ⊥
IsNonempty (c ∷ m) = Unit {0}

scheme_text-IsNonempty :
    (scheme : Scheme) (s s' : Text) → IsNonempty ((scheme_text scheme ++ s) ++ s')
unfolding scheme_text
scheme_text-IsNonempty postgres s s' = tt
scheme_text-IsNonempty postgresql s s' = tt

sub-any_match :
    (f : Text → Option (Text × ℕ)) (m s out : Text)
    → IsNonempty m
    → f (m ++ s) ≡ some (out, length m)
    → sub f 0 (m ++ s) ≡ out ++ sub f 0 s
sub-any_match f [] s out n e = elim n [ ]
sub-any_match f (c ∷ m) s out n e = sub-match f c m s out e

sub-dsn :
    (scheme : Scheme) (u : ℕ) (user : Text) (c : ℕ) (w rest : Text)
    → All (λ x. of_user x ≡ true) (u ∷ user)
    → All (λ x. of_password x ≡ true) (c ∷ w)
    → sub dsn_secret 0 (dsn scheme (u ∷ user) (c ∷ w) rest)
      ≡ masked_dsn scheme (u ∷ user) ++ sub dsn_secret 0 rest
sub-dsn scheme u user c w rest hu hw =
    ap (sub dsn_secret 0) (sym parts)
    ∙ sub-any_match dsn_secret ((scheme_text scheme ++ (u ∷ user ++ 58 ∷ [])) ++ (c ∷ w ++ 64 ∷ []))
        rest (masked_dsn scheme (u ∷ user))
        (scheme_text-IsNonempty scheme (u ∷ user ++ 58 ∷ []) (c ∷ w ++ 64 ∷ []))
        (ap dsn_secret parts
          ∙ dsn_secret-user scheme ((u ∷ user) ++ 58 ∷ ((c ∷ w) ++ 64 ∷ rest))
          ∙ after_user-match (scheme_text scheme) u user c w rest hu hw)
  where
    parts :
        (scheme_text scheme ++ (u ∷ user ++ 58 ∷ [])) ++ (c ∷ w ++ 64 ∷ []) ++ rest
        ≡ dsn scheme (u ∷ user) (c ∷ w) rest
    parts = dsn_eq scheme (u ∷ user) (c ∷ w) rest

-- A run of a class that is not empty.
abbrev pub IsRun : (ℕ → Bool) → Text → Type 0
IsRun p [] = ⊥
IsRun p (c ∷ w) = All (λ x. p x ≡ true) (c ∷ w)

-- In a text that has no p before a dsn, the masked text says nothing about the password of the dsn: it is the same
-- with every other password. The user and both passwords are not empty and have only characters that the pattern
-- takes for them; what follows the dsn is any text.
pub mask_secrets-hides :
    (before : Text) (scheme : Scheme) (user password password' rest : Text)
    → All (λ c. same_letter 112 c ≡ false) before
    → IsRun of_user user
    → IsRun of_password password
    → IsRun of_password password'
    → mask_secrets (before ++ dsn scheme user password rest)
      ≡ mask_secrets (before ++ dsn scheme user password' rest)
unfolding mask_secrets
mask_secrets-hides before scheme (u ∷ user) (c ∷ w) (c' ∷ w') rest hb hu hw hw' =
    ap (sub pair_secret 0) (
      sub-before before (dsn scheme (u ∷ user) (c ∷ w) rest) hb
      ∙ ap (λ r. before ++ r)
          (sub-dsn scheme u user c w rest hu hw ∙ sym (sub-dsn scheme u user c' w' rest hu hw'))
      ∙ sym (sub-before before (dsn scheme (u ∷ user) (c' ∷ w') rest) hb))
mask_secrets-hides before scheme [] password _ rest hb hu hw hw' = elim hu [ ]
mask_secrets-hides before scheme (u ∷ user) [] _ rest hb hu hw hw' = elim hw [ ]
mask_secrets-hides before scheme (u ∷ user) (c ∷ w) [] rest hb hu hw hw' = elim hw' [ ]
