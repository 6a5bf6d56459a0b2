-- ===== src/Prelude/Dict.antt =====
-- Python's `dict` over keys with `==`: entries in the order of first insertion. An assignment to a
-- key that is there keeps its place.
pub mod Keys
pub mod Entries
use mathlib.Core.Path.{◌≡◌, refl}
use mathlib.Core.Bool.{Bool, true, false, ◌||◌}
use mathlib.Core.Option.{Option, none, some}
use mathlib.Core.List.{List, [], ◌∷◌}
use native.Mathlib.Omega.{arith}
use pg_monitor.Prelude.Tests.{if◌then◌else◌}
use pg_monitor.Prelude.Eq.{Eq, ◌=?◌}

abbrev pub Dict : Type 0 → Type 0 → Type 0
Dict K V = List (K × V)

module _ {K V : Type 0} ⦃e : Eq K⦄ where
  -- `d.get(k)`
  unfoldable pub get : Dict K V → K → Option V
  get [] k = none
  get ((j, v) ∷ d) k = if j =? k then some v else get d k

  -- `d[k] = v`
  unfoldable pub put : Dict K V → K → V → Dict K V
  put [] k v = (k, v) ∷ []
  put ((j, w) ∷ d) k v = if j =? k then (j, v) ∷ d else (j, w) ∷ put d k v

  pub get-put :
      (d : Dict K V) (k j : K) (v : V) → get (put d k v) j ≡ (if k =? j then some v else get d j)
  unfolding get put
  get-put [] k j v = refl
  get-put ((i, w) ∷ d) k j v =
      ground (arith, e.beq_iff k j, e.beq_iff i k, e.beq_iff i j, get-put d k j v)

  -- `{key(x): value(x) for x in xs}`, on top of what is there.
  unfoldable pub put_all {κ} : {X : Type κ} → (X → K) → (X → V) → List X → Dict K V → Dict K V
  put_all key value [] d = d
  put_all key value (x ∷ xs) d = put_all key value xs (put d (key x) (value x))

module _ {K : Type 0} ⦃e : Eq K⦄ where
  unfoldable pub has : List K → K → Bool
  has [] k = false
  has (x ∷ xs) k = (x =? k) || has xs k

  -- `list(dict.fromkeys(xs))`: the distinct elements in order of first occurrence.
  unfoldable pub unique_onto : List K → List K → List K
  unfolding has
  unique_onto seen [] = []
  unique_onto seen (x ∷ xs) = elim (has seen x) [
    | true ↦ unique_onto seen xs
    | false ↦ x ∷ unique_onto (x ∷ seen) xs
  ]

  unfoldable pub unique : List K → List K
  unfolding unique_onto
  unique xs = unique_onto [] xs
