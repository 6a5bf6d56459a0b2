-- ===== src/Analytics/Ranking/Top.antt =====
-- What the ranking of query_analytics/service.py returns of the deltas of a period.
use mathlib.Core.Path.{◌≡◌, ◌∙◌, sym, ap, subst, fun_ext}
use pg_monitor.Prelude.{
  ℕ, String, Option, Bool, ◌&&◌, List, [], ◌∷◌, ◌++◌, take, arith, min, true, Perm, length, drop,
  All, filter, length-take, take-append-drop,
}
use pg_monitor.Prelude.Int.{pos, leb_ℤ, ◌≤ℤ◌}
use pg_monitor.Prelude.Order.{IsPreorder, on, lex-IsPreorder, flip-IsPreorder, on-IsPreorder}
use pg_monitor.Prelude.Sort.{
  sort_by, IsSorted, sort_by-perm, sort_by-IsSorted, IsSorted-take, IsSorted-take-drop,
  length-sort_by,
}
use pg_monitor.Prelude.Sort.Filter.{same_class, sort_by_stable}
use pg_monitor.Prelude.Floats.{Floats, leb_ℤ-IsPreorder}
use pg_monitor.Storage.Orm.{QuerySnapshotPoint}
use pg_monitor.Analytics.Models.{QuerySortBy, total_exec_time_ms, calls, PeriodWindow, QueryDelta}
use pg_monitor.Analytics.Delta.{build_query_deltas}
use pg_monitor.Analytics.Ranking.{ranks_before, sort_deltas, build_period_result}

module _ {F : Type 0} ⦃f : Floats F⦄ where
  by_calls : IsPreorder (on (λ (d : QueryDelta F). d.calls_delta) leb_ℤ)
  by_calls = on-IsPreorder (λ d. d.calls_delta) leb_ℤ-IsPreorder

  by_time : IsPreorder (on (λ (d : QueryDelta F). d.total_exec_time_ms_delta) f.le)
  by_time = on-IsPreorder (λ d. d.total_exec_time_ms_delta) f.le-IsPreorder

  ranks_before-IsPreorder : (by : QuerySortBy) → IsPreorder (ranks_before {F = F} by)
  ranks_before-IsPreorder calls = flip-IsPreorder (lex-IsPreorder by_calls by_time)
  ranks_before-IsPreorder total_exec_time_ms = flip-IsPreorder (lex-IsPreorder by_time by_calls)

  -- `a` ranks no lower than `b`: the field that is sorted by is no smaller, and where it is the same in both, nor is
  -- the other one.
  abbrev pub Above : QuerySortBy → QueryDelta F → QueryDelta F → Type 0
  Above calls a b =
      (b.calls_delta ≤ℤ a.calls_delta)
      × (a.calls_delta ≡ b.calls_delta
          → f.le b.total_exec_time_ms_delta a.total_exec_time_ms_delta ≡ true)
  Above total_exec_time_ms a b =
      (f.le b.total_exec_time_ms_delta a.total_exec_time_ms_delta ≡ true)
      × (f.le a.total_exec_time_ms_delta b.total_exec_time_ms_delta ≡ true
          → b.calls_delta ≤ℤ a.calls_delta)

  -- Each delta ranks no lower than those behind it.
  abbrev pub Ranked : QuerySortBy → List (QueryDelta F) → Type 0
  Ranked by [] = Unit
  Ranked by (d ∷ deltas) = All (Above by d) deltas × Ranked by deltas

  ranks_before-Above :
      (by : QuerySortBy) (a b : QueryDelta F) → ranks_before by a b ≡ true → Above by a b
  ranks_before-Above calls a b h = (ground arith, λ e. ground arith)
  ranks_before-Above total_exec_time_ms a b h = (ground arith, λ e. ground arith)

  All-Above :
      (by : QuerySortBy) (a : QueryDelta F) (l : List (QueryDelta F))
      → All (λ b. ranks_before by a b ≡ true) l
      → All (Above by a) l
  All-Above by a [] h = tt
  All-Above by a (b ∷ l) h = (ranks_before-Above by a b h.0, All-Above by a l h.1)

  IsSorted-Ranked :
      (by : QuerySortBy) (l : List (QueryDelta F)) → IsSorted (ranks_before by) l → Ranked by l
  IsSorted-Ranked by [] h = tt
  IsSorted-Ranked by (d ∷ l) h = (All-Above by d l h.0, IsSorted-Ranked by l h.1)

  All-All-Above :
      (by : QuerySortBy) (items others : List (QueryDelta F))
      → All (λ a. All (λ b. ranks_before by a b ≡ true) others) items
      → All (λ a. All (Above by a) others) items
  All-All-Above by [] others h = tt
  All-All-Above by (a ∷ items) others h =
      (All-Above by a others h.0, All-All-Above by items others h.1)

  -- Both fields are the same.
  abbrev pub same_keys : QueryDelta F → QueryDelta F → Bool
  same_keys a b =
      leb_ℤ a.calls_delta b.calls_delta
      && leb_ℤ b.calls_delta a.calls_delta
      && f.le a.total_exec_time_ms_delta b.total_exec_time_ms_delta
      && f.le b.total_exec_time_ms_delta a.total_exec_time_ms_delta

  same_class-same_keys :
      (by : QuerySortBy) (a b : QueryDelta F) → same_class (ranks_before by) a b ≡ same_keys a b
  same_class-same_keys calls a b = ground arith
  same_class-same_keys total_exec_time_ms a b = ground arith

  filter-same_keys :
      (by : QuerySortBy) (d : QueryDelta F) (l : List (QueryDelta F))
      → filter (same_class (ranks_before by) d) l ≡ filter (same_keys d) l
  filter-same_keys by d l = ap (λ p. filter p l) (fun_ext λ a. same_class-same_keys by d a)

  -- The items of a period with limit `n`, with some list of other deltas, are a rearrangement of all deltas; by the
  -- fields that are sorted by, each item ranks no lower than the items behind it and than each delta left out; and
  -- there are `n` of them, or all if there are fewer.
  pub build_period_result-top :
      (db : String) (window : PeriodWindow) (start end : Option (QuerySnapshotPoint F)) (n : ℕ)
      (by : QuerySortBy)
      → let items = (build_period_result db window start end (pos n) by).items in
        let deltas = build_query_deltas start end in
        (others : List (QueryDelta F)) × Perm (items ++ others) deltas
        × Ranked by items
        × All (λ a. All (Above by a) others) items
        × (length items ≡ min n (length deltas))
  unfolding build_period_result sort_deltas
  build_period_result-top db window start end n by =
      let le = ranks_before by in
      let deltas = build_query_deltas start end in
      let sorted = sort_by le deltas in
      let s = sort_by-IsSorted le (ranks_before-IsPreorder by) deltas in
      (
        drop n sorted,
        subst (λ l. Perm l deltas) (sym (take-append-drop n sorted)) (sort_by-perm le deltas),
        IsSorted-Ranked by (take n sorted) (IsSorted-take le n sorted s),
        All-All-Above by (take n sorted) (drop n sorted) (IsSorted-take-drop le n sorted s),
        length-take n sorted ∙ ap (min n) (length-sort_by le deltas),
      )

  -- Sorted deltas are a rearrangement of the deltas in which each ranks no lower than those behind it, by the fields
  -- that are sorted by, and in which those with the same two fields stay in the order of the end snapshot.
  pub sort_deltas-Ranked :
      (by : QuerySortBy) (deltas : List (QueryDelta F))
      → Perm (sort_deltas deltas by) deltas
        × Ranked by (sort_deltas deltas by)
        × ((d : QueryDelta F)
            → filter (same_keys d) (sort_deltas deltas by) ≡ filter (same_keys d) deltas)
  unfolding sort_deltas
  sort_deltas-Ranked by deltas = (
    sort_by-perm (ranks_before by) deltas,
    IsSorted-Ranked by (sort_by (ranks_before by) deltas)
        (sort_by-IsSorted (ranks_before by) (ranks_before-IsPreorder by) deltas),
    λ d.
        sym (filter-same_keys by d (sort_by (ranks_before by) deltas))
        ∙ sort_by_stable (ranks_before by) (ranks_before-IsPreorder by) d deltas
        ∙ filter-same_keys by d deltas,
  )
