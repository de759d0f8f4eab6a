-- ===== src/Database/Durations.antt =====
-- The durations that SummarizeRequestEvents of internal/metadata/sqlite_repository.go asks for in their
-- order, and those that the loop of internal/metadata/repository.go collects.
use regstair.Base.{
  ℕ, ◌-◌, ◌/◌, ◌≡◌, refl, sym, ap, ◌∙◌, ◌&&◌, not, Option, none, some, List, [], ◌∷◌, nat_eq, arith,
  ltb, length, filter, map,
}
use regstair.Strings.{text_eq}
use regstair.Sorting.{sort, insert, Sorted, sort-Sorted, length-sort}
use regstair.Metadata.Types.{Time, RequestEvent}
use regstair.Metadata.Percentile.{ltb-IsStrictWeak}
use regstair.Metadata.Events.{sum, get_elem?, durations_after, summarize_durations, p95_rank}
use regstair.Database.Events.{select_durations}

durations_after-map :
    (after : Time) (events : List RequestEvent)
    → durations_after after events
      ≡ map
          (λ (row : RequestEvent). row.duration)
          (filter (λ row. not (ltb row.timestamp after) && ltb 0 row.duration) events)
unfolding durations_after filter
durations_after-map after [] = refl
durations_after-map after (e ∷ events) = ground (arith, durations_after-map after events)

-- Sorting a sorted list changes nothing.
sort-Sorted_same : (xs : List ℕ) → Sorted ltb xs → sort ltb xs ≡ xs
unfolding sort insert
sort-Sorted_same [] h = refl
sort-Sorted_same (x ∷ []) h = refl
sort-Sorted_same (x ∷ y ∷ ys) (behind, h) =
    ap (insert ltb x) (sort-Sorted_same (y ∷ ys) h) ∙ ground (arith, behind.0)

sort-sort : (xs : List ℕ) → sort ltb (sort ltb xs) ≡ sort ltb xs
sort-sort xs = sort-Sorted_same (sort ltb xs) (sort-Sorted ltb ltb-IsStrictWeak xs)

-- The average and the percentile of a sorted list of so many durations.
abbrev of_sorted : List ℕ → ℕ → Option (ℕ × ℕ)
of_sorted sorted n = elim (get_elem? sorted (p95_rank n - 1)) [
  | none ↦ none
  | some p95 ↦ some (sum sorted / n, p95)
]

-- They depend on the sorted durations alone.
same_durations :
    (xs ys : List ℕ)
    → sort ltb xs ≡ sort ltb ys
    → length xs ≡ length ys
    → summarize_durations xs ≡ summarize_durations ys
unfolding summarize_durations
same_durations [] [] same many = refl
same_durations [] (y ∷ ys) same many = absurd (ground (arith, many))
same_durations (x ∷ xs) [] same many = absurd (ground (arith, many))
same_durations (x ∷ xs) (y ∷ ys) same many =
    ap (λ l. of_sorted l (length (x ∷ xs))) same ∙ ap (of_sorted (sort ltb (y ∷ ys))) many

-- The durations may be sorted before.
summarize_durations-sort :
    (xs : List ℕ) → summarize_durations (sort ltb xs) ≡ summarize_durations xs
summarize_durations-sort xs = same_durations (sort ltb xs) xs (sort-sort xs) (length-sort ltb xs)

pub durations_only :
    (after : Time) (events : List RequestEvent)
    → summarize_durations (select_durations after events)
      ≡ summarize_durations (durations_after after events)
unfolding select_durations
durations_only after events =
    summarize_durations-sort _ ∙ ap summarize_durations (sym (durations_after-map after events))
