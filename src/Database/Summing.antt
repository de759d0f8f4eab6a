-- ===== src/Database/Summing.antt =====
-- The sums and durations that SummarizeRequestEvents of internal/metadata/sqlite_repository.go asks
-- for, and the loop over the events of internal/metadata/repository.go.
use regstair.Base.{
  ℕ, ◌+◌, ◌≡◌, refl, sym, ap, ◌∙◌, ◌&&◌, true, false, not, Option, none, some, List, [], ◌∷◌, ◌==◌,
  nat_eq, arith, ltb, if◌then◌else◌, Bool-cases, inl, inr,
}
use regstair.Strings.{Text, text_eq, text_beq, text_beq_iff, codes}
use regstair.Metadata.Types.{
  Time, RequestEvent, RequestEventSummary, status_error, status_denied, operation_push, cache_hit,
  cache_miss,
}
use regstair.Metadata.Events.{
  one, count_event, count_events, durations_after, summarize_durations, empty_summary, summary_of,
}
use regstair.Database.Tables.{count_where}
use regstair.Database.Events.{Condition, sum_where, select_counts, select_durations, with_durations}
use regstair.Database.Durations.{durations_only}

-- Two summaries field by field.
plus : RequestEventSummary → RequestEventSummary → RequestEventSummary
plus a b = record {
  total = a.total + b.total;
  errors = a.errors + b.errors;
  denied_pushes = a.denied_pushes + b.denied_pushes;
  auth_failures = a.auth_failures + b.auth_failures;
  cache_hits = a.cache_hits + b.cache_hits;
  cache_misses = a.cache_misses + b.cache_misses;
  average = a.average + b.average;
  p95 = a.p95 + b.p95;
}

different : (hit : Text) → (text_beq hit cache_hit) ≡ true → text_beq hit cache_miss ≡ false
unfolding text_beq
different hit h = elim (Bool-cases (text_beq hit cache_miss)) [
  | inr e ↦ e
  | inl e ↦
      let same : cache_hit ≡ cache_miss =
        sym ((text_beq_iff hit cache_hit).0 h) ∙ (text_beq_iff hit cache_miss).0 e in
      absurd (cc)
]

-- Summaries with the same numbers are the same.
same_numbers :
    (a b : RequestEventSummary)
    → a.total ≡ b.total
    → a.errors ≡ b.errors
    → a.denied_pushes ≡ b.denied_pushes
    → a.auth_failures ≡ b.auth_failures
    → a.cache_hits ≡ b.cache_hits
    → a.cache_misses ≡ b.cache_misses
    → a.average ≡ b.average
    → a.p95 ≡ b.p95
    → a ≡ b
same_numbers a b p q r s t u v w = λ i. record {
  total = p i;
  errors = q i;
  denied_pushes = r i;
  auth_failures = s i;
  cache_hits = t i;
  cache_misses = u i;
  average = v i;
  p95 = w i;
}

-- A row adds to a sum as much as the loop adds for the event.
sum_where_row :
    (after : Time) (c : Condition) (e : RequestEvent) (events : List RequestEvent) (n : ℕ)
    → ltb e.timestamp after ≡ false
    → (n + one (c e)) + sum_where after c events ≡ n + sum_where after c (e ∷ events)
unfolding count_where
sum_where_row after c e events n recent = ground (arith, recent)

sum_where_old :
    (after : Time) (c : Condition) (e : RequestEvent) (events : List RequestEvent)
    → ltb e.timestamp after ≡ true
    → sum_where after c (e ∷ events) ≡ sum_where after c events
unfolding count_where
sum_where_old after c e events old = ground (arith, old)

module _ (after : Time) (e : RequestEvent) (events : List RequestEvent)
    (s : RequestEventSummary) where
  old_row :
      ltb e.timestamp after ≡ true
      → plus s (select_counts after events) ≡ plus s (select_counts after (e ∷ events))
  unfolding select_counts plus
  old_row old =
      let unchanged : (c : Condition)
          → (n : ℕ) → n + sum_where after c events ≡ n + sum_where after c (e ∷ events) =
        λ c n. ap (λ k. n + k) (sym (sum_where_old after c e events old)) in
      same_numbers _ _ (unchanged _ _) (unchanged _ _) (unchanged _ _) (unchanged _ _)
        (unchanged _ _) (unchanged _ _) refl refl

  new_row :
      ltb e.timestamp after ≡ false
      → plus (count_event e s) (select_counts after events)
        ≡ plus s (select_counts after (e ∷ events))
  unfolding select_counts plus count_event
  new_row recent =
      let missed : one (not (e.cache_result == cache_hit) && e.cache_result == cache_miss)
          ≡ one (e.cache_result == cache_miss) =
        ground (arith, different e.cache_result) in
      same_numbers _ _ (sum_where_row after _ e events _ recent)
        (sum_where_row after (λ row. row.status == status_error) e events s.errors recent)
        (sum_where_row after (λ row. row.status == status_denied && row.operation == operation_push)
          e events s.denied_pushes recent)
        (sum_where_row after
          (λ row. row.error_classification == codes "upstream_authentication_failed") e events
          s.auth_failures recent)
        (sum_where_row after (λ row. row.cache_result == cache_hit) e events s.cache_hits recent)
        (ap
            (λ n.
              (s.cache_misses + n) + sum_where after (λ row. row.cache_result == cache_miss) events)
            missed
          ∙ sum_where_row after (λ row. row.cache_result == cache_miss) e events s.cache_misses
              recent)
        refl refl

  count_events_old :
      ltb e.timestamp after ≡ true → count_events after (e ∷ events) s ≡ count_events after events s
  unfolding count_events
  count_events_old old = ap (λ b. count_events after events (if b then s else count_event e s)) old

  count_events_new :
      ltb e.timestamp after ≡ false
      → count_events after (e ∷ events) s ≡ count_events after events (count_event e s)
  unfolding count_events
  count_events_new recent =
      ap (λ b. count_events after events (if b then s else count_event e s)) recent

count_events_none :
    (after : Time) (s : RequestEventSummary)
    → count_events after [] s ≡ plus s (select_counts after [])
unfolding count_events select_counts plus count_where
count_events_none after s =
    same_numbers _ _ (ground arith) (ground arith) (ground arith) (ground arith) (ground arith)
      (ground arith) (ground arith) (ground arith)

count_events-select_counts :
    (after : Time) (events : List RequestEvent) (s : RequestEventSummary)
    → count_events after events s ≡ plus s (select_counts after events)
count_events-select_counts after [] s = count_events_none after s
count_events-select_counts after (e ∷ events) s = elim (Bool-cases (ltb e.timestamp after)) [
  | inl old ↦
      count_events_old after e events s old
      ∙ count_events-select_counts after events s
      ∙ old_row after e events s old
  | inr recent ↦
      count_events_new after e events s recent
      ∙ count_events-select_counts after events (count_event e s)
      ∙ new_row after e events s recent
]

counts_only :
    (after : Time) (events : List RequestEvent)
    → select_counts after events ≡ count_events after events empty_summary
unfolding select_counts plus
counts_only after events =
    same_numbers _ (plus empty_summary (select_counts after events)) (ground arith) (ground arith)
      (ground arith) (ground arith) (ground arith) (ground arith) (ground arith) (ground arith)
    ∙ sym (count_events-select_counts after events empty_summary)

finished :
    (after : Time) (events : List RequestEvent) (found : Option (ℕ × ℕ))
    → summarize_durations (durations_after after events) ≡ found
    → with_durations (count_events after events empty_summary) found ≡ summary_of after events
unfolding summary_of
finished after events none h = rw (summary_of, h) refl
finished after events (some pair) h = rw (summary_of, h) refl

-- The sums and durations that are asked for make the summary of the loop.
pub select_summary :
    (after : Time) (events : List RequestEvent)
    → with_durations
        (select_counts after events)
        (summarize_durations (select_durations after events))
      ≡ summary_of after events
select_summary after events =
    ap (with_durations (select_counts after events)) (durations_only after events)
    ∙ ap (λ counts. with_durations counts (summarize_durations (durations_after after events)))
        (counts_only after events)
    ∙ finished after events _ refl
