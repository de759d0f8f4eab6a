-- ===== src/Database/Mirror/Events.antt =====
-- The request events of internal/metadata/sqlite_repository.go next to those of
-- internal/metadata/repository.go.
use regstair.Base.{
  ℕ, suc, ℤ, pos, negsuc, ◌+◌, ◌≡◌, refl, ap, ◌∙◌, [], ◌∷◌, ◌++◌, Option, none, filter, Bool, false,
  inl, inr,
}
use regstair.Errors.{ok, ◌>>◌, Result-cases}
use regstair.Sorting.{sort}
use regstair.Effects.{lift, fail, pure, ◌>>=◌}
use regstair.Metadata.Types.{
  Time, RequestEvent, RequestEventFilter, RequestEventQuery, RequestEventPage, RequestEventCursor,
}
use regstair.Metadata.Memory.{Repository, check_context}
use regstair.Metadata.Events as M
use regstair.Database.Tables.{Database, explained, checked, select, change}
use regstair.Database.Events as E
use regstair.Database.Selecting.{select_page, count_where_matching, first_where_event}
use regstair.Database.Summing.{select_summary}
use regstair.Database.Mirror.Relation.{
  Mirrors, Corresponds, Corresponds-subst, no_faults, lift_twice, after_checks,
  after_checks-Corresponds,
}

module _ (db : Database) (r : Repository) (m : Mirrors db r) where
  -- The insertion behind the checks.
  appended : Time → RequestEvent → Repository
  appended now event = record r {
    next_event_id = r.next_event_id + 1;
    events = r.events ++ M.numbered now (r.next_event_id + 1) event ∷ [];
  }

  appended-Mirrors :
      (now : Time) (event : RequestEvent)
      → Mirrors (E.insert_event now event db) (appended now event)
  unfolding appended
  appended-Mirrors now event = record {
    users = m.users;
    keyed = m.keyed;
    agree = record { keyed = m.agree.keyed; owned = m.agree.owned; known = m.agree.known };
    events = λ i. m.events i ++ M.numbered now (m.last i + 1) event ∷ [];
    last = ap (λ n. n + 1) m.last;
    tags = m.tags;
    tags_keyed = m.tags_keyed;
    tags_plain = m.tags_plain;
    provenance = m.provenance;
    bindings = m.bindings;
    bindings_keyed = m.bindings_keyed;
    bindings_plain = m.bindings_plain;
  }

  sql_record :
      (now : Time) (event : RequestEvent)
      → E.record_request_event no_faults none now event db
        ≡ after_checks
            (check_context none >> M.validate_request_event event)
            db
            (ok tt, E.insert_event now event db)
  unfolding E.record_request_event explained change checked
  sql_record now event = lift_twice (check_context none) (M.validate_request_event event) _ db

  memory_record :
      (now : Time) (event : RequestEvent)
      → M.record_request_event none now event r
        ≡ after_checks
            (check_context none >> M.validate_request_event event)
            r
            (ok tt, appended now event)
  unfolding M.record_request_event appended
  memory_record now event = elim (Result-cases (M.validate_request_event event)) [
    | inl (a, e) ↦ rw (M.record_request_event, e) refl
    | inr (f, e) ↦ rw (M.record_request_event, e) refl
  ]

  pub record_request_event-Corresponds :
      (now : Time) (event : RequestEvent)
      → Corresponds
          (E.record_request_event no_faults none now event db)
          (M.record_request_event none now event r)
  record_request_event-Corresponds now event =
      Corresponds-subst (sql_record now event) (memory_record now event) (
        after_checks-Corresponds (check_context none >> M.validate_request_event event) db r _ _ m
          λ valid. (refl, appended-Mirrors now event))

  same_page :
      (query : RequestEventQuery) (limit : ℕ)
      → E.cut_page limit (
          E.limited limit (
            sort (E.event_order query.oldest_first) (
              filter
                (E.where_all (
                  E.cursor_condition query.cursor query.oldest_first
                    (E.filter_conditions query.filter)))
                db.request_events)))
        ≡ M.page_of limit (M.selected query r.events)
  same_page query limit =
      select_page limit query db.request_events
      ∙ ap (λ es. M.page_of limit (M.selected query es)) m.events

  pub query_request_events-Corresponds :
      (wanted : RequestEventFilter) (limit : ℤ) (cursor : Option RequestEventCursor)
      (oldest_first : Bool)
      → Corresponds
          (E.query_request_events no_faults none
            (record {
              filter = wanted;
              limit = limit;
              cursor = cursor;
              oldest_first = oldest_first;
            })
            db)
          (M.query_request_events none
            (record {
              filter = wanted;
              limit = limit;
              cursor = cursor;
              oldest_first = oldest_first;
            })
            r)
  unfolding E.query_request_events M.query_request_events lift fail ◌>>=◌ pure explained select
      checked
  query_request_events-Corresponds wanted (negsuc n) cursor oldest_first = (refl, m)
  query_request_events-Corresponds wanted (pos limit) cursor oldest_first = (
    same_page
        (record {
          filter = wanted;
          limit = pos limit;
          cursor = cursor;
          oldest_first = oldest_first;
        })
        limit,
    m,
  )

  pub list_recent_request_events-Corresponds :
      (limit : ℤ)
      → Corresponds
          (E.list_recent_request_events no_faults none limit db)
          (M.list_recent_request_events none limit r)
  unfolding E.list_recent_request_events M.list_recent_request_events E.query_request_events
      M.query_request_events lift fail ◌>>=◌ pure explained select checked
  list_recent_request_events-Corresponds (negsuc n) = (refl, m)
  list_recent_request_events-Corresponds (pos limit) = (
    ap (λ (page : RequestEventPage). page.events)
        (same_page
          (record { filter = M.no_filter; limit = pos limit; cursor = none; oldest_first = false })
          limit),
    m,
  )

  pub count_request_events-Corresponds :
      (wanted : RequestEventFilter)
      → Corresponds
          (E.count_request_events no_faults wanted db)
          (M.count_request_events none wanted r)
  unfolding E.count_request_events M.count_request_events explained select checked
  count_request_events-Corresponds wanted =
      (count_where_matching wanted db.request_events ∙ ap (M.count_matching wanted) m.events, m)

  pub find_request_event_by_id-Corresponds :
      (n : ℕ)
      → Corresponds
          (E.find_request_event_by_id no_faults (pos (suc n)) db)
          (M.find_request_event_by_id none (pos (suc n)) r)
  unfolding E.find_request_event_by_id M.find_request_event_by_id explained select checked
  find_request_event_by_id-Corresponds n =
      (first_where_event (suc n) db.request_events ∙ ap (M.find_event (suc n)) m.events, m)

  pub summarize_request_events-Corresponds :
      (after : Time)
      → Corresponds
          (E.summarize_request_events no_faults none after db)
          (M.summarize_request_events none after r)
  unfolding E.summarize_request_events M.summarize_request_events lift explained select checked pure
      ◌>>=◌
  summarize_request_events-Corresponds after =
      (select_summary after db.request_events ∙ ap (M.summary_of after) m.events, m)
