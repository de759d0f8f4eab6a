-- ===== src/Database/Events.antt =====
-- The request events of internal/metadata/sqlite_repository.go: RecordRequestEvent,
-- QueryRequestEvents, ListRecentRequestEvents, CountRequestEvents, SummarizeRequestEvents and
-- FindRequestEventByID. A condition of a WHERE is a test of a row. What the driver makes of a context
-- that is done is in `Faults`.
use regstair.Base.{
  ℕ, zero, suc, ℤ, pos, negsuc, ◌+◌, ◌&&◌, ◌||◌, Bool, true, false, not, Option, none, some, List,
  [], ◌∷◌, ◌++◌, ◌==◌, nat_eq, ltb, length, take, filter, map, if◌then◌else◌,
}
use regstair.Strings.{Text, text_eq, contains, codes}
use regstair.Errors.{wrap, lit, invalid_record}
use regstair.Effects.{Exec, lift, fail, pure, ◌>>=◌, ◌>>◌}
use regstair.Sorting.{sort}
use regstair.Metadata.Types.{
  Time, is_zero, operation_push, status_denied, status_error, cache_hit, cache_miss, RequestEvent,
  RequestEventFilter, RequestEventCursor, RequestEventQuery, RequestEventPage, RequestEventSummary,
}
use regstair.Metadata.Memory.{Context, check_context}
use regstair.Metadata.Events.{
  validate_request_event, numbered, last_cursor, no_filter, summarize_durations,
}
use regstair.Database.Tables.{Database, Faults, explained, select, change, count_where, first_where}

-- INSERT INTO request_events, whose id is the next of AUTOINCREMENT
abbrev pub insert_event : Time → RequestEvent → Database → Database
insert_event now event db = record db {
  request_events = db.request_events ++ numbered now (db.last_event_id + 1) event ∷ [];
  last_event_id = db.last_event_id + 1;
}

unfoldable pub record_request_event :
    Faults → Context → Time → RequestEvent → Exec Database (Unit {0})
record_request_event faults ctx now event = do
  lift (check_context ctx)
  lift (validate_request_event event)
  explained (lit "insert request event" ∷ []) (change faults (insert_event now event))

abbrev pub Condition : Type 0
Condition = RequestEvent → Bool

-- if asked { addCondition(condition) }
abbrev pub add_condition : Bool → Condition → List Condition → List Condition
add_condition asked condition conditions =
    if asked then conditions ++ condition ∷ [] else conditions

-- A filter's field that is not empty asks for it.
abbrev pub equal_to : Text → (RequestEvent → Text) → List Condition → List Condition
equal_to wanted column = add_condition (not (wanted == [])) (λ row. column row == wanted)

unfoldable pub filter_conditions : RequestEventFilter → List Condition
filter_conditions filter =
    let cs = equal_to filter.client_identity (λ row. row.client_identity) [] in
    let cs = equal_to filter.credential_source (λ row. row.credential_source) cs in
    let cs = equal_to filter.route (λ row. row.matched_route) cs in
    let cs = equal_to filter.operation (λ row. row.operation) cs in
    let cs = equal_to filter.source_or_destination (λ row. row.source_or_destination) cs in
    let cs = equal_to filter.status (λ row. row.status) cs in
    let cs = equal_to filter.cache_result (λ row. row.cache_result) cs in
    let cs = equal_to filter.error_classification (λ row. row.error_classification) cs in
    let cs =
      add_condition (not (filter.reference_contains == []))
        (λ row. contains row.logical_reference filter.reference_contains) cs in
    let cs =
      add_condition (not (is_zero filter.after)) (λ row. not (ltb row.timestamp filter.after)) cs in
    add_condition (not (is_zero filter.before)) (λ row. ltb row.timestamp filter.before) cs

-- The rows behind a cursor, in the direction asked for.
abbrev pub behind : Bool → RequestEventCursor → Condition
behind true cursor row =
    ltb cursor.timestamp row.timestamp || row.timestamp == cursor.timestamp && ltb cursor.id row.id
behind false cursor row =
    ltb row.timestamp cursor.timestamp || row.timestamp == cursor.timestamp && ltb row.id cursor.id

-- The condition of the cursor stands behind those of the filter.
unfoldable pub cursor_condition : Option RequestEventCursor → Bool → List Condition → List Condition
cursor_condition none oldest_first conditions = conditions
cursor_condition (some cursor) oldest_first conditions =
    conditions ++ behind oldest_first cursor ∷ []

-- " WHERE " + strings.Join(conditions, " AND ")
unfoldable pub where_all : List Condition → Condition
where_all [] row = true
where_all (condition ∷ conditions) row = condition row && where_all conditions row

-- ORDER BY timestamp_nanos, id, both ASC or both DESC
abbrev pub event_order : Bool → RequestEvent → RequestEvent → Bool
event_order true a b = ltb a.timestamp b.timestamp || a.timestamp == b.timestamp && ltb a.id b.id
event_order false a b = ltb b.timestamp a.timestamp || a.timestamp == b.timestamp && ltb b.id a.id

-- LIMIT limit+1, for a limit above 0
abbrev pub limited : ℕ → List RequestEvent → List RequestEvent
limited zero rows = rows
limited (suc n) rows = take (suc (suc n)) rows

-- The page of the rows: one more than the limit is asked for to see whether there are more.
unfoldable pub cut_page : ℕ → List RequestEvent → RequestEventPage
cut_page limit events =
    if ltb 0 limit && ltb limit (length events)
    then record { events = take limit events; next = last_cursor (take limit events) }
    else record { events = events; next = none }

unfoldable pub query_request_events :
    Faults → Context → RequestEventQuery → Exec Database RequestEventPage
query_request_events faults ctx query = do
  lift (check_context ctx)
  elim query.limit [
    | negsuc n ↦ fail (wrap invalid_record (lit "negative request event limit" ∷ []))
    | pos limit ↦ (do
      let conditions =
          cursor_condition query.cursor query.oldest_first (filter_conditions query.filter)
      events ← explained (lit "query request events" ∷ []) (
          select faults λ db. limited limit (
            sort (event_order query.oldest_first)
              (filter (where_all conditions) db.request_events)))
      pure (cut_page limit events))
  ]

unfoldable pub list_recent_request_events : Faults → Context → ℤ → Exec Database (List RequestEvent)
list_recent_request_events faults ctx limit = do
  page ←
      query_request_events faults ctx
        (record { filter = no_filter; limit = limit; cursor = none; oldest_first = false })
  pure page.events

unfoldable pub count_request_events : Faults → RequestEventFilter → Exec Database ℕ
count_request_events faults filter =
    explained (lit "count request events" ∷ [])
      (select faults λ db. count_where (where_all (filter_conditions filter)) db.request_events)

unfoldable pub find_request_event_by_id : Faults → ℤ → Exec Database (Option RequestEvent)
find_request_event_by_id faults (pos (suc n)) =
    explained (lit "find request event" ∷ [])
      (select faults λ db. first_where (λ (row : RequestEvent). row.id == suc n) db.request_events)
find_request_event_by_id faults _ = fail (wrap invalid_record (lit "invalid request event id" ∷ []))

-- COALESCE(SUM(condition), 0) over the rows that are not too old
abbrev pub sum_where : Time → Condition → List RequestEvent → ℕ
sum_where after condition rows =
    count_where (λ row. not (ltb row.timestamp after) && condition row) rows

unfoldable pub select_counts : Time → List RequestEvent → RequestEventSummary
select_counts after rows = record {
  total = sum_where after (λ row. true) rows;
  errors = sum_where after (λ row. row.status == status_error) rows;
  denied_pushes =
      sum_where after (λ row. row.status == status_denied && row.operation == operation_push) rows;
  auth_failures =
      sum_where after (λ row. row.error_classification == codes "upstream_authentication_failed")
        rows;
  cache_hits = sum_where after (λ row. row.cache_result == cache_hit) rows;
  cache_misses = sum_where after (λ row. row.cache_result == cache_miss) rows;
  average = 0;
  p95 = 0;
}

-- The durations above 0 of the rows that are not too old, in their order.
unfoldable pub select_durations : Time → List RequestEvent → List ℕ
select_durations after rows = sort ltb (
    map (λ (row : RequestEvent). row.duration)
      (filter (λ row. not (ltb row.timestamp after) && ltb 0 row.duration) rows))

-- summary.Average, summary.P95 = …; `none` where the code panics.
abbrev pub with_durations : RequestEventSummary → Option (ℕ × ℕ) → Option RequestEventSummary
with_durations counts none = none
with_durations counts (some (average, p95)) = some (record counts { average = average; p95 = p95 })

unfoldable pub summarize_request_events :
    Faults → Context → Time → Exec Database (Option RequestEventSummary)
summarize_request_events faults ctx after = do
  lift (check_context ctx)
  counts ←
      explained (lit "summarize request events" ∷ [])
        (select faults λ db. select_counts after db.request_events)
  durations ←
      explained (lit "query request durations" ∷ [])
        (select faults λ db. select_durations after db.request_events)
  pure (with_durations counts (summarize_durations durations))
