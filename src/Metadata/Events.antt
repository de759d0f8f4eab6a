-- ===== src/Metadata/Events.antt =====
-- The request events of MemoryRepository.
use regstair.Base.{
  ℕ, zero, suc, ℤ, pos, negsuc, ◌+◌, ◌*◌, ◌/◌, ◌-◌, ◌&&◌, ◌||◌, Bool, true, false, not, Option,
  none, some, List, [], ◌∷◌, ◌++◌, ◌==◌, nat_eq, ltb, length, take, filter, if◌then◌else◌,
}
use regstair.Strings.{Text, text_eq, contains, codes}
use regstair.Errors.{Result, ok, err, ◌>>◌, refuse_if, wrap, lit, invalid_record}
use regstair.Effects.{Exec}
use regstair.Sorting.{sort}
use regstair.Metadata.Types.{
  Time, is_zero, operation_push, status_denied, status_error, cache_hit, cache_miss, RequestEvent,
  RequestEventFilter, RequestEventCursor, RequestEventQuery, RequestEventPage, RequestEventSummary,
}
use regstair.Metadata.Memory.{Repository, Context, check_context}

unfoldable pub validate_request_event : RequestEvent → Result (Unit {0})
validate_request_event event =
    refuse_if (event.operation == [])
      (wrap invalid_record (lit "request event has no operation" ∷ []))
    >> refuse_if (event.logical_reference == [])
        (wrap invalid_record (lit "request event has no logical reference" ∷ []))
    >> refuse_if (event.status == []) (wrap invalid_record (lit "request event has no status" ∷ []))

-- The event as it is stored.
unfoldable pub numbered : Time → ℕ → RequestEvent → RequestEvent
numbered now id event = record event {
  id = id;
  timestamp = if is_zero event.timestamp then now else event.timestamp;
}

unfoldable pub record_request_event : Context → Time → RequestEvent → Exec Repository (Unit {0})
record_request_event ctx now event r = elim (check_context ctx >> validate_request_event event) [
  | err e ↦ (err e, r)
  | ok _ ↦ (
    ok tt,
    record r {
      next_event_id = r.next_event_id + 1;
      events = r.events ++ numbered now (r.next_event_id + 1) event ∷ [];
    },
  )
]

-- filter.X == "" || event.X == filter.X
abbrev pub asks_for : Text → Text → Bool
asks_for wanted actual = wanted == [] || actual == wanted

unfoldable pub request_event_matches : RequestEventFilter → RequestEvent → Bool
request_event_matches filter event =
    asks_for filter.client_identity event.client_identity
    && asks_for filter.credential_source event.credential_source
    && asks_for filter.route event.matched_route
    && asks_for filter.operation event.operation
    && asks_for filter.source_or_destination event.source_or_destination
    && asks_for filter.status event.status
    && asks_for filter.cache_result event.cache_result
    && asks_for filter.error_classification event.error_classification
    && (filter.reference_contains == []
        || contains event.logical_reference filter.reference_contains)
    && (is_zero filter.after || not (ltb event.timestamp filter.after))
    && (is_zero filter.before || ltb event.timestamp filter.before)

unfoldable pub request_event_within_cursor : Option RequestEventCursor → Bool → RequestEvent → Bool
request_event_within_cursor none oldest_first event = true
request_event_within_cursor (some cursor) oldest_first event =
    if oldest_first
    then ltb cursor.timestamp event.timestamp
      || (event.timestamp == cursor.timestamp && ltb cursor.id event.id)
    else ltb event.timestamp cursor.timestamp
      || (event.timestamp == cursor.timestamp && ltb event.id cursor.id)

-- The order of the answer: by time, then by id, both in the direction asked for.
unfoldable pub comes_first : Bool → RequestEvent → RequestEvent → Bool
comes_first oldest_first a b =
    if a.timestamp == b.timestamp
    then (if oldest_first then ltb a.id b.id else ltb b.id a.id)
    else if oldest_first
    then ltb a.timestamp b.timestamp
    else ltb b.timestamp a.timestamp

-- Where the list goes on behind its last event.
abbrev pub last_cursor : List RequestEvent → Option RequestEventCursor
last_cursor [] = none
last_cursor (event ∷ []) = some (record { timestamp = event.timestamp; id = event.id })
last_cursor (event ∷ next ∷ events) = last_cursor (next ∷ events)

-- The page of the events that a query finds; a limit of 0 is none.
unfoldable pub page_of : ℕ → List RequestEvent → RequestEventPage
page_of limit events =
    if ltb 0 limit && ltb limit (length events)
    then record { events = take limit events; next = last_cursor (take limit events) }
    else record { events = events; next = none }

unfoldable pub selected : RequestEventQuery → List RequestEvent → List RequestEvent
selected query events = sort (comes_first query.oldest_first) (
    filter
      (λ event.
        request_event_matches query.filter event
        && request_event_within_cursor query.cursor query.oldest_first event)
      events)

unfoldable pub query_request_events : Context → RequestEventQuery → Exec Repository RequestEventPage
query_request_events ctx query r = elim (check_context ctx) [
  | err e ↦ (err e, r)
  | ok _ ↦ elim query.limit [
    | negsuc n ↦ (err (wrap invalid_record (lit "negative request event limit" ∷ [])), r)
    | pos limit ↦ (ok (page_of limit (selected query r.events)), r)
  ]
]

abbrev pub no_filter : RequestEventFilter
no_filter = record {
  client_identity = [];
  credential_source = [];
  route = [];
  operation = [];
  source_or_destination = [];
  status = [];
  cache_result = [];
  error_classification = [];
  reference_contains = [];
  after = 0;
  before = 0;
}

unfoldable pub list_recent_request_events : Context → ℤ → Exec Repository (List RequestEvent)
list_recent_request_events ctx limit r =
    let (page, r') =
      query_request_events ctx
        (record { filter = no_filter; limit = limit; cursor = none; oldest_first = false }) r in
    (elim page [ err e ↦ err e | ok p ↦ ok p.events ], r')

-- The loop that counts.
unfoldable pub count_matching : RequestEventFilter → List RequestEvent → ℕ
count_matching filter [] = 0
count_matching filter (event ∷ events) =
    let rest = count_matching filter events in
    if request_event_matches filter event then rest + 1 else rest

unfoldable pub count_request_events : Context → RequestEventFilter → Exec Repository ℕ
count_request_events ctx filter r = elim (check_context ctx) [
  | err e ↦ (err e, r)
  | ok _ ↦ (ok (count_matching filter r.events), r)
]

unfoldable pub find_event : ℕ → List RequestEvent → Option RequestEvent
find_event id [] = none
find_event id (event ∷ events) =
    let rest = find_event id events in if event.id == id then some event else rest

-- The loop for an id of type int64; no event has an id below 0.
unfoldable pub find_request_event_by_id : Context → ℤ → Exec Repository (Option RequestEvent)
find_request_event_by_id ctx (pos id) r = elim (check_context ctx) [
  | err e ↦ (err e, r)
  | ok _ ↦ (ok (find_event id r.events), r)
]
find_request_event_by_id ctx (negsuc n) r = elim (check_context ctx) [
  | err e ↦ (err e, r)
  | ok _ ↦ (ok none, r)
]

-- x++ under a test
abbrev pub one : Bool → ℕ
one true = 1
one false = 0

-- One round of the summary's loop, for an event that is not too old.
unfoldable pub count_event : RequestEvent → RequestEventSummary → RequestEventSummary
count_event event summary = record summary {
  total = summary.total + 1;
  errors = summary.errors + one (event.status == status_error);
  denied_pushes =
      summary.denied_pushes
      + one (event.status == status_denied && event.operation == operation_push);
  auth_failures =
      summary.auth_failures
      + one (event.error_classification == codes "upstream_authentication_failed");
  cache_hits = summary.cache_hits + one (event.cache_result == cache_hit);
  cache_misses =
      summary.cache_misses
      + one (not (event.cache_result == cache_hit) && event.cache_result == cache_miss);
}

unfoldable pub count_events : Time → List RequestEvent → RequestEventSummary → RequestEventSummary
count_events after [] summary = summary
count_events after (event ∷ events) summary =
    count_events after events
      (if ltb event.timestamp after then summary else count_event event summary)

-- The durations that count.
unfoldable pub durations_after : Time → List RequestEvent → List ℕ
durations_after after [] = []
durations_after after (event ∷ events) =
    let rest = durations_after after events in
    if not (ltb event.timestamp after) && ltb 0 event.duration then event.duration ∷ rest else rest

unfoldable pub sum : List ℕ → ℕ
sum [] = 0
sum (x ∷ xs) = x + sum xs

-- xs[i], which panics out of range
abbrev pub get_elem? : {A : Type 0} → List A → ℕ → Option A
get_elem? [] i = none
get_elem? (x ∷ xs) zero = some x
get_elem? (x ∷ xs) (suc i) = get_elem? xs i

-- The place of the 95th percentile, from 1.
abbrev pub p95_rank : ℕ → ℕ
p95_rank n = (95 * n + 99) / 100

-- The average and the 95th percentile; `none` where the index is out of range.
unfoldable pub summarize_durations : List ℕ → Option (ℕ × ℕ)
summarize_durations [] = some (0, 0)
summarize_durations (d ∷ ds) =
    let sorted = sort ltb (d ∷ ds) in
    elim (get_elem? sorted (p95_rank (length (d ∷ ds)) - 1)) [
      | none ↦ none
      | some p95 ↦ some (sum sorted / length (d ∷ ds), p95)
    ]

abbrev pub empty_summary : RequestEventSummary
empty_summary = record {
  total = 0;
  errors = 0;
  denied_pushes = 0;
  auth_failures = 0;
  cache_hits = 0;
  cache_misses = 0;
  average = 0;
  p95 = 0;
}

-- `none` where the code panics.
unfoldable pub summary_of : Time → List RequestEvent → Option RequestEventSummary
summary_of after events = elim (summarize_durations (durations_after after events)) [
  | none ↦ none
  | some (average, p95) ↦
      some (record (count_events after events empty_summary) { average = average; p95 = p95 })
]

unfoldable pub summarize_request_events :
    Context → Time → Exec Repository (Option RequestEventSummary)
summarize_request_events ctx after r = elim (check_context ctx) [
  | err e ↦ (err e, r)
  | ok _ ↦ (ok (summary_of after r.events), r)
]
