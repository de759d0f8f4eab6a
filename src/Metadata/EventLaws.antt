-- ===== src/Metadata/EventLaws.antt =====
-- How the events of a MemoryRepository are numbered, counted and found.
use regstair.Base.{
  ℕ, zero, suc, ◌+◌, pos, ◌≡◌, refl, sym, ap, ◌∙◌, inl, inr, Bool, false, ◌&&◌, none, List, [], ◌∷◌,
  ◌++◌, arith, length, filter, length-append,
}
use regstair.Errors.{ok, ◌>>◌, Result-cases}
use regstair.Sorting.{length-sort}
use regstair.Metadata.Types.{
  Time, RequestEvent, ProvenanceRecord, TagMapping, CacheBinding, RequestEventFilter,
  RequestEventQuery, RequestEventPage, User,
}
use regstair.Metadata.Memory.{Repository, Context, check_context}
use regstair.Metadata.Users.{
  create_user, bootstrap_admin, update_user, update_found, replace_user, store_user,
}
use regstair.Metadata.Events.{
  get_elem?, numbered, record_request_event, validate_request_event, find_event,
  find_request_event_by_id, count_matching, count_request_events, request_event_matches,
  request_event_within_cursor, selected, comes_first, page_of, query_request_events,
}
use regstair.Metadata.Tags.{record_provenance, record_tag_mapping}
use regstair.Metadata.Bindings.{record_cache_bindings}
use regstair.Metadata.Steps.{
  Step, creates_user, bootstraps, updates_user, records_event, records_provenance, records_tag,
  records_bindings, Reachable, Reachable-invariant,
}

-- The events have the numbers behind `n`, in their order.
abbrev Numbered : ℕ → List RequestEvent → Type 0
Numbered n [] = Unit
Numbered n (e ∷ es) = (e.id ≡ n + 1) × Numbered (n + 1) es

Numbered-snoc :
    (n : ℕ) (es : List RequestEvent) (e : RequestEvent)
    → Numbered n es
    → e.id ≡ n + length es + 1
    → Numbered n (es ++ e ∷ [])
Numbered-snoc n [] e h k = (omega (arith, k), tt)
Numbered-snoc n (x ∷ es) e (h, rest) k = (h, Numbered-snoc (n + 1) es e rest (omega (arith, k)))

-- Ids count the events from 1.
record IsCounted (r : Repository) : Type 0 where
  next : r.next_event_id ≡ length r.events
  ids : Numbered 0 r.events

same_events :
    (r r' : Repository)
    → r'.events ≡ r.events
    → r'.next_event_id ≡ r.next_event_id
    → IsCounted r
    → IsCounted r'
same_events r r' e f c = record { next = rw (e, f) c.next; ids = rw e c.ids }

-- What the other operations leave alone.
abbrev KeepsEvents : Repository → Repository → Type 0
KeepsEvents r r' = (r'.events ≡ r.events) × (r'.next_event_id ≡ r.next_event_id)

module _ (ctx : Context) (now : Time) (r : Repository) where
  create_user-KeepsEvents : (user : User) → KeepsEvents r (create_user ctx now user r).1
  unfolding create_user store_user
  create_user-KeepsEvents user = ground arith

  bootstrap_admin-KeepsEvents : (user : User) → KeepsEvents r (bootstrap_admin ctx now user r).1
  unfolding bootstrap_admin store_user
  bootstrap_admin-KeepsEvents user = ground arith

  update_user-KeepsEvents :
      (user : User) (expected : Time) → KeepsEvents r (update_user ctx now user expected r).1
  unfolding update_user update_found replace_user store_user
  update_user-KeepsEvents user expected = ground arith

  record_provenance-KeepsEvents :
      (p : ProvenanceRecord) → KeepsEvents r (record_provenance ctx now p r).1
  unfolding record_provenance
  record_provenance-KeepsEvents p = ground arith

  record_tag_mapping-KeepsEvents :
      (mapping : TagMapping) → KeepsEvents r (record_tag_mapping ctx now mapping r).1
  unfolding record_tag_mapping
  record_tag_mapping-KeepsEvents mapping = ground arith

  record_cache_bindings-KeepsEvents :
      (bindings : List CacheBinding) → KeepsEvents r (record_cache_bindings ctx now bindings r).1
  unfolding record_cache_bindings
  record_cache_bindings-KeepsEvents bindings = ground arith

  record_request_event-IsCounted :
      (event : RequestEvent) → IsCounted r → IsCounted (record_request_event ctx now event r).1
  unfolding record_request_event numbered
  record_request_event-IsCounted event c =
      elim (Result-cases (check_context ctx >> validate_request_event event)) [
        | inr (e, refused) ↦ rw (refused, record_request_event) c
        | inl (_, passed) ↦
            rw (passed, record_request_event)
              (record {
                next = ground (
                  arith,
                  c.next,
                  length-append r.events (numbered now (r.next_event_id + 1) event ∷ []),
                );
                ids = Numbered-snoc 0 r.events _ c.ids (ground (arith, c.next));
              })
      ]

Step-IsCounted : (r r' : Repository) → IsCounted r → Step r r' → IsCounted r'
Step-IsCounted r _ c (creates_user ctx now user) =
    let (e, f) = create_user-KeepsEvents ctx now r user in same_events r _ e f c
Step-IsCounted r _ c (bootstraps ctx now user) =
    let (e, f) = bootstrap_admin-KeepsEvents ctx now r user in same_events r _ e f c
Step-IsCounted r _ c (updates_user ctx now user expected) =
    let (e, f) = update_user-KeepsEvents ctx now r user expected in same_events r _ e f c
Step-IsCounted r _ c (records_event ctx now event) =
    record_request_event-IsCounted ctx now r event c
Step-IsCounted r _ c (records_provenance ctx now p) =
    let (e, f) = record_provenance-KeepsEvents ctx now r p in same_events r _ e f c
Step-IsCounted r _ c (records_tag ctx now mapping) =
    let (e, f) = record_tag_mapping-KeepsEvents ctx now r mapping in same_events r _ e f c
Step-IsCounted r _ c (records_bindings ctx now bindings) =
    let (e, f) = record_cache_bindings-KeepsEvents ctx now r bindings in same_events r _ e f c

Reachable-IsCounted : (r : Repository) → Reachable r → IsCounted r
Reachable-IsCounted =
    Reachable-invariant IsCounted (record { next = refl; ids = tt }) Step-IsCounted

find_event_nth :
    (n i id : ℕ) (es : List RequestEvent)
    → Numbered n es
    → id ≡ n + i + 1
    → find_event id es ≡ get_elem? es i
unfolding find_event
find_event_nth n i id [] h k = refl
find_event_nth n zero id (e ∷ es) (h, rest) k = ground (arith, h, k)
find_event_nth n (suc i) id (e ∷ es) (h, rest) k =
    ground (arith, h, k, find_event_nth (n + 1) i id es rest (omega (arith, k)))

-- In a repository made by any sequence of calls, FindRequestEventByID finds the n-th event that was
-- recorded under the id n, and nothing under an id that is larger than their number.
pub find_request_event_by_id_nth :
    (r : Repository) (i : ℕ)
    → Reachable r
    → (find_request_event_by_id none (pos (i + 1)) r).0 ≡ ok (get_elem? r.events i)
unfolding find_request_event_by_id
find_request_event_by_id_nth r i reached =
    ap ok (find_event_nth 0 i (i + 1) r.events (Reachable-IsCounted r reached).ids (omega arith))

count-filter :
    (f : RequestEventFilter) (oldest_first : Bool) (es : List RequestEvent)
    → length (
        filter
          (λ e. request_event_matches f e && request_event_within_cursor none oldest_first e)
          es)
      ≡ count_matching f es
unfolding count_matching filter request_event_within_cursor
count-filter f oldest_first [] = refl
count-filter f oldest_first (e ∷ es) = ground (arith, count-filter f oldest_first es)

-- The filter and the limit of a query that wants all.
abbrev pub all_matching : RequestEventFilter → RequestEventQuery
all_matching f = record { filter = f; limit = pos 0; cursor = none; oldest_first = false }

-- CountRequestEvents counts the events that QueryRequestEvents lists under the same filter without a
-- limit, and that list has no next page.
pub count_request_events-query_request_events :
    (f : RequestEventFilter) (r : Repository)
    → (page : RequestEventPage) × ((query_request_events none (all_matching f) r).0 ≡ ok page)
      × (page.next ≡ none)
      × ((count_request_events none f r).0 ≡ ok (length page.events))
unfolding query_request_events count_request_events page_of selected
count_request_events-query_request_events f r =
    let found =
      filter (λ e. request_event_matches f e && request_event_within_cursor none false e)
        r.events in
    (
      _,
      refl,
      refl,
      ap ok (sym (length-sort (comes_first false) found ∙ count-filter f false r.events)),
    )
