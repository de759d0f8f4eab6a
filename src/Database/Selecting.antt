-- ===== src/Database/Selecting.antt =====
-- The WHERE, ORDER BY and LIMIT that internal/metadata/sqlite_repository.go builds for a query of
-- request events, and the loops over the events of internal/metadata/repository.go.
use mathlib.Core.Bool.{and_assoc, not-not}
use regstair.Base.{
  ℕ, zero, suc, ◌+◌, ◌≤◌, ◌<◌, ◌≡◌, refl, ap, ◌∙◌, ◌&&◌, ◌||◌, Bool, true, false, not, Option, none,
  some, List, [], ◌∷◌, ◌++◌, ◌==◌, nat_eq, arith, ltb, length, take, filter, Bool-cases, inl, inr,
}
use regstair.Strings.{Text, text_eq}
use regstair.Sorting.{sort, insert}
use regstair.Metadata.Types.{
  RequestEvent, RequestEventFilter, RequestEventCursor, RequestEventQuery,
}
use regstair.Metadata.Events.{
  asks_for, request_event_matches, request_event_within_cursor, comes_first, page_of, selected,
  count_matching, find_event,
}
use regstair.Database.Tables.{count_where, first_where}
use regstair.Database.Events.{
  Condition, add_condition, equal_to, filter_conditions, behind, cursor_condition, where_all,
  event_order, limited, cut_page,
}

where_all-append :
    (conditions : List Condition) (c : Condition) (row : RequestEvent)
    → where_all (conditions ++ c ∷ []) row ≡ (where_all conditions row && c row)
unfolding where_all
where_all-append [] c row = ground arith
where_all-append (d ∷ conditions) c row = ground (arith, where_all-append conditions c row)

where_all-add :
    (asked : Bool) (c : Condition) (conditions : List Condition) (row : RequestEvent)
    → where_all (add_condition asked c conditions) row
      ≡ (where_all conditions row && (not asked || c row))
where_all-add true c conditions row = where_all-append conditions c row
where_all-add false c conditions row = ground arith

where_all-equal_to :
    (wanted : Text) (column : RequestEvent → Text) (conditions : List Condition)
    (row : RequestEvent)
    → where_all (equal_to wanted column conditions) row
      ≡ (where_all conditions row && asks_for wanted (column row))
where_all-equal_to wanted column conditions row =
    ground (arith, where_all-add (not (wanted == [])) (λ r. column r == wanted) conditions row)

-- The WHERE picks the events that the filter matches.
pub where_all-filter_conditions :
    (filter : RequestEventFilter) (row : RequestEvent)
    → where_all (filter_conditions filter) row ≡ request_event_matches filter row
unfolding filter_conditions request_event_matches where_all
where_all-filter_conditions wanted row =
    simp (where_all-equal_to, where_all-add, and_assoc, not-not)

behind-within :
    (cursor : RequestEventCursor) (oldest_first : Bool) (row : RequestEvent)
    → behind oldest_first cursor row ≡ request_event_within_cursor (some cursor) oldest_first row
unfolding request_event_within_cursor
behind-within cursor true row = refl
behind-within cursor false row = refl

-- The WHERE with the cursor.
where_all-cursor_condition :
    (cursor : Option RequestEventCursor) (oldest_first : Bool) (wanted : RequestEventFilter)
    (row : RequestEvent)
    → where_all (cursor_condition cursor oldest_first (filter_conditions wanted)) row
      ≡ (request_event_matches wanted row && request_event_within_cursor cursor oldest_first row)
unfolding cursor_condition request_event_within_cursor
where_all-cursor_condition none oldest_first wanted row =
    ground (arith, where_all-filter_conditions wanted row)
where_all-cursor_condition (some cursor) oldest_first wanted row =
    where_all-append (filter_conditions wanted) (behind oldest_first cursor) row
    ∙ ap (λ b. b && behind oldest_first cursor row) (where_all-filter_conditions wanted row)
    ∙ ap (λ b. request_event_matches wanted row && b) (behind-within cursor oldest_first row)

module _ {A : Type 0} where
  filter_same :
      (p q : A → Bool) (rows : List A) → ((r : A) → p r ≡ q r) → filter p rows ≡ filter q rows
  unfolding filter
  filter_same p q [] same = refl
  filter_same p q (r ∷ rows) same = rw (same r, filter_same p q rows same) refl

  insert_same :
      (p q : A → A → Bool) (x : A) (rows : List A)
      → ((a b : A) → p a b ≡ q a b)
      → insert p x rows ≡ insert q x rows
  unfolding insert
  insert_same p q x [] same = refl
  insert_same p q x (r ∷ rows) same = rw (same r x, insert_same p q x rows same) refl

  sort_same :
      (p q : A → A → Bool) (rows : List A) → ((a b : A) → p a b ≡ q a b) → sort p rows ≡ sort q rows
  unfolding sort
  sort_same p q [] same = refl
  sort_same p q (r ∷ rows) same =
      insert_same p q r (sort p rows) same ∙ ap (insert q r) (sort_same p q rows same)

  length-take : (n : ℕ) (rows : List A) → n < length rows → length (take (suc n) rows) ≡ n + 1
  length-take n [] h = absurd (omega (arith, h))
  length-take zero (r ∷ rows) h = refl
  length-take (suc n) (r ∷ rows) h = ground (arith, length-take n rows)

  take_all : (n : ℕ) (rows : List A) → length rows ≤ n → take n rows ≡ rows
  take_all zero [] h = refl
  take_all zero (r ∷ rows) h = absurd (omega (arith, h))
  take_all (suc n) [] h = refl
  take_all (suc n) (r ∷ rows) h = ap (◌∷◌ r) (take_all n rows (omega (arith, h)))

  take-take : (n : ℕ) (rows : List A) → take n (take (suc n) rows) ≡ take n rows
  take-take zero rows = refl
  take-take (suc n) [] = refl
  take-take (suc n) (r ∷ rows) = ap (◌∷◌ r) (take-take n rows)

event_order-comes_first :
    (oldest_first : Bool) (a b : RequestEvent)
    → event_order oldest_first a b ≡ comes_first oldest_first a b
unfolding comes_first
event_order-comes_first true a b = ground arith
event_order-comes_first false a b = ground arith

-- Asking for one row more shows whether there are more.
cut_page-limited :
    (limit : ℕ) (rows : List RequestEvent)
    → cut_page limit (limited limit rows) ≡ page_of limit rows
unfolding cut_page page_of
cut_page-limited zero rows = refl
cut_page-limited (suc n) rows = elim (Bool-cases (ltb (suc n) (length rows))) [
  | inl more ↦
      let positive : ltb 0 (suc n) ≡ true = ground arith in
      let longer : ltb (suc n) (length (take (suc (suc n)) rows)) ≡ true =
        ground (arith, length-take (suc n) rows, more) in
      rw (cut_page, page_of, positive, longer, more, take-take (suc n) rows) refl
  | inr all ↦ rw (take_all (suc (suc n)) rows (ground (arith, all)), cut_page, page_of, all) refl
]

-- The rows of a query are the events that the loop selects, and so is the page.
pub select_page :
    (limit : ℕ) (query : RequestEventQuery) (events : List RequestEvent)
    → cut_page limit (
        limited limit (
          sort (event_order query.oldest_first) (
            filter
              (where_all
                (cursor_condition query.cursor query.oldest_first (filter_conditions query.filter)))
              events)))
      ≡ page_of limit (selected query events)
unfolding selected
select_page limit query events =
    cut_page-limited limit _
    ∙ ap (page_of limit) (
        sort_same _ _ _ (event_order-comes_first query.oldest_first)
        ∙ ap (sort (comes_first query.oldest_first)) (
            filter_same _ _ events
              (where_all-cursor_condition query.cursor query.oldest_first query.filter)))

pub count_where_matching :
    (wanted : RequestEventFilter) (events : List RequestEvent)
    → count_where (where_all (filter_conditions wanted)) events ≡ count_matching wanted events
unfolding count_where count_matching
count_where_matching wanted [] = refl
count_where_matching wanted (e ∷ events) =
    rw (where_all-filter_conditions wanted e, count_where_matching wanted events) refl

pub first_where_event :
    (id : ℕ) (events : List RequestEvent)
    → first_where (λ (row : RequestEvent). row.id == id) events ≡ find_event id events
unfolding first_where find_event
first_where_event id [] = refl
first_where_event id (e ∷ events) = ground (arith, first_where_event id events)
