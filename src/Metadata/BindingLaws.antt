-- ===== src/Metadata/BindingLaws.antt =====
-- The cache bindings that a MemoryRepository has and lists.
use regstair.Base.{
  ◌≡◌, inl, inr, true, not, Option, none, some, List, [], ◌∷◌, arith, In, All, All-In, filter,
  filter-In, Bool-cases,
}
use regstair.Strings.{Text, text_eq, text_beq, text_beq_iff}
use regstair.Errors.{ok, ◌>>◌, Result-cases, >>-eq-ok}
use regstair.Maps
use regstair.Maps.{Map}
use regstair.Sorting.{sort, sort-In}
use regstair.Metadata.Types.{
  Time, RequestEvent, ProvenanceRecord, TagMapping, CacheBinding, User,
  access_current_user_required,
}
use regstair.Metadata.Memory.{Repository, Context, check_context}
use regstair.Metadata.Users.{
  create_user, bootstrap_admin, update_user, update_found, replace_user, store_user,
}
use regstair.Metadata.Events.{record_request_event}
use regstair.Metadata.Tags.{record_provenance, record_tag_mapping}
use regstair.Metadata.Bindings.{
  validate_cache_binding, validate_cache_bindings, dated, put_binding, put_bindings, binds, by_key,
  record_cache_bindings, list_cache_bindings, cache_binding_key,
}
use regstair.Metadata.Steps.{
  Step, creates_user, bootstraps, updates_user, records_event, records_provenance, records_tag,
  records_bindings, Reachable, Reachable-invariant,
}

abbrev AllValid : Map Text CacheBinding → Type 0
AllValid m = All (λ b. validate_cache_binding b ≡ ok tt) (Maps.values m)

put-AllValid :
    (m : Map Text CacheBinding) (key : Text) (b : CacheBinding)
    → AllValid m
    → validate_cache_binding b ≡ ok tt
    → AllValid (Maps.put m key b)
unfolding Maps.put Maps.values
put-AllValid [] key b h v = (v, tt)
put-AllValid ((k, c) ∷ m) key b (hc, hm) v = elim (Bool-cases (text_beq k key)) [
  | inl e ↦ rw e (v, hm)
  | inr e ↦ rw e (hc, put-AllValid m key b hm v)
]

dated_valid :
    (now : Time) (o : Option CacheBinding) (b : CacheBinding)
    → validate_cache_binding b ≡ ok tt
    → validate_cache_binding (dated now o b) ≡ ok tt
unfolding dated validate_cache_binding
dated_valid now none b v = v
dated_valid now (some existing) b v = v

put_bindings-AllValid :
    (now : Time) (bs : List CacheBinding) (m : Map Text CacheBinding)
    → AllValid m
    → validate_cache_bindings bs ≡ ok tt
    → AllValid (put_bindings now bs m)
unfolding put_bindings put_binding validate_cache_bindings
put_bindings-AllValid now [] m h v = h
put_bindings-AllValid now (b ∷ bs) m h v = elim (Result-cases (validate_cache_binding b)) [
  | inr (e, refused) ↦ absurd (ground (arith, v, refused))
  | inl (_, passed) ↦
      put_bindings-AllValid now bs _
        (put-AllValid m (cache_binding_key b) _ h (dated_valid now _ b passed))
        (ground (arith, v, passed))
]

module _ (ctx : Context) (now : Time) (r : Repository) where
  record_cache_bindings-AllValid :
      (bindings : List CacheBinding)
      → AllValid r.bindings
      → AllValid (record_cache_bindings ctx now bindings r).1.bindings
  unfolding record_cache_bindings
  record_cache_bindings-AllValid bindings h =
      elim (Result-cases (check_context ctx >> validate_cache_bindings bindings)) [
        | inr (e, refused) ↦ rw (refused, record_cache_bindings) h
        | inl (_, passed) ↦
            rw (passed, record_cache_bindings)
              (put_bindings-AllValid now bindings r.bindings h
                (>>-eq-ok (check_context ctx) (validate_cache_bindings bindings) passed).1)
      ]

  create_user_bindings : (user : User) → (create_user ctx now user r).1.bindings ≡ r.bindings
  unfolding create_user store_user
  create_user_bindings user = ground arith

  bootstrap_admin_bindings :
      (user : User) → (bootstrap_admin ctx now user r).1.bindings ≡ r.bindings
  unfolding bootstrap_admin store_user
  bootstrap_admin_bindings user = ground arith

  update_user_bindings :
      (user : User) (expected : Time)
      → (update_user ctx now user expected r).1.bindings ≡ r.bindings
  unfolding update_user update_found replace_user store_user
  update_user_bindings user expected = ground arith

  record_request_event_bindings :
      (event : RequestEvent) → (record_request_event ctx now event r).1.bindings ≡ r.bindings
  unfolding record_request_event
  record_request_event_bindings event = ground arith

  record_provenance_bindings :
      (p : ProvenanceRecord) → (record_provenance ctx now p r).1.bindings ≡ r.bindings
  unfolding record_provenance
  record_provenance_bindings p = ground arith

  record_tag_mapping_bindings :
      (mapping : TagMapping) → (record_tag_mapping ctx now mapping r).1.bindings ≡ r.bindings
  unfolding record_tag_mapping
  record_tag_mapping_bindings mapping = ground arith

Step-AllValid : (r r' : Repository) → AllValid r.bindings → Step r r' → AllValid r'.bindings
Step-AllValid r _ h (creates_user ctx now user) = rw (create_user_bindings ctx now r user) h
Step-AllValid r _ h (bootstraps ctx now user) = rw (bootstrap_admin_bindings ctx now r user) h
Step-AllValid r _ h (updates_user ctx now user expected) =
    rw (update_user_bindings ctx now r user expected) h
Step-AllValid r _ h (records_event ctx now event) =
    rw (record_request_event_bindings ctx now r event) h
Step-AllValid r _ h (records_provenance ctx now p) = rw (record_provenance_bindings ctx now r p) h
Step-AllValid r _ h (records_tag ctx now mapping) =
    rw (record_tag_mapping_bindings ctx now r mapping) h
Step-AllValid r _ h (records_bindings ctx now bindings) =
    record_cache_bindings-AllValid ctx now r bindings h

Reachable-AllValid : (r : Repository) → Reachable r → AllValid r.bindings
unfolding Maps.values
Reachable-AllValid = Reachable-invariant (λ r. AllValid r.bindings) tt Step-AllValid

valid_user :
    (b : CacheBinding)
    → validate_cache_binding b ≡ ok tt
    → text_beq b.access access_current_user_required ≡ not (text_beq b.user_id [])
unfolding validate_cache_binding
valid_user b v = ground (arith, v)

binds_fields :
    (repository route digest : Text) (b : CacheBinding)
    → binds repository route digest b ≡ true
    → (b.logical_repository ≡ repository) × (b.route ≡ route) × (b.object_digest ≡ digest)
binds_fields repository route digest b h = ground (
  arith,
  h,
  text_beq_iff b.logical_repository repository,
  text_beq_iff b.route route,
  text_beq_iff b.object_digest digest,
)

-- In a repository made by any sequence of calls, each binding that ListCacheBindings returns is for
-- the repository, route and object that were asked for, and is bound to a user exactly if its access
-- is that of the current user.
pub list_cache_bindings_user :
    (r : Repository) (repository route digest : Text) (bindings : List CacheBinding)
    (b : CacheBinding)
    → Reachable r
    → (list_cache_bindings none repository route digest r).0 ≡ ok bindings
    → In b bindings
    → (b.logical_repository ≡ repository)
      × (b.route ≡ route)
      × (b.object_digest ≡ digest)
      × (text_beq b.access access_current_user_required ≡ not (text_beq b.user_id []))
unfolding list_cache_bindings
list_cache_bindings_user r repository route digest bindings b reached listed m =
    let chosen = filter (binds repository route digest) (Maps.values r.bindings) in
    let same : ok (sort by_key chosen) ≡ ok bindings = listed in
    let sorted : sort by_key chosen ≡ bindings = ground (arith, same) in
    let (stored, fits) =
      filter-In (binds repository route digest) b (Maps.values r.bindings)
        (sort-In by_key b chosen (rw sorted m)) in
    let (e, f, g) = binds_fields repository route digest b fits in
    (
      e,
      f,
      g,
      valid_user b (
          All-In (λ c. validate_cache_binding c ≡ ok tt) b (Maps.values r.bindings)
            (Reachable-AllValid r reached) stored),
    )
