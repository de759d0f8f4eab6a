-- ===== src/Database/Mappings.antt =====
-- The tag mappings and provenance records of internal/metadata/sqlite_repository.go, and the cache
-- bindings of internal/metadata/sqlite_cache_bindings.go. `now` is what r.now() gives.
use regstair.Base.{
  ◌+◌, ◌&&◌, Bool, not, Option, none, some, List, [], ◌∷◌, ◌++◌, ◌==◌, any, filter, reverse, ltb,
  leb, if◌then◌else◌,
}
use regstair.Strings.{Text, text_eq, text_ltb}
use regstair.Errors.{lit}
use regstair.Effects.{Exec, pure, lift, ◌>>◌}
use regstair.Sorting.{sort}
use regstair.Metadata.Types.{Time, TagMapping, ProvenanceRecord, CacheBinding}
use regstair.Metadata.Memory.{Context, check_context}
use regstair.Metadata.Tags.{
  validate_tag_mapping, validated, by_repository_and_tag, validate_provenance_record, retrieved,
}
use regstair.Metadata.Bindings.{validate_cache_bindings, binds}
use regstair.Database.Tables.{
  Database, Faults, explained, transact, select, change, first_where, update_where,
}

-- WHERE logical_repository = ? AND tag = ?, the primary key
abbrev pub is_tag : Text → Text → TagMapping → Bool
is_tag repository tag row = row.logical_repository == repository && row.tag == tag

-- INSERT … ON CONFLICT(logical_repository, tag) DO UPDATE SET …
unfoldable pub upsert_tag : TagMapping → List TagMapping → List TagMapping
upsert_tag mapping rows =
    if any (is_tag mapping.logical_repository mapping.tag) rows
    then update_where (is_tag mapping.logical_repository mapping.tag)
        (λ row. record mapping { logical_repository = row.logical_repository; tag = row.tag }) rows
    else rows ++ mapping ∷ []

unfoldable pub record_tag_mapping : Faults → Context → Time → TagMapping → Exec Database (Unit {0})
record_tag_mapping faults ctx now mapping = do
  lift (check_context ctx)
  lift (validate_tag_mapping mapping)
  explained (lit "upsert tag mapping" ∷ []) (
      change faults
        λ db. record db { tag_mappings = upsert_tag (validated now mapping) db.tag_mappings })

unfoldable pub find_tag_mapping : Faults → Context → Text → Text → Exec Database (Option TagMapping)
find_tag_mapping faults ctx repository tag = do
  lift (check_context ctx)
  explained (lit "find tag mapping" ∷ [])
      (select faults λ db. first_where (is_tag repository tag) db.tag_mappings)

unfoldable pub list_tag_mappings : Faults → Context → Exec Database (List TagMapping)
list_tag_mappings faults ctx = do
  lift (check_context ctx)
  explained (lit "list tag mappings" ∷ [])
      (select faults λ db. sort by_repository_and_tag db.tag_mappings)

unfoldable pub record_provenance :
    Faults → Context → Time → ProvenanceRecord → Exec Database (Unit {0})
record_provenance faults ctx now p = do
  lift (check_context ctx)
  lift (validate_provenance_record p)
  explained (lit "insert provenance record" ∷ []) (
      change faults
        λ db. record db { provenance_records = db.provenance_records ++ retrieved now p ∷ [] })

abbrev pub retrieved_later : ProvenanceRecord → ProvenanceRecord → Bool
retrieved_later a b = ltb b.retrieved_at a.retrieved_at

-- LIMIT 1
abbrev pub first_row : {A : Type 0} → List A → Option A
first_row [] = none
first_row (row ∷ rows) = some row

-- ORDER BY retrieved_at_nanos DESC, id DESC LIMIT 1; the ids grow along the table.
unfoldable pub newest_provenance : Text → List ProvenanceRecord → Option ProvenanceRecord
newest_provenance reference rows = first_row (
    sort retrieved_later
      (reverse (filter (λ (row : ProvenanceRecord). row.logical_reference == reference) rows)))

unfoldable pub find_provenance_by_logical_reference :
    Faults → Context → Text → Exec Database (Option ProvenanceRecord)
find_provenance_by_logical_reference faults ctx reference = do
  lift (check_context ctx)
  explained (lit "find provenance record" ∷ [])
      (select faults λ db. newest_provenance reference db.provenance_records)

-- The columns of the primary key.
abbrev pub same_binding : CacheBinding → CacheBinding → Bool
same_binding b row =
    row.logical_repository == b.logical_repository
    && row.route == b.route
    && row.source == b.source
    && row.manifest_digest == b.manifest_digest
    && row.object_digest == b.object_digest
    && row.access == b.access
    && row.user_id == b.user_id

-- DO UPDATE SET …, with the CASE of updated_at_nanos
abbrev pub rebound : Time → CacheBinding → CacheBinding → CacheBinding
rebound now b row = record row {
  physical_repository = b.physical_repository;
  object_kind = b.object_kind;
  updated_at = if leb now row.updated_at then row.updated_at + 1 else now;
}

unfoldable pub upsert_binding : Time → CacheBinding → List CacheBinding → List CacheBinding
upsert_binding now b rows =
    if any (same_binding b) rows
    then update_where (same_binding b) (rebound now b) rows
    else rows ++ record b { created_at = now; updated_at = now } ∷ []

-- The loop over the bindings.
unfoldable pub save_bindings : Faults → Time → List CacheBinding → Exec Database (Unit {0})
save_bindings faults now [] = pure tt
save_bindings faults now (b ∷ bs) =
    let rest = save_bindings faults now bs in
    explained (lit "save cache binding" ∷ [])
      (change faults λ db. record db { cache_bindings = upsert_binding now b db.cache_bindings })
    >> rest

unfoldable pub record_cache_bindings :
    Faults → Context → Time → List CacheBinding → Exec Database (Unit {0})
record_cache_bindings faults ctx now bindings = do
  lift (check_context ctx)
  lift (validate_cache_bindings bindings)
  transact faults (lit "begin cache binding save" ∷ []) (lit "commit cache bindings" ∷ [])
      (save_bindings faults now bindings)

-- ORDER BY source, manifest_digest, access, user_id
unfoldable pub binding_order : CacheBinding → CacheBinding → Bool
binding_order a b =
    if not (a.source == b.source)
    then text_ltb a.source b.source
    else if not (a.manifest_digest == b.manifest_digest)
    then text_ltb a.manifest_digest b.manifest_digest
    else if not (a.access == b.access)
    then text_ltb a.access b.access
    else text_ltb a.user_id b.user_id

unfoldable pub list_cache_bindings :
    Faults → Context → Text → Text → Text → Exec Database (List CacheBinding)
list_cache_bindings faults ctx repository route object_digest = do
  lift (check_context ctx)
  explained (lit "list cache bindings" ∷ []) (
      select faults
        λ db. sort binding_order (filter (binds repository route object_digest) db.cache_bindings))
