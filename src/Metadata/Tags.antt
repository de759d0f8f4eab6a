-- ===== src/Metadata/Tags.antt =====
-- The provenance records and the tag mappings of MemoryRepository.
use regstair.Base.{
  pos, ◌&&◌, Bool, true, Option, none, some, List, [], ◌∷◌, ◌++◌, ◌==◌, ltb, int_ltb, if◌then◌else◌,
}
use regstair.Strings.{Text, text_eq, text_ltb, codes}
use regstair.Errors.{Result, ok, err, ◌>>◌, refuse_if, wrap, lit, invalid_record}
use regstair.Effects.{Exec}
use regstair.Maps
use regstair.Sorting.{sort}
use regstair.Metadata.Types.{Time, is_zero, ProvenanceRecord, TagMapping}
use regstair.Metadata.Memory.{Repository, Context, check_context}

unfoldable pub validate_provenance_record : ProvenanceRecord → Result (Unit {0})
validate_provenance_record p =
    refuse_if (p.logical_reference == [])
      (wrap invalid_record (lit "provenance has no logical reference" ∷ []))
    >> refuse_if (p.requested_reference == [])
        (wrap invalid_record (lit "provenance has no requested reference" ∷ []))
    >> refuse_if (p.resolved_digest == [])
        (wrap invalid_record (lit "provenance has no resolved digest" ∷ []))
    >> refuse_if (p.source == []) (wrap invalid_record (lit "provenance has no source" ∷ []))
    >> refuse_if (p.route == []) (wrap invalid_record (lit "provenance has no route" ∷ []))

-- The record as it is stored.
unfoldable pub retrieved : Time → ProvenanceRecord → ProvenanceRecord
retrieved now p = record p { retrieved_at = if is_zero p.retrieved_at then now else p.retrieved_at }

unfoldable pub record_provenance : Context → Time → ProvenanceRecord → Exec Repository (Unit {0})
record_provenance ctx now p r = elim (check_context ctx >> validate_provenance_record p) [
  | err e ↦ (err e, r)
  | ok _ ↦ (ok tt, record r { provenance = r.provenance ++ retrieved now p ∷ [] })
]

-- latest == nil || record.RetrievedAt.After(latest.RetrievedAt)
abbrev pub is_later : Option ProvenanceRecord → ProvenanceRecord → Bool
is_later none p = true
is_later (some latest) p = ltb latest.retrieved_at p.retrieved_at

-- The loop, with the latest record so far.
unfoldable pub latest_provenance :
    Text → List ProvenanceRecord → Option ProvenanceRecord → Option ProvenanceRecord
latest_provenance reference [] latest = latest
latest_provenance reference (p ∷ ps) latest =
    latest_provenance reference ps
      (if p.logical_reference == reference && is_later latest p then some p else latest)

unfoldable pub find_provenance_by_logical_reference :
    Context → Text → Exec Repository (Option ProvenanceRecord)
find_provenance_by_logical_reference ctx reference r = elim (check_context ctx) [
  | err e ↦ (err e, r)
  | ok _ ↦ (ok (latest_provenance reference r.provenance none), r)
]

unfoldable pub validate_tag_mapping : TagMapping → Result (Unit {0})
validate_tag_mapping mapping =
    refuse_if (mapping.logical_repository == [])
      (wrap invalid_record (lit "tag mapping has no logical repository" ∷ []))
    >> refuse_if (mapping.tag == []) (wrap invalid_record (lit "tag mapping has no tag" ∷ []))
    >> refuse_if (mapping.digest == []) (wrap invalid_record (lit "tag mapping has no digest" ∷ []))
    >> refuse_if (mapping.media_type == [])
        (wrap invalid_record (lit "tag mapping has no media type" ∷ []))
    >> refuse_if (mapping.source == []) (wrap invalid_record (lit "tag mapping has no source" ∷ []))
    >> refuse_if (mapping.route == []) (wrap invalid_record (lit "tag mapping has no route" ∷ []))
    >> refuse_if (int_ltb mapping.size (pos 0))
        (wrap invalid_record (lit "tag mapping has negative size" ∷ []))

unfoldable pub tag_key : Text → Text → Text
tag_key logical_repository tag = logical_repository ++ codes ":" ++ tag

-- The mapping as it is stored.
unfoldable pub validated : Time → TagMapping → TagMapping
validated now mapping =
    let resolved = if is_zero mapping.resolved_at then now else mapping.resolved_at in
    record mapping {
      resolved_at = resolved;
      last_validated_at =
          if is_zero mapping.last_validated_at then resolved else mapping.last_validated_at;
    }

unfoldable pub record_tag_mapping : Context → Time → TagMapping → Exec Repository (Unit {0})
record_tag_mapping ctx now mapping r = elim (check_context ctx >> validate_tag_mapping mapping) [
  | err e ↦ (err e, r)
  | ok _ ↦ (
    ok tt,
    record r {
      tags =
          Maps.put r.tags (tag_key mapping.logical_repository mapping.tag) (validated now mapping);
    },
  )
]

unfoldable pub find_tag_mapping : Context → Text → Text → Exec Repository (Option TagMapping)
find_tag_mapping ctx logical_repository tag r = elim (check_context ctx) [
  | err e ↦ (err e, r)
  | ok _ ↦ (ok (Maps.get r.tags (tag_key logical_repository tag)), r)
]

unfoldable pub by_repository_and_tag : TagMapping → TagMapping → Bool
by_repository_and_tag a b =
    if a.logical_repository == b.logical_repository
    then text_ltb a.tag b.tag
    else text_ltb a.logical_repository b.logical_repository

unfoldable pub list_tag_mappings : Context → Exec Repository (List TagMapping)
list_tag_mappings ctx r = elim (check_context ctx) [
  | err e ↦ (err e, r)
  | ok _ ↦ (ok (sort by_repository_and_tag (Maps.values r.tags)), r)
]
