-- ===== src/Database/Mirror/Recording.antt =====
-- RecordTagMapping, FindTagMapping, ListTagMappings and RecordProvenance of
-- internal/metadata/sqlite_repository.go next to those of internal/metadata/repository.go.
use regstair.Base.{◌≡◌, refl, ap, ◌∙◌, [], ◌∷◌, ◌++◌, none, inl, inr}
use regstair.Strings.{Text, text_eq}
use regstair.Sorting.{sort}
use regstair.Errors.{ok, ◌>>◌, Result-cases}
use regstair.Effects.{lift, ◌>>=◌}
use regstair.Maps.{put}
use regstair.Metadata.Types.{Time, TagMapping, ProvenanceRecord}
use regstair.Metadata.Memory.{Repository, check_context}
use regstair.Metadata.Tags as M
use regstair.Metadata.Tags.{tag_key, validated}
use regstair.Metadata.TagLaws.{HasNoColon}
use regstair.Database.Tables.{Database, explained, checked, select, change, first_where}
use regstair.Database.Mappings as D
use regstair.Database.Mappings.{is_tag}
use regstair.Database.Mirror.Keyed.{put-IsKeyed}
use regstair.Database.Mirror.Relation.{
  Mirrors, Corresponds, Corresponds-subst, no_faults, lift_twice, mapping_key, after_checks,
  after_checks-Corresponds,
}
use regstair.Database.Mirror.Tags.{IsPlain, put-IsPlain, first_tag, upsert}

module _ (db : Database) (r : Repository) (m : Mirrors db r) where
  with_tag : TagMapping → Database
  with_tag v = record db { tag_mappings = D.upsert_tag v db.tag_mappings }

  mapped : TagMapping → Repository
  mapped v = record r { tags = put r.tags (mapping_key v) v }

  mapped-Mirrors : (v : TagMapping) → IsPlain v → Mirrors (with_tag v) (mapped v)
  unfolding with_tag mapped
  mapped-Mirrors v plain = record {
    users = m.users;
    keyed = m.keyed;
    agree = record { keyed = m.agree.keyed; owned = m.agree.owned; known = m.agree.known };
    events = m.events;
    last = m.last;
    tags = upsert db r m v plain;
    tags_keyed = put-IsKeyed mapping_key r.tags v m.tags_keyed;
    tags_plain = put-IsPlain r.tags (mapping_key v) v m.tags_plain plain;
    provenance = m.provenance;
    bindings = m.bindings;
    bindings_keyed = m.bindings_keyed;
    bindings_plain = m.bindings_plain;
  }

  sql_record :
      (now : Time) (mapping : TagMapping)
      → D.record_tag_mapping no_faults none now mapping db
        ≡ after_checks
            (check_context none >> M.validate_tag_mapping mapping)
            db
            (ok tt, with_tag (validated now mapping))
  unfolding D.record_tag_mapping explained change checked with_tag
  sql_record now mapping = lift_twice (check_context none) (M.validate_tag_mapping mapping) _ db

  memory_record :
      (now : Time) (mapping : TagMapping)
      → M.record_tag_mapping none now mapping r
        ≡ after_checks
            (check_context none >> M.validate_tag_mapping mapping)
            r
            (ok tt, mapped (validated now mapping))
  unfolding M.record_tag_mapping mapped validated
  memory_record now mapping = elim (Result-cases (M.validate_tag_mapping mapping)) [
    | inl (a, e) ↦ rw (M.record_tag_mapping, e) refl
    | inr (f, e) ↦ rw (M.record_tag_mapping, e) refl
  ]

  pub record_tag_mapping-Corresponds :
      (now : Time) (mapping : TagMapping)
      → IsPlain mapping
      → Corresponds
          (D.record_tag_mapping no_faults none now mapping db)
          (M.record_tag_mapping none now mapping r)
  unfolding validated
  record_tag_mapping-Corresponds now mapping plain =
      Corresponds-subst (sql_record now mapping) (memory_record now mapping) (
        after_checks-Corresponds (check_context none >> M.validate_tag_mapping mapping) db r _ _ m
          λ valid. (refl, mapped-Mirrors (validated now mapping) plain))

  pub find_tag_mapping-Corresponds :
      (repository tag : Text)
      → HasNoColon repository
      → Corresponds
          (D.find_tag_mapping no_faults none repository tag db)
          (M.find_tag_mapping none repository tag r)
  unfolding D.find_tag_mapping M.find_tag_mapping lift explained select checked ◌>>=◌
  find_tag_mapping-Corresponds repository tag plain =
      (ap (first_where (is_tag repository tag)) m.tags ∙ first_tag db r m repository tag plain, m)

  pub list_tag_mappings-Corresponds :
      Corresponds (D.list_tag_mappings no_faults none db) (M.list_tag_mappings none r)
  unfolding D.list_tag_mappings M.list_tag_mappings lift explained select checked ◌>>=◌
  list_tag_mappings-Corresponds = (ap (sort M.by_repository_and_tag) m.tags, m)

  -- The provenance records.
  with_provenance : ProvenanceRecord → Database
  with_provenance p = record db { provenance_records = db.provenance_records ++ p ∷ [] }

  remembered : ProvenanceRecord → Repository
  remembered p = record r { provenance = r.provenance ++ p ∷ [] }

  remembered-Mirrors : (p : ProvenanceRecord) → Mirrors (with_provenance p) (remembered p)
  unfolding with_provenance remembered
  remembered-Mirrors p = record {
    users = m.users;
    keyed = m.keyed;
    agree = record { keyed = m.agree.keyed; owned = m.agree.owned; known = m.agree.known };
    events = m.events;
    last = m.last;
    tags = m.tags;
    tags_keyed = m.tags_keyed;
    tags_plain = m.tags_plain;
    provenance = ap (λ ps. ps ++ p ∷ []) m.provenance;
    bindings = m.bindings;
    bindings_keyed = m.bindings_keyed;
    bindings_plain = m.bindings_plain;
  }

  sql_remember :
      (now : Time) (p : ProvenanceRecord)
      → D.record_provenance no_faults none now p db
        ≡ after_checks
            (check_context none >> M.validate_provenance_record p)
            db
            (ok tt, with_provenance (M.retrieved now p))
  unfolding D.record_provenance explained change checked with_provenance
  sql_remember now p = lift_twice (check_context none) (M.validate_provenance_record p) _ db

  memory_remember :
      (now : Time) (p : ProvenanceRecord)
      → M.record_provenance none now p r
        ≡ after_checks
            (check_context none >> M.validate_provenance_record p)
            r
            (ok tt, remembered (M.retrieved now p))
  unfolding M.record_provenance remembered
  memory_remember now p = elim (Result-cases (M.validate_provenance_record p)) [
    | inl (a, e) ↦ rw (M.record_provenance, e) refl
    | inr (f, e) ↦ rw (M.record_provenance, e) refl
  ]

  pub record_provenance-Corresponds :
      (now : Time) (p : ProvenanceRecord)
      → Corresponds (D.record_provenance no_faults none now p db) (M.record_provenance none now p r)
  record_provenance-Corresponds now p =
      Corresponds-subst (sql_remember now p) (memory_remember now p) (
        after_checks-Corresponds (check_context none >> M.validate_provenance_record p) db r _ _ m
          λ valid. (refl, remembered-Mirrors (M.retrieved now p)))
