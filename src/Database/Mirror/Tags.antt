-- ===== src/Database/Mirror/Tags.antt =====
-- The tag mappings and provenance records of internal/metadata/sqlite_repository.go next to those of
-- internal/metadata/repository.go.
use regstair.Base.{
  ◌≡◌, refl, ap, sym, subst, ◌∙◌, true, false, List, [], ◌∷◌, none, some, All, any, arith, inl, inr,
  Bool-cases, Option-cases,
}
use regstair.Strings.{Text, text_eq, text_beq, text_beq_iff}
use regstair.Maps.{Map, values, get, put}
use regstair.Metadata.Types.{TagMapping}
use regstair.Metadata.Memory.{Repository}
use regstair.Metadata.Tags.{tag_key}
use regstair.Metadata.TagLaws.{HasNoColon, tag_key_injective}
use regstair.Database.Tables.{Database, first_where}
use regstair.Database.Mappings as D
use regstair.Database.Mappings.{is_tag}
use regstair.Database.Mirror.Keyed.{
  IsKeyed, has_key, first_where-values, values-put_new, values-put_old,
}
use regstair.Database.Mirror.Relation.{Mirrors, mapping_key, any-first_where, is_some}

abbrev pub IsPlain : TagMapping → Type 0
IsPlain mapping = HasNoColon mapping.logical_repository

-- A row has the repository and the tag exactly when it has their key.
is_tag-has_key :
    (repository tag : Text) (row : TagMapping)
    → HasNoColon repository
    → IsPlain row
    → is_tag repository tag row ≡ has_key mapping_key (tag_key repository tag) row
is_tag-has_key repository tag row plain plain_row =
    elim (Bool-cases (text_beq (mapping_key row) (tag_key repository tag))) [
      | inl e ↦
          let (same, same_tag) =
            tag_key_injective row.logical_repository repository row.tag tag plain_row plain
              ((text_beq_iff (mapping_key row) (tag_key repository tag)).0 e) in
          ground (
            arith,
            e,
            same,
            same_tag,
            text_beq_iff row.logical_repository repository,
            text_beq_iff row.tag tag,
          )
      | inr e ↦ elim (Bool-cases (is_tag repository tag row)) [
        | inr f ↦ f ∙ sym e
        | inl f ↦
            let same : row.logical_repository ≡ repository =
              ground (arith, f, text_beq_iff row.logical_repository repository) in
            let same_tag : row.tag ≡ tag = ground (arith, f, text_beq_iff row.tag tag) in
            let key : mapping_key row ≡ tag_key repository tag =
              λ i. tag_key (same i) (same_tag i) in
            absurd (ground (arith, e, text_beq_iff (mapping_key row) (tag_key repository tag), key))
      ]
    ]

first_where-is_tag :
    (repository tag : Text) (rows : List TagMapping)
    → HasNoColon repository
    → All IsPlain rows
    → first_where (is_tag repository tag) rows
      ≡ first_where (has_key mapping_key (tag_key repository tag)) rows
unfolding first_where
first_where-is_tag repository tag [] plain all = refl
first_where-is_tag repository tag (row ∷ rows) plain (here, all) =
    rw
      (
        is_tag-has_key repository tag row plain here,
        first_where-is_tag repository tag rows plain all,
      )
      refl

pub put-IsPlain :
    (tags : Map Text TagMapping) (k : Text) (v : TagMapping)
    → All IsPlain (values tags)
    → IsPlain v
    → All IsPlain (values (put tags k v))
unfolding put values
put-IsPlain [] k v all plain = (plain, tt)
put-IsPlain ((j, w) ∷ tags) k v (here, all) plain = elim (Bool-cases (text_beq j k)) [
  | inl e ↦ rw e (plain, all)
  | inr e ↦ rw e (here, put-IsPlain tags k v all plain)
]

get-IsPlain :
    (tags : Map Text TagMapping) (k : Text) (v : TagMapping)
    → IsKeyed mapping_key tags
    → All IsPlain (values tags)
    → get tags k ≡ some v
    → IsPlain v × (mapping_key v ≡ k)
unfolding get values
get-IsPlain [] k v keyed all there = absurd (cc)
get-IsPlain ((j, w) ∷ tags) k v (own, fresh, keyed) (here, all) there =
    elim (Bool-cases (text_beq j k)) [
      | inl e ↦
          let same : w ≡ v = ground (arith, e, there) in
          (subst IsPlain same here, ap mapping_key (sym same) ∙ sym own ∙ (text_beq_iff j k).0 e)
      | inr e ↦ get-IsPlain tags k v keyed all (ground (arith, e, there))
    ]

module _ (db : Database) (r : Repository) (m : Mirrors db r) where
  pub first_tag :
      (repository tag : Text)
      → HasNoColon repository
      → first_where (is_tag repository tag) (values r.tags) ≡ get r.tags (tag_key repository tag)
  first_tag repository tag plain =
      first_where-is_tag repository tag (values r.tags) plain m.tags_plain
      ∙ first_where-values mapping_key r.tags (tag_key repository tag) m.tags_keyed

  upsert_new :
      (v : TagMapping)
      → IsPlain v
      → get r.tags (mapping_key v) ≡ none
      → D.upsert_tag v (values r.tags) ≡ values (put r.tags (mapping_key v) v)
  unfolding D.upsert_tag
  upsert_new v plain missing =
      let fresh : any (is_tag v.logical_repository v.tag) (values r.tags) ≡ false =
        any-first_where (is_tag v.logical_repository v.tag) (values r.tags)
        ∙ ap is_some (first_tag v.logical_repository v.tag plain ∙ missing) in
      rw (D.upsert_tag, fresh) (sym (values-put_new mapping_key r.tags (mapping_key v) v missing))

  upsert_old :
      (v old : TagMapping)
      → IsPlain v
      → get r.tags (mapping_key v) ≡ some old
      → D.upsert_tag v (values r.tags) ≡ values (put r.tags (mapping_key v) v)
  unfolding D.upsert_tag
  upsert_old v old plain found =
      let taken : any (is_tag v.logical_repository v.tag) (values r.tags) ≡ true =
        any-first_where (is_tag v.logical_repository v.tag) (values r.tags)
        ∙ ap is_some (first_tag v.logical_repository v.tag plain ∙ found) in
      let (plain_old, key) =
        get-IsPlain r.tags (mapping_key v) old m.tags_keyed m.tags_plain found in
      let (same, same_tag) =
        tag_key_injective old.logical_repository v.logical_repository old.tag v.tag plain_old plain
          key in
      let over : TagMapping → TagMapping =
        λ row. record v { logical_repository = row.logical_repository; tag = row.tag } in
      let kept : over old ≡ v = λ i. record v { logical_repository = same i; tag = same_tag i } in
      let hit : is_tag v.logical_repository v.tag old ≡ true = ground (
        arith,
        same,
        same_tag,
        text_beq_iff old.logical_repository v.logical_repository,
        text_beq_iff old.tag v.tag,
      ) in
      rw (D.upsert_tag, taken)
        (sym (
            values-put_old mapping_key over (is_tag v.logical_repository v.tag) (mapping_key v)
              (λ w fits. λ i.
                tag_key
                  ((text_beq_iff w.logical_repository v.logical_repository).0 (ground (arith, fits))
                    i)
                  ((text_beq_iff w.tag v.tag).0 (ground (arith, fits)) i))
              r.tags old m.tags_keyed found hit)
          ∙ ap (λ x. values (put r.tags (mapping_key v) x)) kept)

  pub upsert :
      (v : TagMapping)
      → IsPlain v
      → D.upsert_tag v db.tag_mappings ≡ values (put r.tags (mapping_key v) v)
  upsert v plain = ap (D.upsert_tag v) m.tags ∙ (elim (Option-cases (get r.tags (mapping_key v))) [
    | inl e ↦ upsert_new v plain e
    | inr (old, e) ↦ upsert_old v old plain e
  ])
