-- ===== src/Metadata/TagLaws.antt =====
-- Tag mappings and provenance: what is recorded is found.
use regstair.Base.{
  ◌≡◌, refl, false, ◌&&◌, ◌==◌, nat_eq, none, some, [], ◌∷◌, arith, nat_beq, if◌then◌else◌,
}
use regstair.Strings.{Text, text_eq, text_beq_iff}
use regstair.Errors.{ok}
use regstair.Maps.{get-put}
use regstair.Metadata.Types.{Time, TagMapping}
use regstair.Metadata.Memory.{Repository}
use regstair.Metadata.Tags.{
  tag_key, validate_tag_mapping, validated, record_tag_mapping, find_tag_mapping,
}

-- A name without ":", as every canonical repository name is.
abbrev pub HasNoColon : Text → Type 0
HasNoColon [] = Unit
HasNoColon (c ∷ s) = (nat_beq c 0x3A ≡ false) × HasNoColon s

pub tag_key_injective :
    (a b s t : Text) → HasNoColon a → HasNoColon b → tag_key a s ≡ tag_key b t → (a ≡ b) × (s ≡ t)
unfolding tag_key
tag_key_injective [] [] s t _ _ e = (refl, ground (arith, e))
tag_key_injective [] (d ∷ b) s t _ (h, _) e = absurd (ground (arith, e, h))
tag_key_injective (c ∷ a) [] s t (h, _) _ e = absurd (ground (arith, e, h))
tag_key_injective (c ∷ a) (d ∷ b) s t (_, ha) (_, hb) e =
    let (same_name, same_tag) = tag_key_injective a b s t ha hb (ground (arith, e)) in
    (ground (arith, e, same_name), same_tag)

module _ (now : Time) (mapping : TagMapping) (r : Repository)
    (accepted : validate_tag_mapping mapping ≡ ok tt)
    (plain_name : HasNoColon mapping.logical_repository) where
  -- RecordTagMapping of a valid mapping is what FindTagMapping finds under its repository and tag,
  -- with the times filled in, and what it finds under any other pair, of a repository without ":",
  -- is as before.
  pub find_tag_mapping-record_tag_mapping :
      (logical_repository tag : Text)
      → HasNoColon logical_repository
      → (find_tag_mapping none logical_repository tag (record_tag_mapping none now mapping r).1).0
        ≡ (if logical_repository == mapping.logical_repository && tag == mapping.tag
            then ok (some (validated now mapping))
            else (find_tag_mapping none logical_repository tag r).0)
  unfolding find_tag_mapping record_tag_mapping
  find_tag_mapping-record_tag_mapping logical_repository tag plain =
      let key = tag_key mapping.logical_repository mapping.tag in
      let wanted = tag_key logical_repository tag in
      ground (
        arith,
        accepted,
        get-put r.tags key wanted (validated now mapping),
        text_beq_iff key wanted,
        text_beq_iff logical_repository mapping.logical_repository,
        text_beq_iff tag mapping.tag,
        tag_key_injective mapping.logical_repository logical_repository mapping.tag tag plain_name
            plain,
      )
