-- ===== src/Metadata/Bindings.antt =====
-- internal/metadata/cache_bindings.go: who may have which cached object.
use regstair.Base.{
  ◌&&◌, ◌||◌, Bool, not, Option, none, some, List, [], ◌∷◌, ◌++◌, ◌==◌, filter, if◌then◌else◌,
}
use regstair.Strings.{Text, text_eq, text_ltb, codes}
use regstair.Errors.{Result, ok, err, ◌>>◌, refuse_if, wrap, lit, invalid_record}
use regstair.Effects.{Exec}
use regstair.Maps
use regstair.Maps.{Map}
use regstair.Sorting.{sort}
use regstair.Metadata.Types.{
  Time, CacheBinding, access_challenge, access_proxy, access_current_user_required,
}
use regstair.Metadata.Memory.{Repository, Context, check_context, next_updated_at}

-- a != b, of two tests
abbrev pub differ : Bool → Bool → Bool
differ a b = if a then not b else b

unfoldable pub validate_cache_binding : CacheBinding → Result (Unit {0})
validate_cache_binding b =
    refuse_if
      (b.logical_repository == []
        || b.route == []
        || b.source == []
        || b.physical_repository == []
        || b.manifest_digest == []
        || b.object_digest == [])
      (wrap invalid_record (lit "incomplete cache binding" ∷ []))
    >> refuse_if (not (b.object_kind == codes "manifest") && not (b.object_kind == codes "blob"))
        (wrap invalid_record (lit "unsupported cache object kind" ∷ []))
    >> refuse_if
        (not (b.access == access_challenge)
          && not (b.access == access_proxy)
          && not (b.access == access_current_user_required))
        (wrap invalid_record (lit "unsupported cache access" ∷ []))
    >> refuse_if (differ (b.access == access_current_user_required) (not (b.user_id == [])))
        (wrap invalid_record (lit "current-user cache binding requires exactly one user" ∷ []))

-- "\x00"
abbrev pub separator : Text
separator = 0 ∷ []

unfoldable pub cache_binding_key : CacheBinding → Text
cache_binding_key b =
    b.logical_repository ++ separator ++ b.route ++ separator ++ b.source ++ separator
    ++ b.manifest_digest ++ separator ++ b.object_digest ++ separator ++ b.access ++ separator
    ++ b.user_id

-- The first loop.
unfoldable pub validate_cache_bindings : List CacheBinding → Result (Unit {0})
validate_cache_bindings [] = ok tt
validate_cache_bindings (b ∷ bs) =
    let rest = validate_cache_bindings bs in validate_cache_binding b >> rest

-- The binding as it is stored over the one that is there.
unfoldable pub dated : Time → Option CacheBinding → CacheBinding → CacheBinding
dated now (some existing) b = record b {
  created_at = existing.created_at;
  updated_at = next_updated_at now existing.updated_at;
}
dated now none b = record b { created_at = now; updated_at = now }

-- One round of the second loop, and the loop.
unfoldable pub put_binding : Time → CacheBinding → Map Text CacheBinding → Map Text CacheBinding
put_binding now b m = let key = cache_binding_key b in Maps.put m key (dated now (Maps.get m key) b)

unfoldable pub put_bindings :
    Time → List CacheBinding → Map Text CacheBinding → Map Text CacheBinding
put_bindings now [] m = m
put_bindings now (b ∷ bs) m = put_bindings now bs (put_binding now b m)

unfoldable pub record_cache_bindings :
    Context → Time → List CacheBinding → Exec Repository (Unit {0})
record_cache_bindings ctx now bindings r =
    elim (check_context ctx >> validate_cache_bindings bindings) [
      | err e ↦ (err e, r)
      | ok _ ↦ (ok tt, record r { bindings = put_bindings now bindings r.bindings })
    ]

abbrev pub by_key : CacheBinding → CacheBinding → Bool
by_key a b = text_ltb (cache_binding_key a) (cache_binding_key b)

abbrev pub binds : Text → Text → Text → CacheBinding → Bool
binds logical_repository route object_digest b =
    b.logical_repository == logical_repository
    && b.route == route
    && b.object_digest == object_digest

unfoldable pub list_cache_bindings :
    Context → Text → Text → Text → Exec Repository (List CacheBinding)
list_cache_bindings ctx logical_repository route object_digest r = elim (check_context ctx) [
  | err e ↦ (err e, r)
  | ok _ ↦ (
    ok (
        sort by_key
          (filter (binds logical_repository route object_digest) (Maps.values r.bindings))),
    r,
  )
]
