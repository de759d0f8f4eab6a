-- ===== src/Database/Mirror/Bindings.antt =====
-- RecordCacheBindings and ListCacheBindings of internal/metadata/sqlite_cache_bindings.go next to those
-- of internal/metadata/cache_bindings.go.
use regstair.Base.{
  ◌+◌, ◌≡◌, refl, ap, sym, ◌∙◌, true, false, List, [], ◌∷◌, none, some, All, any, arith, inl, inr,
  Bool-cases, Option-cases, if◌then◌else◌, leb,
}
use regstair.Strings.{Text, text_eq, text_beq, text_beq_iff}
use regstair.Maps.{Map, values, get, put}
use regstair.Metadata.Types.{Time, CacheBinding}
use regstair.Metadata.Memory.{next_updated_at}
use regstair.Metadata.Bindings.{cache_binding_key, dated, put_binding}
use regstair.Database.Tables.{first_where}
use regstair.Database.Mappings.{same_binding, rebound, upsert_binding}
use regstair.Database.Mirror.Keyed.{
  IsKeyed, has_key, first_where-values, values-put_new, values-put_old,
}
use regstair.Database.Mirror.Keys.{IsPlainBinding, same_binding-key, same_binding-equal}
use regstair.Database.Mirror.Relation.{any-first_where, is_some}

first_where-same_binding :
    (b : CacheBinding) (rows : List CacheBinding)
    → IsPlainBinding b
    → All IsPlainBinding rows
    → first_where (same_binding b) rows
      ≡ first_where (has_key cache_binding_key (cache_binding_key b)) rows
unfolding first_where
first_where-same_binding b [] plain all = refl
first_where-same_binding b (row ∷ rows) plain (here, all) =
    rw (same_binding-key b row plain here, first_where-same_binding b rows plain all) refl

pub put-IsPlainBinding :
    (m : Map Text CacheBinding) (k : Text) (v : CacheBinding)
    → All IsPlainBinding (values m)
    → IsPlainBinding v
    → All IsPlainBinding (values (put m k v))
unfolding put values
put-IsPlainBinding [] k v all plain = (plain, tt)
put-IsPlainBinding ((j, w) ∷ m) k v (here, all) plain = elim (Bool-cases (text_beq j k)) [
  | inl e ↦ rw e (plain, all)
  | inr e ↦ rw e (here, put-IsPlainBinding m k v all plain)
]

-- What is stored under the key of a binding has its key.
get-same_binding :
    (m : Map Text CacheBinding) (b v : CacheBinding)
    → IsPlainBinding b
    → IsKeyed cache_binding_key m
    → All IsPlainBinding (values m)
    → get m (cache_binding_key b) ≡ some v
    → same_binding b v ≡ true
unfolding get values
get-same_binding [] b v plain keyed all there = absurd (cc)
get-same_binding ((j, w) ∷ m) b v plain (own, fresh, keyed) (here, all) there =
    elim (Bool-cases (text_beq j (cache_binding_key b))) [
      | inl e ↦
          let same : w ≡ v = ground (arith, e, there) in
          let key : text_beq (cache_binding_key w) (cache_binding_key b) ≡ true =
            ap (λ k. text_beq k (cache_binding_key b)) (sym own) ∙ e in
          ap (same_binding b) (sym same) ∙ same_binding-key b w plain here ∙ key
      | inr e ↦ get-same_binding m b v plain keyed all (ground (arith, e, there))
    ]

module _ (now : Time) (b : CacheBinding) (m : Map Text CacheBinding) (plain : IsPlainBinding b)
    (keyed : IsKeyed cache_binding_key m) (all : All IsPlainBinding (values m)) where
  any_stored : any (same_binding b) (values m) ≡ is_some (get m (cache_binding_key b))
  any_stored =
      any-first_where (same_binding b) (values m)
      ∙ ap is_some (
          first_where-same_binding b (values m) plain all
          ∙ first_where-values cache_binding_key m (cache_binding_key b) keyed)

  upsert_new :
      get m (cache_binding_key b) ≡ none
      → upsert_binding now b (values m) ≡ values (put_binding now b m)
  unfolding upsert_binding put_binding dated
  upsert_new e =
      let fresh : any (same_binding b) (values m) ≡ false = any_stored ∙ ap is_some e in
      rw (upsert_binding, fresh, put_binding, e)
        (sym (values-put_new cache_binding_key m (cache_binding_key b) _ e))

  -- The row that is changed is the binding with its old time.
  rebound-dated :
      (old : CacheBinding) → same_binding b old ≡ true → rebound now b old ≡ dated now (some old) b
  unfolding dated next_updated_at
  rebound-dated old hit =
      let time : (if leb now old.updated_at then old.updated_at + 1 else now)
          ≡ next_updated_at now old.updated_at =
        ground arith in
      λ i. record b {
        logical_repository =
            (text_beq_iff old.logical_repository b.logical_repository).0 (ground (arith, hit)) i;
        route = (text_beq_iff old.route b.route).0 (ground (arith, hit)) i;
        source = (text_beq_iff old.source b.source).0 (ground (arith, hit)) i;
        manifest_digest =
            (text_beq_iff old.manifest_digest b.manifest_digest).0 (ground (arith, hit)) i;
        object_digest = (text_beq_iff old.object_digest b.object_digest).0 (ground (arith, hit)) i;
        access = (text_beq_iff old.access b.access).0 (ground (arith, hit)) i;
        user_id = (text_beq_iff old.user_id b.user_id).0 (ground (arith, hit)) i;
        created_at = old.created_at;
        updated_at = time i;
      }

  upsert_old :
      (old : CacheBinding)
      → get m (cache_binding_key b) ≡ some old
      → upsert_binding now b (values m) ≡ values (put_binding now b m)
  unfolding upsert_binding put_binding
  upsert_old old e =
      let taken : any (same_binding b) (values m) ≡ true = any_stored ∙ ap is_some e in
      let hit = get-same_binding m b old plain keyed all e in
      rw (upsert_binding, taken, put_binding, e)
        (sym (
            values-put_old cache_binding_key (rebound now b) (same_binding b) (cache_binding_key b)
              (same_binding-equal b) m old keyed e hit)
          ∙ ap (λ x. values (put m (cache_binding_key b) x)) (rebound-dated old hit))

  pub upsert : upsert_binding now b (values m) ≡ values (put_binding now b m)
  upsert = elim (Option-cases (get m (cache_binding_key b))) [
    | inl e ↦ upsert_new e
    | inr (old, e) ↦ upsert_old old e
  ]
