-- ===== src/Database/Mirror/Caching.antt =====
-- RecordCacheBindings and ListCacheBindings of internal/metadata/sqlite_cache_bindings.go and of
-- internal/metadata/cache_bindings.go.
use regstair.Base.{
  ◌≡◌, refl, ap, sym, ◌∙◌, Bool, true, List, [], ◌∷◌, Option, none, some, In, All, All-In,
  filter-In, arith, filter, inl, inr,
}
use regstair.Strings.{Text, text_eq, text_beq, text_beq_iff}
use regstair.Sorting.{sort, insert, sort-In}
use regstair.Errors.{lit, ok, ◌>>◌, Result-cases}
use regstair.Effects.{lift, pure, ◌>>=◌}
use regstair.Maps.{Map, values, get, put}
use regstair.Metadata.Types.{Time, CacheBinding}
use regstair.Metadata.Memory.{Repository, check_context}
use regstair.Metadata.Bindings as M
use regstair.Metadata.Bindings.{cache_binding_key, by_key, binds, dated, put_binding, put_bindings}
use regstair.Database.Tables.{Database, explained, checked, select, change, transact, settle}
use regstair.Database.Mappings as D
use regstair.Database.Mappings.{same_binding, rebound, upsert_binding, save_bindings, binding_order}
use regstair.Database.Mirror.Keyed.{IsKeyed, put-IsKeyed}
use regstair.Database.Mirror.Keys.{IsPlainBinding, by_key-binding_order}
use regstair.Database.Mirror.Relation.{
  Mirrors, Corresponds, Corresponds-subst, no_faults, lift_twice, after_checks,
  after_checks-Corresponds,
}
use regstair.Database.Mirror.Bindings.{upsert, put-IsPlainBinding}

module _ {A : Type 0} where
  insert_same_in :
      (p q : A → A → Bool) (x : A) (rows : List A)
      → ((a : A) → In a rows → p a x ≡ q a x)
      → insert p x rows ≡ insert q x rows
  unfolding insert
  insert_same_in p q x [] same = refl
  insert_same_in p q x (r ∷ rows) same =
      rw (same r (inl refl), insert_same_in p q x rows (λ a m. same a (inr m))) refl

  -- Two orders that agree on a list sort it alike.
  sort_same_in :
      (p q : A → A → Bool) (rows : List A)
      → ((a b : A) → In a rows → In b rows → p a b ≡ q a b)
      → sort p rows ≡ sort q rows
  unfolding sort
  sort_same_in p q [] same = refl
  sort_same_in p q (r ∷ rows) same =
      insert_same_in p q r (sort p rows) (λ a m. same a r (inr (sort-In p a rows m)) (inl refl))
      ∙ ap (insert q r) (sort_same_in p q rows (λ a b m n. same a b (inr m) (inr n)))

dated-IsPlainBinding :
    (now : Time) (o : Option CacheBinding) (b : CacheBinding)
    → IsPlainBinding b
    → IsPlainBinding (dated now o b)
unfolding dated
dated-IsPlainBinding now none b plain = plain
dated-IsPlainBinding now (some old) b plain = plain

dated-IsKeyed :
    (now : Time) (o : Option CacheBinding) (b : CacheBinding) (m : Map Text CacheBinding)
    → IsKeyed cache_binding_key m
    → IsKeyed cache_binding_key (put m (cache_binding_key b) (dated now o b))
unfolding dated cache_binding_key
dated-IsKeyed now none b m keyed = put-IsKeyed cache_binding_key m (dated now none b) keyed
dated-IsKeyed now (some old) b m keyed =
    put-IsKeyed cache_binding_key m (dated now (some old) b) keyed

-- The rows that the loop over the bindings leaves.
upserts : Time → List CacheBinding → List CacheBinding → List CacheBinding
upserts now [] rows = rows
upserts now (b ∷ bs) rows = upserts now bs (upsert_binding now b rows)

record Holds (rows : List CacheBinding) (m : Map Text CacheBinding) : Type 0 where
  same : rows ≡ values m
  keyed : IsKeyed cache_binding_key m
  plain : All IsPlainBinding (values m)

upserts-Holds :
    (now : Time) (bs : List CacheBinding) (rows : List CacheBinding) (m : Map Text CacheBinding)
    → All IsPlainBinding bs
    → Holds rows m
    → Holds (upserts now bs rows) (put_bindings now bs m)
unfolding put_bindings upserts put_binding
upserts-Holds now [] rows m plain h = h
upserts-Holds now (b ∷ bs) rows m (here, plain) h =
    upserts-Holds now bs (upsert_binding now b rows) (put_binding now b m) plain (record {
      same = ap (upsert_binding now b) h.same ∙ upsert now b m here h.keyed h.plain;
      keyed = dated-IsKeyed now (get m (cache_binding_key b)) b m h.keyed;
      plain =
          put-IsPlainBinding m (cache_binding_key b) (dated now (get m (cache_binding_key b)) b)
            h.plain (dated-IsPlainBinding now (get m (cache_binding_key b)) b here);
    })

saved :
    (now : Time) (bs : List CacheBinding) (db : Database)
    → save_bindings no_faults now bs db
      ≡ (ok tt, record db { cache_bindings = upserts now bs db.cache_bindings })
unfolding save_bindings upserts pure explained change checked ◌>>=◌
saved now [] db = refl
saved now (b ∷ bs) db =
    saved now bs (record db { cache_bindings = upsert_binding now b db.cache_bindings })

-- Two texts that a third one is equal to.
same_text : (a b c : Text) → text_beq a c ≡ true → text_beq b c ≡ true → text_beq a b ≡ true
same_text a b c e f = (text_beq_iff a b).1 ((text_beq_iff a c).0 e ∙ sym ((text_beq_iff b c).0 f))

module _ (db : Database) (r : Repository) (m : Mirrors db r) where
  with_bindings : Time → List CacheBinding → Database
  with_bindings now bs = record db { cache_bindings = upserts now bs db.cache_bindings }

  bound : Time → List CacheBinding → Repository
  bound now bs = record r { bindings = put_bindings now bs r.bindings }

  bound-Mirrors :
      (now : Time) (bs : List CacheBinding)
      → All IsPlainBinding bs
      → Mirrors (with_bindings now bs) (bound now bs)
  unfolding with_bindings bound
  bound-Mirrors now bs plain =
      let h =
        upserts-Holds now bs db.cache_bindings r.bindings plain
          (record { same = m.bindings; keyed = m.bindings_keyed; plain = m.bindings_plain }) in
      record {
        users = m.users;
        keyed = m.keyed;
        agree = record { keyed = m.agree.keyed; owned = m.agree.owned; known = m.agree.known };
        events = m.events;
        last = m.last;
        tags = m.tags;
        tags_keyed = m.tags_keyed;
        tags_plain = m.tags_plain;
        provenance = m.provenance;
        bindings = h.same;
        bindings_keyed = h.keyed;
        bindings_plain = h.plain;
      }

  transacted :
      (now : Time) (bs : List CacheBinding)
      → transact no_faults
          (lit "begin cache binding save" ∷ [])
          (lit "commit cache bindings" ∷ [])
          (save_bindings no_faults now bs)
          db
        ≡ (ok tt, with_bindings now bs)
  unfolding transact settle with_bindings
  transacted now bs = ap (settle none (lit "commit cache bindings" ∷ []) db) (saved now bs db)

  sql_bind :
      (now : Time) (bs : List CacheBinding)
      → D.record_cache_bindings no_faults none now bs db
        ≡ after_checks
            (check_context none >> M.validate_cache_bindings bs)
            db
            (ok tt, with_bindings now bs)
  unfolding D.record_cache_bindings
  sql_bind now bs =
      lift_twice (check_context none) (M.validate_cache_bindings bs) _ db
      ∙ ap (after_checks (check_context none >> M.validate_cache_bindings bs) db)
          (transacted now bs)

  memory_bind :
      (now : Time) (bs : List CacheBinding)
      → M.record_cache_bindings none now bs r
        ≡ after_checks (check_context none >> M.validate_cache_bindings bs) r (ok tt, bound now bs)
  unfolding M.record_cache_bindings bound
  memory_bind now bs = elim (Result-cases (M.validate_cache_bindings bs)) [
    | inl (a, e) ↦ rw (M.record_cache_bindings, e) refl
    | inr (f, e) ↦ rw (M.record_cache_bindings, e) refl
  ]

  pub record_cache_bindings-Corresponds :
      (now : Time) (bs : List CacheBinding)
      → All IsPlainBinding bs
      → Corresponds
          (D.record_cache_bindings no_faults none now bs db)
          (M.record_cache_bindings none now bs r)
  record_cache_bindings-Corresponds now bs plain =
      Corresponds-subst (sql_bind now bs) (memory_bind now bs) (
        after_checks-Corresponds (check_context none >> M.validate_cache_bindings bs) db r _ _ m
          λ valid. (refl, bound-Mirrors now bs plain))

  same_order :
      (repository route digest : Text)
      → sort binding_order (filter (binds repository route digest) (values r.bindings))
        ≡ sort by_key (filter (binds repository route digest) (values r.bindings))
  same_order repository route digest =
      let rows = values r.bindings in
      let asked = binds repository route digest in
      sort_same_in binding_order by_key (filter asked rows) λ a b there_a there_b.
        let (in_a, hit_a) = filter-In asked a rows there_a in
        let (in_b, hit_b) = filter-In asked b rows there_b in
        sym (
          by_key-binding_order a b (All-In IsPlainBinding a rows m.bindings_plain in_a)
            (All-In IsPlainBinding b rows m.bindings_plain in_b)
            (same_text a.logical_repository b.logical_repository repository (ground (arith, hit_a))
              (ground (arith, hit_b)))
            (same_text a.route b.route route (ground (arith, hit_a)) (ground (arith, hit_b)))
            (same_text a.object_digest b.object_digest digest (ground (arith, hit_a))
              (ground (arith, hit_b))))

  pub list_cache_bindings-Corresponds :
      (repository route digest : Text)
      → Corresponds
          (D.list_cache_bindings no_faults none repository route digest db)
          (M.list_cache_bindings none repository route digest r)
  unfolding D.list_cache_bindings M.list_cache_bindings lift explained select checked ◌>>=◌
  list_cache_bindings-Corresponds repository route digest = (
    ap (λ rows. sort binding_order (filter (binds repository route digest) rows)) m.bindings
        ∙ same_order repository route digest,
    m,
  )
