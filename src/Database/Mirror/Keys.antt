-- ===== src/Database/Mirror/Keys.antt =====
-- The keys of cache bindings in internal/metadata/cache_bindings.go, which join the fields with a rune
-- 0, and the primary key and the order of internal/metadata/sqlite_cache_bindings.go.
use mathlib.Core.List.{append_assoc}
use regstair.Base.{
  ◌≡◌, refl, ap, sym, ◌∙◌, true, false, [], ◌∷◌, ◌++◌, ◌==◌, arith, inl, inr, Bool-cases,
  if◌then◌else◌, nat_beq, nat_eq,
}
use regstair.Strings.{Text, text_eq, text_beq, text_beq_iff, text_ltb}
use regstair.Metadata.Types.{CacheBinding}
use regstair.Metadata.Bindings.{cache_binding_key, by_key, separator}
use regstair.Database.Mappings.{same_binding, binding_order}

abbrev pub HasNoNul : Text → Type 0
HasNoNul [] = Unit {0}
HasNoNul (c ∷ s) = (nat_beq c 0 ≡ false) × HasNoNul s

separated_injective :
    (a b s t : Text) → HasNoNul a → HasNoNul b → a ++ 0 ∷ s ≡ b ++ 0 ∷ t → (a ≡ b) × (s ≡ t)
separated_injective [] [] s t _ _ e = (refl, ground (arith, e))
separated_injective [] (d ∷ b) s t _ (h, _) e = absurd (ground (arith, e, h))
separated_injective (c ∷ a) [] s t (h, _) _ e = absurd (ground (arith, e, h))
separated_injective (c ∷ a) (d ∷ b) s t (_, ha) (_, hb) e =
    let (same, rest) = separated_injective a b s t ha hb (ground (arith, e)) in
    (ground (arith, e, same), rest)

-- The first field that differs decides.
text_ltb-separated :
    (a b s t : Text)
    → HasNoNul a
    → HasNoNul b
    → text_ltb (a ++ 0 ∷ s) (b ++ 0 ∷ t) ≡ (if a == b then text_ltb s t else text_ltb a b)
unfolding text_ltb text_beq
text_ltb-separated [] [] s t _ _ = ground arith
text_ltb-separated [] (d ∷ b) s t _ (h, _) = ground (arith, h)
text_ltb-separated (c ∷ a) [] s t (h, _) _ = ground (arith, h)
text_ltb-separated (c ∷ a) (d ∷ b) s t (_, ha) (_, hb) =
    ground (arith, text_ltb-separated a b s t ha hb)

-- The fields of the key in front of the last have no rune 0.
abbrev pub IsPlainBinding : CacheBinding → Type 0
IsPlainBinding b =
    HasNoNul b.logical_repository
    × HasNoNul b.route
    × HasNoNul b.source
    × HasNoNul b.manifest_digest
    × HasNoNul b.object_digest
    × HasNoNul b.access

record SameFields (a b : CacheBinding) : Type 0 where
  logical_repository : a.logical_repository ≡ b.logical_repository
  route : a.route ≡ b.route
  source : a.source ≡ b.source
  manifest_digest : a.manifest_digest ≡ b.manifest_digest
  object_digest : a.object_digest ≡ b.object_digest
  access : a.access ≡ b.access
  user_id : a.user_id ≡ b.user_id

-- The key behind one of its fields.
abbrev from_access : CacheBinding → Text
from_access b = b.access ++ 0 ∷ b.user_id

abbrev from_object : CacheBinding → Text
from_object b = b.object_digest ++ 0 ∷ from_access b

abbrev from_manifest : CacheBinding → Text
from_manifest b = b.manifest_digest ++ 0 ∷ from_object b

abbrev from_source : CacheBinding → Text
from_source b = b.source ++ 0 ∷ from_manifest b

abbrev from_route : CacheBinding → Text
from_route b = b.route ++ 0 ∷ from_source b

key-split : (b : CacheBinding) → cache_binding_key b ≡ b.logical_repository ++ 0 ∷ from_route b
unfolding cache_binding_key
key-split b = simp (append_assoc)

key-SameFields :
    (a b : CacheBinding)
    → IsPlainBinding a
    → IsPlainBinding b
    → cache_binding_key a ≡ cache_binding_key b
    → SameFields a b
unfolding cache_binding_key
key-SameFields a b (r, u, s, m, o, c) (r', u', s', m', o', c') e =
    let (r_same, e1) =
      separated_injective a.logical_repository b.logical_repository (from_route a) (from_route b) r
        r' (sym (key-split a) ∙ e ∙ key-split b) in
    let (u_same, e2) =
      separated_injective a.route b.route (from_source a) (from_source b) u u' e1 in
    let (s_same, e3) =
      separated_injective a.source b.source (from_manifest a) (from_manifest b) s s' e2 in
    let (m_same, e4) =
      separated_injective a.manifest_digest b.manifest_digest (from_object a) (from_object b) m m'
        e3 in
    let (o_same, e5) =
      separated_injective a.object_digest b.object_digest (from_access a) (from_access b) o o' e4 in
    let (c_same, e6) = separated_injective a.access b.access a.user_id b.user_id c c' e5 in
    record {
      logical_repository = r_same;
      route = u_same;
      source = s_same;
      manifest_digest = m_same;
      object_digest = o_same;
      access = c_same;
      user_id = e6;
    }

fields-key : (a b : CacheBinding) → SameFields a b → cache_binding_key a ≡ cache_binding_key b
unfolding cache_binding_key
fields-key a b h = λ i.
    h.logical_repository i
    ++ separator
    ++ h.route i
    ++ separator
    ++ h.source i
    ++ separator
    ++ h.manifest_digest i
    ++ separator
    ++ h.object_digest i
    ++ separator
    ++ h.access i
    ++ separator
    ++ h.user_id i

same_binding-SameFields : (b row : CacheBinding) → same_binding b row ≡ true → SameFields row b
same_binding-SameFields b row h = record {
  logical_repository =
      (text_beq_iff row.logical_repository b.logical_repository).0 (ground (arith, h));
  route = (text_beq_iff row.route b.route).0 (ground (arith, h));
  source = (text_beq_iff row.source b.source).0 (ground (arith, h));
  manifest_digest = (text_beq_iff row.manifest_digest b.manifest_digest).0 (ground (arith, h));
  object_digest = (text_beq_iff row.object_digest b.object_digest).0 (ground (arith, h));
  access = (text_beq_iff row.access b.access).0 (ground (arith, h));
  user_id = (text_beq_iff row.user_id b.user_id).0 (ground (arith, h));
}

SameFields-same_binding : (b row : CacheBinding) → SameFields row b → same_binding b row ≡ true
SameFields-same_binding b row h =
    rw
      (
        (text_beq_iff row.logical_repository b.logical_repository).1 h.logical_repository,
        (text_beq_iff row.route b.route).1 h.route,
        (text_beq_iff row.source b.source).1 h.source,
        (text_beq_iff row.manifest_digest b.manifest_digest).1 h.manifest_digest,
        (text_beq_iff row.object_digest b.object_digest).1 h.object_digest,
        (text_beq_iff row.access b.access).1 h.access,
        (text_beq_iff row.user_id b.user_id).1 h.user_id,
      )
      refl

-- A row is the binding that is recorded exactly when it has its key.
pub same_binding-key :
    (b row : CacheBinding)
    → IsPlainBinding b
    → IsPlainBinding row
    → same_binding b row ≡ text_beq (cache_binding_key row) (cache_binding_key b)
same_binding-key b row plain plain_row = elim (Bool-cases (same_binding b row)) [
  | inl e ↦
      e
      ∙ sym (
          (text_beq_iff (cache_binding_key row) (cache_binding_key b)).1
            (fields-key row b (same_binding-SameFields b row e)))
  | inr e ↦ elim (Bool-cases (text_beq (cache_binding_key row) (cache_binding_key b))) [
    | inr f ↦ e ∙ sym f
    | inl f ↦
        let fields =
          key-SameFields row b plain_row plain
            ((text_beq_iff (cache_binding_key row) (cache_binding_key b)).0 f) in
        let clash : true ≡ false = sym (SameFields-same_binding b row fields) ∙ e in absurd (cc)
  ]
]

pub same_binding-equal :
    (b row : CacheBinding) → same_binding b row ≡ true → cache_binding_key row ≡ cache_binding_key b
same_binding-equal b row e = fields-key row b (same_binding-SameFields b row e)

-- The order by key is that of the columns, where the other columns are the same.
pub by_key-binding_order :
    (a b : CacheBinding)
    → IsPlainBinding a
    → IsPlainBinding b
    → text_beq a.logical_repository b.logical_repository ≡ true
    → text_beq a.route b.route ≡ true
    → text_beq a.object_digest b.object_digest ≡ true
    → by_key a b ≡ binding_order a b
unfolding cache_binding_key binding_order
by_key-binding_order a b (r, u, s, m, o, c) (r', u', s', m', o', c') same_r same_u same_o =
    let e1 =
      text_ltb-separated a.logical_repository b.logical_repository (from_route a) (from_route b) r
        r' in
    let e2 = text_ltb-separated a.route b.route (from_source a) (from_source b) u u' in
    let e3 = text_ltb-separated a.source b.source (from_manifest a) (from_manifest b) s s' in
    let e4 =
      text_ltb-separated a.manifest_digest b.manifest_digest (from_object a) (from_object b) m m' in
    let e5 =
      text_ltb-separated a.object_digest b.object_digest (from_access a) (from_access b) o o' in
    let e6 = text_ltb-separated a.access b.access a.user_id b.user_id c c' in
    ap (λ k. text_ltb k (cache_binding_key b)) (key-split a)
    ∙ ap (text_ltb (a.logical_repository ++ 0 ∷ from_route a)) (key-split b)
    ∙ e1
    ∙ ground (arith, same_r, same_u, same_o, e2, e3, e4, e5, e6)
