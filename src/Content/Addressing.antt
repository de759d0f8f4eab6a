-- ===== src/Content/Addressing.antt =====
-- The files of the content store hold what their names say.
use regstair.Base.{
  ◌≡◌, refl, sym, ap, subst, ◌∙◌, inl, inr, true, false, nat_eq, Option, some, [], ◌∷◌, ◌++◌, arith,
  All, nat_beq, nat_beq_iff, Bool-cases, Option-cases,
}
use regstair.Strings.{Text, text_eq, text_beq, text_beq_iff, codes}
use regstair.Errors.{Error, ok, ◌>>◌, Result-cases, >>-eq-ok}
use regstair.Maps
use regstair.Maps.{Map, get-put_self}
use regstair.Registry.Types.{Bytes, Stream}
use regstair.Content.FileStore.{
  Disk, check, cut_colon, parse_encoded, parse_digest, finish_blob, write_temp, put_blob, open_blob,
}

cut_colon-some :
    (s before after : Text) → cut_colon s ≡ some (before, after) → s ≡ before ++ 0x3A ∷ after
unfolding cut_colon
cut_colon-some [] before after h = absurd (ground arith)
cut_colon-some (c ∷ s) before after h = elim (Bool-cases (nat_beq c 0x3A)) [
  | inl e ↦ let (e1, e2) = colon_here e in rw (e1, e2, (nat_beq_iff c 0x3A).0 e) refl
  | inr e ↦ elim (Option-cases (cut_colon s)) [
    | inl missing ↦ absurd (ground (arith, h, e, missing))
    | inr ((b, a), found) ↦
        let (e1, e2) = colon_later e b a found in
        rw (e1, e2) (ap (◌∷◌ c) (cut_colon-some s b a found))
  ]
]
  where
    colon_here : nat_beq c 0x3A ≡ true → (before ≡ []) × (after ≡ s)
    colon_here e = ground (arith, h, e)

    colon_later :
        nat_beq c 0x3A ≡ false
        → (b a : Text) → cut_colon s ≡ some (b, a)
        → (before ≡ c ∷ b) × (after ≡ a)
    colon_later e b a found = ground (arith, h, e, found)

parse_encoded_ok :
    (digest algorithm encoded name : Text)
    → parse_encoded digest algorithm encoded ≡ ok name
    → (algorithm ≡ codes "sha256") × (encoded ≡ name)
unfolding parse_encoded
parse_encoded_ok digest algorithm encoded name h =
    ground (arith, h, text_beq_iff algorithm (codes "sha256"))

-- A digest that is accepted is "sha256:" with the name of the file behind it.
parse_digest_ok :
    (digest name : Text) → parse_digest digest ≡ ok name → digest ≡ codes "sha256:" ++ name
unfolding parse_digest
parse_digest_ok digest name h = elim (Option-cases (cut_colon digest)) [
  | inl missing ↦ absurd (ground (arith, h, missing))
  | inr ((algorithm, encoded), found) ↦
      let (e, f) = parse_encoded_ok digest algorithm encoded name (rw (found, parse_digest) at h) in
      rw (cut_colon-some digest algorithm encoded found, e, f) refl
]

module _ (digest_bytes : Bytes → Text) where
  -- Each file's bytes have the digest that its name stands for.
  abbrev pub IsAddressed : Map Text Bytes → Type 0
  IsAddressed files = All (λ file. digest_bytes file.1 ≡ codes "sha256:" ++ file.0) files

  put-IsAddressed :
      (files : Map Text Bytes) (name : Text) (body : Bytes)
      → IsAddressed files
      → digest_bytes body ≡ codes "sha256:" ++ name
      → IsAddressed (Maps.put files name body)
  unfolding Maps.put
  put-IsAddressed [] name body h e = (e, tt)
  put-IsAddressed ((k, b) ∷ files) name body (h, hs) e = elim (Bool-cases (text_beq k name)) [
    | inl f ↦ rw f (rw ((text_beq_iff k name).0 f) e, hs)
    | inr f ↦ rw f (h, put-IsAddressed files name body hs e)
  ]

  get-IsAddressed :
      (files : Map Text Bytes) (name : Text) (body : Bytes)
      → IsAddressed files
      → Maps.get files name ≡ some body
      → digest_bytes body ≡ codes "sha256:" ++ name
  unfolding Maps.get
  get-IsAddressed [] name body h e = absurd (ground arith)
  get-IsAddressed ((k, b) ∷ files) name body (h, hs) e = elim (Bool-cases (text_beq k name)) [
    | inl f ↦
        let same : some b ≡ some body = rw f at e in
        subst (λ x. digest_bytes x ≡ codes "sha256:" ++ name) (ground (arith, same))
          (rw ((text_beq_iff k name).0 f) at h)
    | inr f ↦ get-IsAddressed files name body hs (rw f at e)
  ]

  module _ (disk : Disk) (digest : Text) (files : Map Text Bytes) (addressed : IsAddressed files)
      (honest : (other : Bytes)
        → disk.made_by_other ≡ some other
        → digest_bytes other ≡ digest) where
    finish_blob-IsAddressed :
        (encoded : Text) (body : Bytes)
        → digest ≡ codes "sha256:" ++ encoded
        → IsAddressed (finish_blob digest_bytes disk digest encoded body files).1
    unfolding finish_blob
    finish_blob-IsAddressed encoded body e =
        elim (Bool-cases (text_beq (digest_bytes body) digest)) [
          | inr wrong ↦ rw (wrong, finish_blob) addressed
          | inl right ↦
              rw (right, finish_blob)
                (elim (Option-cases disk.rename_error) [
                  | inl done ↦ rw done (
                      put-IsAddressed files encoded body addressed
                        ((text_beq_iff (digest_bytes body) digest).0 right ∙ e))
                  | inr (_, failed) ↦ rw failed (elim (Option-cases disk.made_by_other) [
                    | inl nobody ↦ rw nobody addressed
                    | inr (other, made) ↦
                        rw made
                          (put-IsAddressed files encoded other addressed (honest other made ∙ e))
                  ])
                ])
        ]

    -- PutBlob keeps each file under the digest of its bytes, whatever the disk and the stream do, as
    -- long as another writer, whose file it may find after a failed rename, does so too.
    pub put_blob-IsAddressed :
        (ctx : Option Error) (content : Stream)
        → IsAddressed (put_blob digest_bytes ctx disk digest content files).1
    unfolding put_blob
    put_blob-IsAddressed ctx content = elim (Result-cases (check ctx >> parse_digest digest)) [
      | inr (e, refused) ↦ rw (refused, put_blob) addressed
      | inl (encoded, parsed) ↦
          rw (parsed, put_blob)
            (elim (Result-cases (check disk.stat_error)) [
              | inr (e, refused) ↦ rw refused addressed
              | inl (_, looked) ↦ rw looked (elim (Option-cases (Maps.get files encoded)) [
                | inr (body, there) ↦ rw there addressed
                | inl missing ↦ rw missing (elim (Result-cases (write_temp disk content)) [
                  | inr (e, broken) ↦ rw broken addressed
                  | inl (_, written) ↦ rw written (
                      finish_blob-IsAddressed encoded content.body (
                        parse_digest_ok digest encoded
                          (>>-eq-ok (check ctx) (parse_digest digest) parsed).1))
                ])
              ])
            ])
    ]

  -- Where the files are addressed, OpenBlob returns bytes of the digest that was asked for.
  pub open_blob_digest :
      (ctx : Option Error) (disk : Disk) (digest : Text) (files : Map Text Bytes) (rc : Stream)
      → IsAddressed files
      → (open_blob ctx disk digest files).0 ≡ ok rc
      → digest_bytes rc.body ≡ digest
  unfolding open_blob
  open_blob_digest ctx disk digest files rc addressed opened =
      elim (Result-cases (check ctx >> parse_digest digest)) [
        | inr (e, refused) ↦ absurd (ground (arith, refused, opened))
        | inl (encoded, parsed) ↦ elim (Option-cases (Maps.get files encoded)) [
          | inl missing ↦ absurd (ground (arith, parsed, missing, opened))
          | inr (body, there) ↦ elim (Option-cases disk.open_error) [
            | inr (e, failed) ↦ absurd (ground (arith, parsed, there, failed, opened))
            | inl works ↦
                let same : rc.body ≡ body = ground (arith, parsed, there, works, opened) in
                rw same (
                  get-IsAddressed files encoded body addressed there
                  ∙ sym (
                      parse_digest_ok digest encoded
                        (>>-eq-ok (check ctx) (parse_digest digest) parsed).1))
          ]
        ]
      ]
