-- ===== src/Content/FileStore.antt =====
-- FileStore of internal/content/store.go. The state is the directory blobs/sha256: what each file
-- name holds. What the operating system answers to a call is in `Disk`, SHA-256 is an argument.
use regstair.Base.{
  ℕ, ℤ, pos, negsuc, ◌&&◌, ◌||◌, Bool, not, Option, none, some, List, [], ◌∷◌, ◌++◌, ◌==◌, nat_eq,
  leb, length, all, if◌then◌else◌,
}
use regstair.Strings.{Text, text_eq, text_ltb, codes}
use regstair.Errors.{
  Error, Result, ok, err, ◌>>◌, refuse_if, wrap, plain_error, prefixed, lit, plain, quoted,
  unsupported_digest, blob_not_found, blob_digest_mismatch,
}
use regstair.Effects.{Exec}
use regstair.Maps
use regstair.Maps.{Map}
use regstair.Sorting.{sort}
use regstair.Registry.Types.{Bytes, Stream}
use regstair.Content.Types.{BlobDescriptor}

-- What the operating system says: the errors of os.Stat, os.CreateTemp, Write, Close, os.Rename and
-- os.Open, and the blob that another writer has put there when a rename fails.
pub record Disk : Type 0 where
  pub stat_error : Option Error
  pub size_error : Option Error
  pub create_error : Option Error
  pub write_error : Option Error
  pub close_error : Option Error
  pub rename_error : Option Error
  pub made_by_other : Option Bytes
  pub open_error : Option Error

-- if err != nil { return err }
abbrev pub check : Option Error → Result (Unit {0})
check none = ok tt
check (some e) = err e

-- strings.Cut(s, ":")
unfoldable pub cut_colon : Text → Option (Text × Text)
cut_colon [] = none
cut_colon (c ∷ s) =
    let rest = cut_colon s in
    if c == 0x3A
    then some ([], s)
    else elim rest [ none ↦ none | some (before, after) ↦ some (c ∷ before, after) ]

-- hex.DecodeString takes the digits in both cases.
abbrev pub is_hex_digit : ℕ → Bool
is_hex_digit c = leb 48 c && leb c 57 || leb 65 c && leb c 70 || leb 97 c && leb c 102

-- The part behind "sha256:", of 64 digits.
unfoldable pub parse_encoded : Text → Text → Text → Result Text
parse_encoded digest algorithm encoded =
    refuse_if (algorithm == [] || encoded == []) (wrap unsupported_digest (quoted digest ∷ []))
    >> refuse_if (not (algorithm == codes "sha256")) (wrap unsupported_digest (quoted digest ∷ []))
    >> refuse_if (not (length encoded == 64))
        (wrap unsupported_digest (lit "invalid sha256 length for " ∷ quoted digest ∷ []))
    >> refuse_if (not (all is_hex_digit encoded))
        (wrap unsupported_digest (lit "invalid sha256 encoding for " ∷ quoted digest ∷ []))
    >> ok encoded

unfoldable pub parse_digest : Text → Result Text
parse_digest digest = elim (cut_colon digest) [
  | none ↦ err (wrap unsupported_digest (quoted digest ∷ []))
  | some (algorithm, encoded) ↦ parse_encoded digest algorithm encoded
]

unfoldable pub new_descriptor : Text → ℤ → Result BlobDescriptor
new_descriptor digest size = elim (parse_digest digest) [
  | err e ↦ err e
  | ok _ ↦ elim size [
    | pos n ↦ ok (record { digest = digest; size = pos n })
    | negsuc n ↦ err (plain_error (lit "descriptor size must not be negative" ∷ []))
  ]
]

abbrev pub described : Text → Bytes → BlobDescriptor
described digest body = record { digest = digest; size = pos (length body) }

-- The temporary file: made, written from the stream, closed.
unfoldable pub write_temp : Disk → Stream → Result (Unit {0})
write_temp disk content = elim disk.create_error [
  | some e ↦ err (prefixed (lit "create blob temp file" ∷ []) e)
  | none ↦ check disk.write_error >> check content.read_error >> elim disk.close_error [
    | some e ↦ err (prefixed (lit "close blob temp file" ∷ []) e)
    | none ↦ ok tt
  ]
]

module _ (digest_bytes : Bytes → Text) where
  -- The temporary file was written: it becomes the blob if its digest is the one announced.
  unfoldable pub finish_blob : Disk → Text → Text → Bytes → Exec (Map Text Bytes) BlobDescriptor
  finish_blob disk digest encoded body files =
      if not (digest_bytes body == digest)
      then (
        err (
            wrap blob_digest_mismatch
              (lit "got " ∷ plain (digest_bytes body) ∷ lit " want " ∷ plain digest ∷ [])),
        files,
      )
      else elim disk.rename_error [
        | none ↦ (ok (described digest body), Maps.put files encoded body)
        | some e ↦ elim disk.made_by_other [
          | some other ↦ (ok (described digest body), Maps.put files encoded other)
          | none ↦ (err (prefixed (lit "finalize blob" ∷ []) e), files)
        ]
      ]

  -- A blob that is there is not read again.
  unfoldable pub put_blob :
      Option Error → Disk → Text → Stream → Exec (Map Text Bytes) BlobDescriptor
  put_blob ctx disk digest content files = elim (check ctx >> parse_digest digest) [
    | err e ↦ (err e, files)
    | ok encoded ↦ elim (check disk.stat_error) [
      | err e ↦ (err e, files)
      | ok _ ↦ elim (Maps.get files encoded) [
        | some body ↦ (check disk.size_error >> ok (described digest body), files)
        | none ↦ elim (write_temp disk content) [
          | err e ↦ (err e, files)
          | ok _ ↦ finish_blob disk digest encoded content.body files
        ]
      ]
    ]
  ]

unfoldable pub open_blob : Option Error → Disk → Text → Exec (Map Text Bytes) Stream
open_blob ctx disk digest files = elim (check ctx >> parse_digest digest) [
  | err e ↦ (err e, files)
  | ok encoded ↦ elim (Maps.get files encoded) [
    | none ↦ (err (wrap blob_not_found (plain digest ∷ [])), files)
    | some body ↦ elim disk.open_error [
      | some e ↦ (err (prefixed (lit "open blob" ∷ []) e), files)
      | none ↦ (ok (record { body = body; read_error = none; close_error = none }), files)
    ]
  ]
]

unfoldable pub has_blob : Option Error → Disk → Text → Exec (Map Text Bytes) Bool
has_blob ctx disk digest files = elim (check ctx >> parse_digest digest) [
  | err e ↦ (err e, files)
  | ok encoded ↦ (check disk.stat_error >> ok (Maps.has files encoded), files)
]

-- The loop over the directory; a file whose name is no digest is left out.
unfoldable pub listed_blobs : Map Text Bytes → List BlobDescriptor
listed_blobs [] = []
listed_blobs ((name, body) ∷ files) =
    let rest = listed_blobs files in
    elim (parse_digest (codes "sha256:" ++ name)) [
      | err _ ↦ rest
      | ok _ ↦ described (codes "sha256:" ++ name) body ∷ rest
    ]

abbrev pub by_digest : BlobDescriptor → BlobDescriptor → Bool
by_digest a b = text_ltb a.digest b.digest

unfoldable pub list_blobs : Option Error → Disk → Exec (Map Text Bytes) (List BlobDescriptor)
list_blobs ctx disk files =
    (check ctx >> check disk.stat_error >> ok (sort by_digest (listed_blobs files)), files)
