-- ===== src/Content/Tests.antt =====
-- Runs of the content store, and its theorems at these runs.
use regstair.Base.{◌+◌, ◌≡◌, refl, none, [], ◌∷◌, ◌++◌, length}
use regstair.Strings.{Text, codes, text_beq}
use regstair.Errors.{ok}
use regstair.Maps.{Map, get, put}
use regstair.Registry.Types.{Bytes, reader}
use regstair.Content.FileStore.{
  Disk, cut_colon, parse_encoded, parse_digest, finish_blob, write_temp, put_blob, open_blob,
}
use regstair.Content.Addressing.{IsAddressed, put_blob-IsAddressed, open_blob_digest}

-- A digest that tells contents of different lengths below 10 apart.
abbrev toy_digest : Bytes → Text
toy_digest body =
    codes "sha256:000000000000000000000000000000000000000000000000000000000000000"
    ++ (48 + length body) ∷ []

abbrev disk : Disk
disk = record {
  stat_error = none;
  size_error = none;
  create_error = none;
  write_error = none;
  close_error = none;
  rename_error = none;
  made_by_other = none;
  open_error = none;
}

abbrev body : Bytes
body = 1 ∷ 2 ∷ []

-- A proof by running the store names this.
store_runs : Unit {0}
unfolding text_beq get put cut_colon parse_encoded parse_digest finish_blob write_temp put_blob
    open_blob
store_runs = tt

abbrev stored : Map Text Bytes
stored = (put_blob toy_digest none disk (toy_digest body) (reader body) []).1

put_blob-IsAddressed_example : IsAddressed toy_digest stored
put_blob-IsAddressed_example =
    put_blob-IsAddressed toy_digest disk (toy_digest body) [] tt (λ other e. absurd (cc)) none
      (reader body)

open_blob_digest_example : toy_digest body ≡ toy_digest body
open_blob_digest_example =
    open_blob_digest toy_digest none disk (toy_digest body) stored (reader body)
      put_blob-IsAddressed_example opened
  where
    opened : (open_blob none disk (toy_digest body) stored).0 ≡ ok (reader body)
    opened = unfold store_runs in refl
