-- ===== src/Registry/Types.antt =====
-- Descriptor and Manifest of internal/registry/connector.go, and the streams that blobs travel by.
-- Bytes are numbers below 256.
use regstair.Base.{ℕ, ℤ, List, Option, none}
use regstair.Strings.{Text}
use regstair.Errors.{Error}

abbrev pub Bytes : Type 0
Bytes = List ℕ

-- io.ReadCloser: what reading it yields, the error at which it breaks off, and that of Close.
pub record Stream : Type 0 where
  pub body : Bytes
  pub read_error : Option Error
  pub close_error : Option Error

-- bytes.NewReader
abbrev pub reader : Bytes → Stream
reader body = record { body = body; read_error = none; close_error = none }

pub record Descriptor : Type 0 where
  pub media_type : Text
  pub digest : Text
  pub size : ℤ

-- The embedded descriptor's fields are those of a manifest.
pub record Manifest : Type 0 where
  pub descriptor : Descriptor
  pub open descriptor use *
  pub content : Bytes
  pub blob_digests : List Text
