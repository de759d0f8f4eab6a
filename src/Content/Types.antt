-- ===== src/Content/Types.antt =====
-- content.Descriptor.
use regstair.Base.{ℤ}
use regstair.Strings.{Text}

pub record BlobDescriptor : Type 0 where
  pub digest : Text
  pub size : ℤ
