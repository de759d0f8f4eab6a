-- ===== src/Identity.antt =====
-- internal/identity/principal.go: who makes a request. A kind is its text.
use regstair.Base.{[], ◌==◌, if◌then◌else◌}
use regstair.Strings.{Text, text_eq, codes}

abbrev pub kind_anonymous : Text
kind_anonymous = codes "anonymous"

abbrev pub kind_local_user : Text
kind_local_user = codes "local_user"

pub record Principal : Type 0 where
  pub kind : Text
  pub id : Text
  pub username : Text

unfoldable pub anonymous : Principal
anonymous = record { kind = kind_anonymous; id = []; username = [] }

unfoldable pub event_identity : Principal → Text
event_identity p = if p.kind == kind_anonymous then [] else p.id
