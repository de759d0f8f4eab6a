-- ===== src/Policy/Types.antt =====
-- The types of internal/policy/policy.go.
use regstair.Base.{ℤ, Bool, List}
use regstair.Strings.{Text}
use regstair.Errors.{Message}

pub record Source : Type 0 where
  pub id : Text

pub record Rewrite : Type 0 where
  pub strip_prefix : Text
  pub add_prefix : Text

pub record Route : Type 0 where
  pub name : Text
  pub match : Text
  pub precedence : ℤ
  pub pull_sources : List Text
  pub authoritative : Text
  pub external_fallback : Bool
  pub push_destination : Text
  pub push_denied : Bool
  pub rewrite : Rewrite

pub record Config : Type 0 where
  pub sources : List Source
  pub routes : List Route

pub record Engine : Type 0 where
  pub routes : List Route

-- A pull and a push request have the same fields.
pub record PullRequest : Type 0 where
  pub repository : Text
  pub reference : Text

pub record PushRequest : Type 0 where
  pub repository : Text
  pub reference : Text

pub record PullDecision : Type 0 where
  pub route_name : Text
  pub logical_repository : Text
  pub physical_repository : Text
  pub reference : Text
  pub candidate_sources : List Text
  pub authoritative_source : Text
  pub external_fallback_allowed : Bool
  pub explanation : List Message

pub record PushDecision : Type 0 where
  pub route_name : Text
  pub logical_repository : Text
  pub physical_repository : Text
  pub reference : Text
  pub destination : Text
  pub explanation : List Message
