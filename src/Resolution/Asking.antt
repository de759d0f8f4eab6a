-- ===== src/Resolution/Asking.antt =====
-- What one round of the loop over the sources of a pull answers.
use regstair.Registry.Types.{Manifest}
use regstair.Base.{
  subst, ◌≡◌, refl, sym, inl, inr, Bool, true, false, Option, none, some, Bool-cases, if◌then◌else◌,
}
use regstair.Strings.{Text}
use regstair.Errors.{Error, Result, ok, err, errors_is, authentication, not_found, unavailable}
use regstair.Effects.{Exec, pure, attempt, ◌>>=◌}
use regstair.Effects.Rules.{Ensures, attempt_ok, pure_ok}
use regstair.Metadata.Types.{operation_pull}
use regstair.Policy.Types.{PullDecision}
use regstair.Resolution.Services.{Services, Resolver}
use regstair.Resolution.Records.{PullRequest}
use regstair.Resolution.Pull.{
  Answer, ask_source, connector_of, refused_manifest, missing_connector, is_credential_error,
  answered, next_source, stop,
}

module _ (s : Services) (r : Resolver s) (request : PullRequest) (d : PullDecision) where
  -- The connector that the resolver has for the result's source gave the manifest for the decision's
  -- repository and reference, under the credential that the result names.
  pub record IsAnswered (source : Text) (credential_source : Text) (manifest : Manifest)
      : Type 0 where
    pub asked : s.World
    pub connector : s.Connector
    pub chosen :
        (connector_of s r request.principal source operation_pull asked).0
        ≡ ok (some connector, credential_source)
    pub given :
        (s.resolve_manifest connector d.physical_repository d.reference
          (connector_of s r request.principal source operation_pull asked).1).0
        ≡ ok manifest

  abbrev pub AnswerOf : Text → Answer s → Type 0
  AnswerOf source (answered connector credential_source manifest) =
      IsAnswered source credential_source manifest
  AnswerOf source (next_source e) = Unit
  AnswerOf source (stop e) = Unit

  refused-AnswerOf : (source : Text) (e : Error) → AnswerOf source (refused_manifest s source e)
  unfolding refused_manifest
  refused-AnswerOf source e = elim (Bool-cases (errors_is e authentication)) [
    | inl a ↦ rw (refused_manifest, a) tt
    | inr a ↦ elim (Bool-cases (errors_is e not_found)) [
      | inl b ↦ rw (refused_manifest, a, b) tt
      | inr b ↦ elim (Bool-cases (errors_is e unavailable)) [
        | inl c ↦ rw (refused_manifest, a, b, c) tt
        | inr c ↦ rw (refused_manifest, a, b, c) tt
      ]
    ]
  ]

  untold :
      (source : Text) (e : Error) (b : Bool) → AnswerOf source (if b then stop e else next_source e)
  untold source e true = tt
  untold source e false = tt

  module _ (source : Text) (w : s.World) (answer : Answer s) where
    by_manifest :
        (connector : s.Connector) (credential_source : Text) (found : Result Manifest)
        → (connector_of s r request.principal source operation_pull w).0
          ≡ ok (some connector, credential_source)
        → (s.resolve_manifest connector d.physical_repository d.reference
            (connector_of s r request.principal source operation_pull w).1).0
          ≡ found
        → (w' : s.World)
        → ((elim found as (λ _. Exec s.World (Answer s)) [
          | err e ↦ pure (refused_manifest s source e)
          | ok manifest ↦ pure (answered connector credential_source manifest)
        ])
            w').0
          ≡ ok answer
        → AnswerOf source answer
    by_manifest connector credential_source (err e) chosen given w' h =
        subst (AnswerOf source) (sym (pure_ok _ w' answer h)) (refused-AnswerOf source e)
    by_manifest connector credential_source (ok manifest) chosen given w' h =
        subst (AnswerOf source) (sym (pure_ok _ w' answer h))
          (record { asked = w; connector = connector; chosen = chosen; given = given })

    by_connector :
        (o : Result (Option s.Connector × Text))
        → (connector_of s r request.principal source operation_pull w).0 ≡ o
        → ((elim o as (λ _. Exec s.World (Answer s)) [
          | err e ↦ pure (if is_credential_error e then stop e else next_source e)
          | ok (none, credential_source) ↦ pure (next_source (missing_connector source))
          | ok (some connector, credential_source) ↦ do
            found ← attempt (s.resolve_manifest connector d.physical_repository d.reference)
            elim found [
              | err e ↦ pure (refused_manifest s source e)
              | ok manifest ↦ pure (answered connector credential_source manifest)
            ]
        ])
            (connector_of s r request.principal source operation_pull w).1).0
          ≡ ok answer
        → AnswerOf source answer
    by_connector (err e) chosen h =
        subst (AnswerOf source) (sym (pure_ok _ _ answer h))
          (untold source e (is_credential_error e))
    by_connector (ok (none, credential_source)) chosen h =
        subst (AnswerOf source) (sym (pure_ok _ _ answer h)) tt
    by_connector (ok (some connector, credential_source)) chosen h =
        by_manifest connector credential_source _ chosen refl _
          (attempt_ok (s.resolve_manifest connector d.physical_repository d.reference) _ _ answer h)

  pub ask_source-AnswerOf :
      (source : Text) → Ensures (AnswerOf source) (ask_source s r request d source)
  unfolding ask_source
  ask_source-AnswerOf source = record {
    at = λ w answer h.
        by_connector source w answer _ refl
          (attempt_ok (connector_of s r request.principal source operation_pull) _ w answer h);
  }
