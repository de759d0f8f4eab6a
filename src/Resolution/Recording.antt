-- ===== src/Resolution/Recording.antt =====
-- The record… functions of pull.go and push.go.
use regstair.Base.{Option, nat_eq, if◌then◌else◌}
use regstair.Strings.{Text, text_eq}
use regstair.Errors.{Error}
use regstair.Effects.{Exec, ◌>>=◌, ◌>>◌, pure}
use regstair.Metadata.Types.{Time}
use regstair.Policy.Types.{PullDecision, PushDecision}
use regstair.Resolution.Services.{Services}
use regstair.Resolution.Records.{
  PullRequest, PullResult, PushRequest, PushResult, is_digest_reference, pull_provenance,
  pull_tag_mapping, pull_success_event, cache_hit_event, failed_pull_event, unauthorized_pull_event,
  push_provenance, push_success_event, rejected_push_event, failed_push_event,
  unauthorized_push_event,
}

module _ (s : Services) where
  open s use {World, now, record_request_event, record_provenance, record_tag_mapping}

  unfoldable pub record_successful_pull :
      Time → PullRequest → PullDecision → PullResult → Exec World (Unit {0})
  record_successful_pull started request decision result = do
    time ← now
    record_provenance (pull_provenance time decision result)
    if is_digest_reference decision.reference
        then pure tt
        else record_tag_mapping (pull_tag_mapping time decision result)
    record_request_event (pull_success_event started time request decision result)

  unfoldable pub record_cache_hit :
      Time → PullRequest → PullDecision → PullResult → Exec World (Unit {0})
  record_cache_hit started request decision result = do
    time ← now
    record_request_event (cache_hit_event started time request decision result)

  unfoldable pub record_failed_pull :
      Time → PullRequest → PullDecision → Option Error → Exec World (Unit {0})
  record_failed_pull started request decision cause = do
    time ← now
    record_request_event (failed_pull_event started time request decision cause)

  unfoldable pub record_unauthorized_pull :
      Time → PullRequest → PullDecision → Exec World (Unit {0})
  record_unauthorized_pull started request decision = do
    time ← now
    record_request_event (unauthorized_pull_event started time request decision)

  unfoldable pub record_successful_push :
      Time → PushRequest → PushDecision → PushResult → Exec World (Unit {0})
  record_successful_push started request decision result = do
    time ← now
    record_provenance (push_provenance time decision result)
    record_request_event (push_success_event started time request decision result)

  unfoldable pub record_rejected_push : Time → PushRequest → Error → Exec World (Unit {0})
  record_rejected_push started request cause = do
    time ← now
    record_request_event (rejected_push_event started time request cause)

  unfoldable pub record_failed_push :
      Time → PushRequest → PushDecision → Error → Text → Exec World (Unit {0})
  record_failed_push started request decision cause error_class = do
    time ← now
    record_request_event (failed_push_event started time request decision cause error_class)

  unfoldable pub record_unauthorized_push :
      Time → PushRequest → PushDecision → Exec World (Unit {0})
  record_unauthorized_push started request decision = do
    time ← now
    record_request_event (unauthorized_push_event started time request decision)
