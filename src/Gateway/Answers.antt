-- ===== src/Gateway/Answers.antt =====
-- What internal/gateway/server.go writes: errors with their codes, challenges and manifests.
use regstair.Base.{ℕ, ◌&&◌, ◌||◌, not, List, [], ◌∷◌, ◌++◌, ◌==◌, length, ltb, if◌then◌else◌}
use regstair.Strings.{Text, text_eq, codes}
use regstair.Strings.Search.{equal_fold, join, decimal}
use regstair.Errors.{
  Error, Message, lit, errors_is, errors_is_any, credential_required, credential_unavailable,
  authentication, authorization, unauthorized, resolution_not_found, no_route, source_unavailable,
  push_denied, staged_blob_missing, manifest_digest_mismatch,
}
use regstair.Maps
use regstair.Registry.Types.{Manifest}
use regstair.Gateway.Types.{Request, Response, Headers, empty, content, oci_error, method_head}

abbrev pub set : Text → Text → Headers → Headers
set key value w = Maps.put w key value

unfoldable pub write_oci_error : Headers → ℕ → Text → Message → Response
write_oci_error w status code message = record {
  status = status;
  headers = set (codes "Content-Type") (codes "application/json") w;
  body = oci_error code message;
}

abbrev pub write_status : Headers → ℕ → Response
write_status w status = record { status = status; headers = w; body = empty }

abbrev pub not_allowed : Headers → Response
not_allowed w = write_oci_error w 405 (codes "UNSUPPORTED") (lit "method not allowed" ∷ [])

abbrev pub unavailable_answer : Headers → Message → Response
unavailable_answer w message = write_oci_error w 503 (codes "UNAVAILABLE") message

-- The text of the WWW-Authenticate header.
unfoldable pub challenge : Request → Text → List Text → Text
challenge r repository actions =
    let scheme =
      if r.tls || equal_fold r.forwarded_proto (codes "https")
      then codes "https"
      else codes "http" in
    let realm =
      codes "Bearer realm=\""
      ++ scheme
      ++ codes "://"
      ++ r.host
      ++ codes "/auth/token\",service=\"regstair\"" in
    if not (repository == []) && ltb 0 (length actions)
    then realm
      ++ codes ",scope=\"repository:"
      ++ repository
      ++ codes ":"
      ++ join (codes ",") actions
      ++ codes "\""
    else realm

unfoldable pub write_auth_challenge : Headers → Request → Text → List Text → Response
write_auth_challenge w r repository actions =
    write_oci_error (set (codes "WWW-Authenticate") (challenge r repository actions) w) 401
      (codes "UNAUTHORIZED") (lit "authentication required" ∷ [])

unfoldable pub write_manifest : Headers → Request → Manifest → Response
write_manifest w r manifest =
    let media_type =
      if manifest.media_type == []
      then codes "application/vnd.oci.image.manifest.v1+json"
      else manifest.media_type in
    record {
      status = 200;
      headers = set (codes "Content-Length") (decimal (length manifest.content)) (
          set (codes "Docker-Content-Digest") manifest.digest
            (set (codes "Content-Type") media_type w));
      body = if r.method == method_head then empty else content manifest.content;
    }

unfoldable pub write_pull_error : Headers → Error → Response
write_pull_error w e =
    if errors_is e credential_required
    then write_oci_error w 401 (codes "UNAUTHORIZED")
        (lit "a credential for the selected registry is required" ∷ [])
    else if errors_is e credential_unavailable
    then write_oci_error w 503 (codes "UNAVAILABLE")
        (lit "the selected registry credential is unavailable" ∷ [])
    else if errors_is e authentication
    then write_oci_error w 401 (codes "UNAUTHORIZED")
        (lit "the selected registry rejected the credential" ∷ [])
    else if errors_is e authorization
    then write_oci_error w 403 (codes "DENIED")
        (lit "the selected registry denied the requested operation" ∷ [])
    else if errors_is e unauthorized
    then write_oci_error w 403 (codes "DENIED") e.message
    else if errors_is_any e (resolution_not_found ∷ no_route ∷ [])
    then write_oci_error w 404 (codes "MANIFEST_UNKNOWN") e.message
    else if errors_is e source_unavailable
    then write_oci_error w 502 (codes "UNAVAILABLE") e.message
    else write_oci_error w 500 (codes "UNKNOWN") e.message

unfoldable pub write_push_error : Headers → Error → Response
write_push_error w e =
    if errors_is e credential_required
    then write_oci_error w 401 (codes "UNAUTHORIZED")
        (lit "a credential for the selected registry is required" ∷ [])
    else if errors_is e credential_unavailable
    then write_oci_error w 503 (codes "UNAVAILABLE")
        (lit "the selected registry credential is unavailable" ∷ [])
    else if errors_is e authentication
    then write_oci_error w 401 (codes "UNAUTHORIZED")
        (lit "the selected registry rejected the credential" ∷ [])
    else if errors_is e authorization
    then write_oci_error w 403 (codes "DENIED")
        (lit "the selected registry denied the requested operation" ∷ [])
    else if errors_is e push_denied || errors_is e unauthorized
    then write_oci_error w 403 (codes "DENIED") e.message
    else if errors_is e staged_blob_missing
    then write_oci_error w 400 (codes "BLOB_UNKNOWN") e.message
    else if errors_is e manifest_digest_mismatch
    then write_oci_error w 400 (codes "MANIFEST_INVALID") e.message
    else if errors_is e source_unavailable
    then write_oci_error w 502 (codes "UNAVAILABLE") e.message
    else write_oci_error w 500 (codes "UNKNOWN") e.message
