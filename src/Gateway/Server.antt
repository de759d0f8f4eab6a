-- ===== src/Gateway/Server.antt =====
-- The handlers of manifests and blobs, and ServeHTTP, of internal/gateway/server.go.
use regstair.Base.{
  ℤ, pos, negsuc, nat_eq, not, Option, none, some, List, [], ◌∷◌, ◌++◌, ◌==◌, if◌then◌else◌,
}
use regstair.Strings.{Text, text_eq, codes, has_prefix, trim_prefix}
use regstair.Strings.Search.{Casing, decimal}
use regstair.Errors.{Result, ok, err, lit, errors_is, blob_not_found}
use regstair.Identity.{Principal}
use regstair.Registry.Parse.{parse_manifest}
use regstair.Registry.Types.{Manifest}
use regstair.Content.Types.{BlobDescriptor}
use regstair.Resolution.Records.{PushRequest, PushResult}
use regstair.Resolution.Pull.{BlobResult}
use regstair.Gateway.Types.{
  Backend, Request, Headers, empty, content, Response, State, call, Instants, request_principal,
  method_head, method_put,
}
use regstair.Gateway.Paths.{manifests, blobs, Route, reads, parse_v2_path}
use regstair.Gateway.Answers.{
  set, write_oci_error, write_status, write_manifest, write_pull_error, write_push_error,
  not_allowed, unavailable_answer,
}
use regstair.Gateway.Access.{refused, admitted, authenticate}
use regstair.Gateway.Uploads.{handle_start_upload, handle_upload}

-- strconv.FormatInt of a size that is positive; a size that is not has no header.
unfoldable pub set_size : ℤ → Headers → Headers
set_size size w = elim size [
  | pos n ↦ if n == 0 then w else set (codes "Content-Length") (decimal n) w
  | negsuc n ↦ w
]

-- The loop of blobSize.
unfoldable pub size_of : Text → List BlobDescriptor → Option ℤ
size_of digest [] = none
size_of digest (blob ∷ rest) = if blob.digest == digest then some blob.size else size_of digest rest

abbrev pub api_version : Headers
api_version = set (codes "Docker-Distribution-API-Version") (codes "registry/2.0") []

module _ (b : Backend) where
  abbrev pub Handler : Type 0
  Handler = State b.World → Response × State b.World

  unfoldable pub blob_size : Text → State b.World → Option ℤ × State b.World
  blob_size digest st =
      let (listed, st) = call b.list_blobs st in
      (elim listed [ err _ ↦ none | ok list ↦ size_of digest list ], st)

  -- The cases of GET and HEAD.
  unfoldable pub get_manifest : Headers → Request → Text → Text → Principal → Handler
  get_manifest w r repository reference principal st = elim b.puller [
    | none ↦ (unavailable_answer w (lit "pull resolver is not configured" ∷ []), st)
    | some pull ↦
        let (result, st) =
          call
            (pull
              (record { repository = repository; reference = reference; principal = principal }))
            st in
        elim result [
          | err e ↦ (write_pull_error w e, st)
          | ok result ↦ (write_manifest w r result.manifest, st)
        ]
  ]

  unfoldable pub push_manifest :
      (PushRequest → State b.World → Result PushResult × State b.World)
      → Headers
      → Text
      → Text
      → Principal
      → Manifest
      → Handler
  push_manifest push w repository reference principal manifest st =
      let (result, st) =
        push
          (record {
            repository = repository;
            reference = reference;
            manifest = manifest;
            principal = principal;
          })
          st in
      elim result [
        | err e ↦ (write_push_error w e, st)
        | ok result ↦ (
          write_status
              (set (codes "Location")
                (codes "/v2/" ++ repository ++ codes "/manifests/" ++ reference)
                (set (codes "Docker-Content-Digest") result.manifest_digest w))
              201,
          st,
        )
      ]

  -- The case of PUT.
  unfoldable pub put_manifest : Headers → Request → Text → Text → Principal → Handler
  put_manifest w r repository reference principal st = elim b.pusher [
    | none ↦ (unavailable_answer w (lit "push resolver is not configured" ∷ []), st)
    | some push ↦ elim r.body.read_error [
      | some e ↦ (
        write_oci_error w 400 (codes "MANIFEST_INVALID") (lit "could not read manifest" ∷ []),
        st,
      )
      | none ↦ elim (parse_manifest b.unmarshal b.digest_bytes r.body.body) [
        | none ↦
            (write_oci_error w 400 (codes "MANIFEST_INVALID") (b.unmarshal_error r.body.body), st)
        | some manifest ↦
            push_manifest (λ request. call (push request)) w repository reference principal manifest
              st
      ]
    ]
  ]

  unfoldable pub handle_manifest : Headers → Request → Text → Text → Principal → Handler
  handle_manifest w r repository reference principal st =
      if reference == []
      then (
        write_oci_error w 404 (codes "MANIFEST_UNKNOWN")
            (lit "manifest reference is required" ∷ []),
        st,
      )
      else if reads r.method
      then get_manifest w r repository reference principal st
      else if r.method == method_put
      then put_manifest w r repository reference principal st
      else (not_allowed w, st)

  -- The answer to a blob that was opened.
  unfoldable pub write_blob : Headers → Request → Text → BlobResult → Response
  write_blob w r digest result = record {
    status = 200;
    headers = set_size result.size (
        set (codes "Content-Type") (codes "application/octet-stream")
          (set (codes "Docker-Content-Digest") digest w));
    body = if r.method == method_head then empty else content result.content.body;
  }

  unfoldable pub handle_blob : Headers → Request → Text → Text → Principal → Handler
  handle_blob w r repository digest principal st =
      if digest == []
      then (write_oci_error w 404 (codes "BLOB_UNKNOWN") (lit "blob digest is required" ∷ []), st)
      else if not (reads r.method)
      then (not_allowed w, st)
      else elim b.blob_puller [
        | none ↦
            (unavailable_answer w (lit "repository-aware blob resolver is not configured" ∷ []), st)
        | some open_blob ↦
            let (result, st) =
              call
                (open_blob
                  (record { repository = repository; digest = digest; principal = principal }))
                st in
            elim result [
              | err e ↦
                  if errors_is e blob_not_found
                  then (
                    write_oci_error w 404 (codes "BLOB_UNKNOWN") (lit "blob not found" ∷ []),
                    st,
                  )
                  else (write_pull_error w e, st)
              | ok result ↦ (write_blob w r digest result, st)
            ]
      ]

  -- The switch of ServeHTTP over what the path names.
  unfoldable pub serve_route : Headers → Request → Principal → Route → Handler
  serve_route w r principal route st = elim route.action [
    | manifests ↦ handle_manifest w r route.repository route.rest principal st
    | blobs ↦
        if route.rest == codes "uploads/"
        then handle_start_upload b w r route.repository st
        else if has_prefix route.rest (codes "uploads/")
        then handle_upload b w r route.repository (trim_prefix route.rest (codes "uploads/")) st
        else handle_blob w r route.repository route.rest principal st
  ]

  -- Behind authenticate.
  unfoldable pub serve_admitted : Headers → Request → Principal → Handler
  serve_admitted w r principal st =
      if r.path == codes "/v2/"
      then (if reads r.method then (write_status w 200, st) else (not_allowed w, st))
      else elim (parse_v2_path r.path) [
        | none ↦ (
          write_oci_error w 404 (codes "NAME_UNKNOWN") (lit "unsupported registry route" ∷ []),
          st,
        )
        | some route ↦ serve_route w r principal route st
      ]

  unfoldable pub serve_http : ⦃k : Casing⦄ → Instants → Request → Handler
  serve_http at r st =
      let (admission, st) = authenticate at b.authenticator api_version r st in
      elim admission [
        | refused response ↦ (response, st)
        | admitted principal ↦ serve_admitted api_version r (request_principal principal) st
      ]
