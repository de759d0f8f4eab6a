-- ===== src/Gateway/Uploads.antt =====
-- The sessions of blob uploads: handleStartUpload and handleUpload of
-- internal/gateway/server.go.
use regstair.Base.{ℕ, ◌+◌, ◌%◌, not, none, some, [], ◌∷◌, ◌++◌, ◌==◌, length, if◌then◌else◌}
use regstair.Strings.{Text, text_eq, codes}
use regstair.Strings.Search.{decimal}
use regstair.Errors.{ok, err, lit}
use regstair.Maps
use regstair.Registry.Types.{Stream, reader}
use regstair.Gateway.Types.{
  Backend, Request, query_get, Headers, Response, UploadSession, State, call, method_post,
  method_put, method_patch,
}
use regstair.Gateway.Paths.{upload_range}
use regstair.Gateway.Answers.{set, write_oci_error, write_status, not_allowed}

-- 2 ^ 64
abbrev pub id_limit : ℕ
id_limit = 18_446_744_073_709_551_616

-- atomic.AddUint64(&s.nextID, 1)
unfoldable pub following_id : ℕ → ℕ
following_id next_id = (next_id + 1) % id_limit

-- io.Copy(&session.body, r.Body): what was read before an error is appended.
abbrev pub append_body : UploadSession → Stream → UploadSession
append_body session stream = record session { body = session.body ++ stream.body }

module _ (b : Backend) where
  unfoldable pub handle_start_upload :
      Headers → Request → Text → State b.World → Response × State b.World
  handle_start_upload w r repository st =
      let next_id = following_id st.next_id in
      let id = decimal next_id in
      if not (r.method == method_post) then (not_allowed w, st) else (
        write_status
            (set (codes "Docker-Upload-UUID") id (
              set (codes "Range") (codes "0-0") (
                set (codes "Location") (codes "/v2/" ++ repository ++ codes "/blobs/uploads/" ++ id)
                  w)))
            202,
        record st {
          next_id = next_id;
          uploads = Maps.put st.uploads id (record { repository = repository; body = [] });
        },
      )

  -- The case of PATCH.
  unfoldable pub append_upload :
      Headers → Request → Text → UploadSession → State b.World → Response × State b.World
  append_upload w r id session st =
      let session = append_body session r.body in
      let st = record st { uploads = Maps.put st.uploads id session } in
      elim r.body.read_error [
        | some e ↦ (
          write_oci_error w 400 (codes "BLOB_UPLOAD_INVALID")
              (lit "could not append upload content" ∷ []),
          st,
        )
        | none ↦ (
          write_status
              (set (codes "Docker-Upload-UUID") id (
                set (codes "Range") (upload_range (length session.body))
                  (set (codes "Location") r.path w)))
              202,
          st,
        )
      ]

  -- The whole body goes to the store; a session that is stored ends.
  unfoldable pub store_upload :
      Headers → Text → Text → Text → UploadSession → State b.World → Response × State b.World
  store_upload w repository digest id session st =
      let (stored, st) = call (b.put_blob digest (reader session.body)) st in
      elim stored [
        | err e ↦ (write_oci_error w 400 (codes "DIGEST_INVALID") e.message, st)
        | ok _ ↦ (
          write_status
              (set (codes "Location") (codes "/v2/" ++ repository ++ codes "/blobs/" ++ digest)
                (set (codes "Docker-Content-Digest") digest w))
              201,
          record st { uploads = Maps.delete st.uploads id },
        )
      ]

  -- The case of PUT.
  unfoldable pub complete_upload :
      Headers → Request → Text → Text → UploadSession → State b.World → Response × State b.World
  complete_upload w r repository id session st =
      let digest = query_get r (codes "digest") in
      let session = append_body session r.body in
      let appended = record st { uploads = Maps.put st.uploads id session } in
      if digest == []
      then (
        write_oci_error w 400 (codes "DIGEST_INVALID")
            (lit "digest query parameter is required" ∷ []),
        st,
      )
      else elim r.body.read_error [
        | some e ↦ (
          write_oci_error w 400 (codes "BLOB_UPLOAD_INVALID")
              (lit "could not complete upload" ∷ []),
          appended,
        )
        | none ↦ store_upload w repository digest id session appended
      ]

  unfoldable pub serve_session :
      Headers → Request → Text → Text → UploadSession → State b.World → Response × State b.World
  serve_session w r repository id session st =
      if r.method == method_patch
      then append_upload w r id session st
      else if r.method == method_put
      then complete_upload w r repository id session st
      else (not_allowed w, st)

  abbrev upload_unknown : Headers → Response
  upload_unknown w =
      write_oci_error w 404 (codes "BLOB_UPLOAD_UNKNOWN") (lit "upload session not found" ∷ [])

  unfoldable pub handle_upload :
      Headers → Request → Text → Text → State b.World → Response × State b.World
  handle_upload w r repository id st = elim (Maps.get st.uploads id) [
    | none ↦ (upload_unknown w, st)
    | some session ↦
        if not (session.repository == repository)
        then (upload_unknown w, st)
        else serve_session w r repository id session st
  ]
