-- ===== src/Gateway/Refinement.antt =====
-- An upload as what it is for: the chunks that were sent, which the content store gets as one blob.
use regstair.Base.{◌≡◌, refl, sym, ap, subst, ◌∙◌, true, some, List, [], ◌∷◌, ◌++◌, ◌==◌, All}
use regstair.Strings.{Text, text_eq, text_beq}
use regstair.Strings.Search.{decimal}
use regstair.Maps
use regstair.Maps.{get-put_self, get-delete_self}
use regstair.Registry.Types.{Bytes, reader}
use regstair.Gateway.Types.{Backend, Request, Headers, Response, State, method_post}
use regstair.Gateway.Chunks.{
  concat, IsChunk, sent_digest, IsLast, chunks_of, concat_snoc, stored, Follows, send, send_chunks,
  complete_Follows,
}
use regstair.Gateway.Uploads.{following_id, handle_start_upload, handle_upload}

module _ (b : Backend) (w : Headers) (repository : Text) where
  -- A POST starts an empty session under the number that it answers with.
  start_session :
      (r : Request) (st : State b.World)
      → r.method ≡ method_post
      → (Maps.get
            (handle_start_upload b w r repository st).1.uploads
            (decimal (following_id st.next_id))
          ≡ some (record { repository = repository; body = [] }))
        × ((handle_start_upload b w r repository st).1.world ≡ st.world)
  unfolding handle_start_upload text_beq
  start_session r st is_post =
      let post : (r.method == method_post) ≡ true = ap (λ m. m == method_post) is_post in
      rw (handle_start_upload, post)
        (
          get-put_self st.uploads (decimal (following_id st.next_id))
              (record { repository = repository; body = [] }),
          refl,
        )

  -- The identifier that a POST gives out.
  abbrev pub given_id : State b.World → Text
  given_id st = decimal (following_id st.next_id)

  -- The whole exchange, and the answer to its last request.
  abbrev pub run_upload :
      Request → List Request → Request → State b.World → Response × State b.World
  run_upload start patches last st =
      handle_upload b w last repository (given_id st)
        (send b w repository (given_id st) patches (handle_start_upload b w start repository st).1)

  -- A POST, any number of PATCHes and a PUT of one upload give the content store one blob: what
  -- the bodies of the PATCHes and of the PUT are in the order of the requests, under the digest of
  -- the PUT. The PUT is answered with 201 and the session is gone if the store takes it; it is
  -- answered with 400 and the session has all bytes if the store refuses.
  pub upload_refines :
      (start : Request) (patches : List Request) (last : Request) (st : State b.World)
      → start.method ≡ method_post
      → All IsChunk patches
      → IsLast last
      → Follows b
          (given_id st)
          (record { repository = repository; body = concat (chunks_of (patches ++ last ∷ [])) })
          (stored b (sent_digest last) (chunks_of (patches ++ last ∷ [])) st.world).0
          (run_upload start patches last st)
        × ((run_upload start patches last st).1.world
            ≡ (stored b (sent_digest last) (chunks_of (patches ++ last ∷ [])) st.world).1)
  upload_refines start patches last st is_post all is_last =
      let started : State b.World = (handle_start_upload b w start repository st).1 in
      let (empty, untouched) = start_session start st is_post in
      let (sent, same) = send_chunks b w repository (given_id st) patches [] started all empty in
      let before : State b.World = send b w repository (given_id st) patches started in
      let world : before.world ≡ st.world = same ∙ untouched in
      let answer = run_upload start patches last st in
      let P : Bytes → b.World → Type 0 = λ body v.
        Follows b (given_id st) (record { repository = repository; body = body })
          (b.put_blob (sent_digest last) (reader body) v).0 answer
        × (answer.1.world ≡ (b.put_blob (sent_digest last) (reader body) v).1) in
      let body = concat (chunks_of patches) in
      let completed : P (body ++ last.body.body) before.world =
        complete_Follows b w repository (given_id st) last body before is_last sent in
      subst (P _) world (subst (λ s. P s before.world) (sym (concat_snoc patches last)) completed)
