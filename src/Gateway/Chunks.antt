-- ===== src/Gateway/Chunks.antt =====
-- What one request of an upload does: a PATCH appends its chunk, and a PUT hands all to the store.
use mathlib.Core.List.{append_assoc, append-nil}
use regstair.Base.{
  ◌≡◌, refl, sym, ap, ◌∙◌, inl, inr, true, false, none, some, List, [], ◌∷◌, ◌++◌, ◌==◌, map, All,
  Option-cases,
}
use regstair.Strings.{Text, text_eq, text_beq, text_beq_refl, codes}
use regstair.Errors.{Error, Result, ok, err, Result-cases}
use regstair.Effects.{Exec}
use regstair.Maps
use regstair.Maps.{get-put_self, get-delete_self}
use regstair.Registry.Types.{Bytes, reader}
use regstair.Content.Types.{BlobDescriptor}
use regstair.Gateway.Types.{
  Backend, Request, query_get, Headers, UploadSession, Response, State, method_put, method_patch,
}
use regstair.Gateway.Uploads.{
  append_upload, store_upload, complete_upload, serve_session, handle_upload,
}

-- The chunks in one piece.
abbrev pub concat : List Bytes → Bytes
concat [] = []
concat (chunk ∷ chunks) = chunk ++ concat chunks

-- A PATCH whose body can be read.
pub record IsChunk (r : Request) : Type 0 where
  pub is_patch : r.method ≡ method_patch
  pub is_read : r.body.read_error ≡ none

abbrev pub sent_digest : Request → Text
sent_digest r = query_get r (codes "digest")

-- A PUT whose body can be read, with a digest.
pub record IsLast (r : Request) : Type 0 where
  pub is_put : r.method ≡ method_put
  pub is_read : r.body.read_error ≡ none
  pub has_digest : (sent_digest r == []) ≡ false

abbrev pub chunks_of : List Request → List Bytes
chunks_of rs = map (λ (r : Request). r.body.body) rs

pub concat_snoc :
    (rs : List Request) (r : Request)
    → concat (chunks_of (rs ++ r ∷ [])) ≡ concat (chunks_of rs) ++ r.body.body
concat_snoc [] r = append-nil r.body.body
concat_snoc (q ∷ rs) r =
    ap (λ s. q.body.body ++ s) (concat_snoc rs r)
    ∙ sym (append_assoc q.body.body (concat (chunks_of rs)) r.body.body)

module _ (b : Backend) where
  -- What an upload promises: its chunks are stored as one blob under the digest.
  abbrev pub stored : Text → List Bytes → Exec b.World BlobDescriptor
  stored digest chunks = b.put_blob digest (reader (concat chunks))

  -- How the answer and the session follow what the store says.
  pub record Follows (id : Text) (session : UploadSession) (outcome : Result BlobDescriptor)
      (answer : Response × State b.World) : Type 0 where
    pub created :
        (d : BlobDescriptor)
        → outcome ≡ ok d
        → (answer.0.status ≡ 201) × (Maps.get answer.1.uploads id ≡ none)
    pub rejected :
        (e : Error)
        → outcome ≡ err e
        → (answer.0.status ≡ 400) × (Maps.get answer.1.uploads id ≡ some session)

module _ (b : Backend) (w : Headers) (repository id : Text) where
  -- Requests for the upload, one after the other.
  abbrev pub send : List Request → State b.World → State b.World
  send [] st = st
  send (r ∷ rs) st = send rs (handle_upload b w r repository id st).1

  -- The session has these bytes.
  abbrev holding : Bytes → UploadSession
  holding body = record { repository = repository; body = body }

  own_session :
      (r : Request) (body : Bytes) (st : State b.World)
      → Maps.get st.uploads id ≡ some (holding body)
      → handle_upload b w r repository id st ≡ serve_session b w r repository id (holding body) st
  unfolding handle_upload
  own_session r body st there = rw (handle_upload, there, text_beq_refl repository) refl

  patch_session :
      (r : Request) (session : UploadSession) (st : State b.World)
      → r.method ≡ method_patch
      → serve_session b w r repository id session st ≡ append_upload b w r id session st
  unfolding serve_session text_beq
  patch_session r session st is_patch =
      let patch : (r.method == method_patch) ≡ true = ap (λ m. m == method_patch) is_patch in
      rw (serve_session, patch) refl

  put_session :
      (r : Request) (session : UploadSession) (st : State b.World)
      → r.method ≡ method_put
      → serve_session b w r repository id session st
        ≡ complete_upload b w r repository id session st
  unfolding serve_session text_beq
  put_session r session st is_put =
      let not_patch : (r.method == method_patch) ≡ false = ap (λ m. m == method_patch) is_put in
      let put : (r.method == method_put) ≡ true = ap (λ m. m == method_put) is_put in
      rw (serve_session, not_patch, put) refl

  append_chunk :
      (r : Request) (body : Bytes) (st : State b.World)
      → IsChunk r
      → Maps.get st.uploads id ≡ some (holding body)
      → (Maps.get (handle_upload b w r repository id st).1.uploads id
          ≡ some (holding (body ++ r.body.body)))
        × ((handle_upload b w r repository id st).1.world ≡ st.world)
  unfolding append_upload
  append_chunk r body st chunk there =
      rw (own_session r body st there, patch_session r (holding body) st chunk.is_patch)
        (let appended = get-put_self st.uploads id (holding (body ++ r.body.body)) in
          elim (Option-cases r.body.read_error) [
            | inl e ↦ rw (append_upload, e) (appended, refl)
            | inr (failed, e) ↦ rw (append_upload, e) (appended, refl)
          ])

  pub send_chunks :
      (rs : List Request) (body : Bytes) (st : State b.World)
      → All IsChunk rs
      → Maps.get st.uploads id ≡ some (holding body)
      → (Maps.get (send rs st).uploads id ≡ some (holding (body ++ concat (chunks_of rs))))
        × ((send rs st).world ≡ st.world)
  send_chunks [] body st all there =
      (there ∙ ap (λ s. some (holding s)) (sym (append-nil body)), refl)
  send_chunks (r ∷ rs) body st (chunk, all) there =
      let (sent, same) = append_chunk r body st chunk there in
      let (rest, still) =
        send_chunks rs (body ++ r.body.body) (handle_upload b w r repository id st).1 all sent in
      (
        rest ∙ ap (λ s. some (holding s)) (append_assoc body r.body.body (concat (chunks_of rs))),
        still ∙ same,
      )

  store_Follows :
      (digest : Text) (body : Bytes) (st : State b.World)
      → Maps.get st.uploads id ≡ some (holding body)
      → Follows b id
          (holding body)
          (b.put_blob digest (reader body) st.world).0
          (store_upload b w repository digest id (holding body) st)
        × ((store_upload b w repository digest id (holding body) st).1.world
            ≡ (b.put_blob digest (reader body) st.world).1)
  unfolding store_upload regstair.Gateway.Answers.write_oci_error
  store_Follows digest body st there =
      elim (Result-cases (b.put_blob digest (reader body) st.world).0) [
        | inl (d, e) ↦
            rw (store_upload, e)
              (
                record {
                  created = λ d' k. (refl, get-delete_self st.uploads id);
                  rejected = λ e' k. absurd (cc);
                },
                refl,
              )
        | inr (failed, e) ↦
            rw (store_upload, e)
              (record { created = λ d' k. absurd (cc); rejected = λ e' k. (refl, there) }, refl)
      ]

  pub complete_Follows :
      (r : Request) (body : Bytes) (st : State b.World)
      → IsLast r
      → Maps.get st.uploads id ≡ some (holding body)
      → Follows b id
          (holding (body ++ r.body.body))
          (b.put_blob (sent_digest r) (reader (body ++ r.body.body)) st.world).0
          (handle_upload b w r repository id st)
        × ((handle_upload b w r repository id st).1.world
            ≡ (b.put_blob (sent_digest r) (reader (body ++ r.body.body)) st.world).1)
  unfolding complete_upload
  complete_Follows r body st last there =
      rw (own_session r body st there, put_session r (holding body) st last.is_put)
        (let appended : State b.World = record st {
          uploads = Maps.put st.uploads id (holding (body ++ r.body.body));
        } in
          let whole =
            store_Follows (sent_digest r) (body ++ r.body.body) appended
              (get-put_self st.uploads id (holding (body ++ r.body.body))) in
          let unread : r.body.read_error ≡ none = last.is_read in
          rw (complete_upload, last.has_digest)
            (elim (Option-cases r.body.read_error) [
              | inl e ↦ rw e whole
              | inr (failed, e) ↦ absurd (cc)
            ]))
