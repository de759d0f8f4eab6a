-- ===== src/Gateway/Isolation.antt =====
-- What the handlers of internal/gateway/server.go do to the upload sessions of a repository.
use regstair.Base.{
  ℕ, ◌+◌, ◌<◌, ◌≡◌, refl, inl, inr, some, [], ◌==◌, arith, Bool-cases, Option-cases,
}
use regstair.Strings.{Text, text_eq, text_beq_iff, codes}
use regstair.Errors.{Result-cases}
use regstair.Registry.Types.{reader}
use regstair.Maps
use regstair.Maps.{Map, get-put_self}
use regstair.Gateway.Types.{
  Backend, Request, query_get, Headers, UploadSession, State, method_post, method_put, method_patch,
}
use regstair.Gateway.Uploads.{
  id_limit, following_id, append_body, handle_start_upload, append_upload, store_upload,
  complete_upload, serve_session, handle_upload,
}
use regstair.Gateway.Sessions.{
  IsNumbered, IsStep, same-IsStep, put-IsStep, delete-IsStep, IsStep-trans, start-IsStep,
}

pub following_id_lem : (next_id : ℕ) → next_id + 1 < id_limit → following_id next_id ≡ next_id + 1
unfolding following_id
following_id_lem next_id room = omega (arith, room)

module _ (b : Backend) (w : Headers) (r : Request) (repository : Text) where
  pub handle_start_upload-IsStep :
      (st : State b.World)
      → IsNumbered st.next_id st.uploads
      → st.next_id + 1 < id_limit
      → IsStep repository st (handle_start_upload b w r repository st).1
  unfolding handle_start_upload
  handle_start_upload-IsStep st wf room = elim (Bool-cases (r.method == method_post)) [
    | inr e ↦ rw e (same-IsStep repository st st wf refl refl)
    | inl e ↦
        rw (handle_start_upload, e, following_id_lem st.next_id room)
          (start-IsStep repository st _ (record { repository = repository; body = [] }) wf refl refl
            refl)
  ]

  append_upload-IsStep :
      (st : State b.World) (id : Text) (session : UploadSession)
      → IsNumbered st.next_id st.uploads
      → Maps.get st.uploads id ≡ some session
      → session.repository ≡ repository
      → IsStep repository st (append_upload b w r id session st).1
  unfolding append_upload
  append_upload-IsStep st id session wf there own = elim (Option-cases r.body.read_error) [
    | inl e ↦ rw e (put-IsStep repository st _ id session _ wf there own own refl refl)
    | inr (failed, e) ↦ rw e (put-IsStep repository st _ id session _ wf there own own refl refl)
  ]

  store_upload-IsStep :
      (st : State b.World) (id digest : Text) (session : UploadSession)
      → IsNumbered st.next_id st.uploads
      → Maps.get st.uploads id ≡ some session
      → session.repository ≡ repository
      → IsStep repository st (store_upload b w repository digest id session st).1
  unfolding store_upload
  store_upload-IsStep st id digest session wf there own =
      elim (Result-cases (b.put_blob digest (reader session.body) st.world).0) [
        | inl (stored, e) ↦
            rw (store_upload, e) (delete-IsStep repository st _ id session wf there own refl refl)
        | inr (failed, e) ↦ rw (store_upload, e) (same-IsStep repository st _ wf refl refl)
      ]

  complete_upload-IsStep :
      (st : State b.World) (id : Text) (session : UploadSession)
      → IsNumbered st.next_id st.uploads
      → Maps.get st.uploads id ≡ some session
      → session.repository ≡ repository
      → IsStep repository st (complete_upload b w r repository id session st).1
  unfolding complete_upload
  complete_upload-IsStep st id session wf there own =
      let new = append_body session r.body in
      let appended : State b.World = record st { uploads = Maps.put st.uploads id new } in
      let step : IsStep repository st appended =
        put-IsStep repository st appended id session new wf there own own refl refl in
      elim (Bool-cases (query_get r (codes "digest") == [])) [
        | inl e ↦ rw e (same-IsStep repository st st wf refl refl)
        | inr e ↦ elim (Option-cases r.body.read_error) [
          | inr (failed, k) ↦ rw (e, k) step
          | inl k ↦
              rw (e, k)
                (IsStep-trans repository st appended _ step (
                  store_upload-IsStep appended id _ new step.numbered
                    (get-put_self st.uploads id new) own))
        ]
      ]

  -- A request for an upload changes the sessions of its repository only, and all are numbered
  -- behind it.
  pub handle_upload-IsStep :
      (st : State b.World) (id : Text)
      → IsNumbered st.next_id st.uploads
      → IsStep repository st (handle_upload b w r repository id st).1
  unfolding handle_upload serve_session
  handle_upload-IsStep st id wf = elim (Option-cases (Maps.get st.uploads id)) [
    | inl e ↦ rw (handle_upload, e) (same-IsStep repository st st wf refl refl)
    | inr (session, e) ↦ elim (Bool-cases (session.repository == repository)) [
      | inr k ↦ rw (handle_upload, e, k) (same-IsStep repository st st wf refl refl)
      | inl k ↦
          let own : session.repository ≡ repository =
            (text_beq_iff session.repository repository).0 k in
          elim (Bool-cases (r.method == method_patch)) [
            | inl p ↦
                rw (handle_upload, e, k, serve_session, p)
                  (append_upload-IsStep st id session wf e own)
            | inr p ↦ elim (Bool-cases (r.method == method_put)) [
              | inl q ↦
                  rw (handle_upload, e, k, serve_session, p, q)
                    (complete_upload-IsStep st id session wf e own)
              | inr q ↦
                  rw (handle_upload, e, k, serve_session, p, q)
                    (same-IsStep repository st st wf refl refl)
            ]
          ]
    ]
  ]
