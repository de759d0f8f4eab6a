-- ===== src/Gateway/Reach.antt =====
-- What any request can do to the upload sessions.
use regstair.Base.{
  ◌+◌, ◌<◌, ◌≡◌, refl, sym, subst, inl, inr, false, some, ◌==◌, Bool-cases, Option-cases,
}
use regstair.Strings.{Text, text_eq, codes, has_prefix}
use regstair.Strings.Search.{Casing}
use regstair.Identity.{Principal}
use regstair.Gateway.Types.{Backend, Request, Headers, State, Instants, request_principal}
use regstair.Gateway.Paths.{Route, Action, manifests, blobs, reads, parse_v2_path, request_scope}
use regstair.Gateway.Access.{Admission, refused, admitted, authenticate}
use regstair.Gateway.Uploads.{id_limit}
use regstair.Gateway.Server.{serve_route, serve_admitted, serve_http, api_version}
use regstair.Gateway.Sessions.{IsNumbered, IsStep, same-IsStep, IsStep-trans}
use regstair.Gateway.Isolation.{handle_start_upload-IsStep, handle_upload-IsStep}
use regstair.Gateway.Unchanged.{handle_manifest-IsSame, handle_blob-IsSame, authenticate-IsSame}

-- The repository that a request is for.
abbrev pub target : Request → Text
target r = (request_scope r).0

target_route :
    (r : Request) (route : Route)
    → (r.path == codes "/v2/") ≡ false
    → parse_v2_path r.path ≡ some route
    → (request_scope r).0 ≡ route.repository
unfolding request_scope
target_route r route other parsed = elim (Bool-cases (reads r.method)) [
  | inl e ↦ rw (request_scope, other, parsed, e) refl
  | inr e ↦ rw (request_scope, other, parsed, e) refl
]

module _ (b : Backend) (w : Headers) (r : Request) (principal : Principal) (st : State b.World)
    (wf : IsNumbered st.next_id st.uploads) (room : st.next_id + 1 < id_limit) where
  serve_route-IsStep :
      (route : Route) → IsStep route.repository st (serve_route b w r principal route st).1
  unfolding serve_route
  serve_route-IsStep route = by_action route.repository route.action route.rest
    where
      by_action :
          (repository : Text) (action : Action) (rest : Text)
          → IsStep repository st
              (serve_route b w r principal
                (record { repository = repository; action = action; rest = rest })
                st).1
      by_action repository manifests rest =
          let (sessions, next) = handle_manifest-IsSame b w r repository principal rest st in
          same-IsStep repository st _ wf sessions next
      by_action repository blobs rest = elim (Bool-cases (rest == codes "uploads/")) [
        | inl e ↦ rw e (handle_start_upload-IsStep b w r repository st wf room)
        | inr e ↦ elim (Bool-cases (has_prefix rest (codes "uploads/"))) [
          | inl p ↦ rw (e, p) (handle_upload-IsStep b w r repository st _ wf)
          | inr p ↦
              let (sessions, next) = handle_blob-IsSame b w r repository principal rest st in
              rw (e, p) (same-IsStep repository st _ wf sessions next)
        ]
      ]

  serve_admitted-IsStep : IsStep (target r) st (serve_admitted b w r principal st).1
  unfolding serve_admitted
  serve_admitted-IsStep = elim (Bool-cases (r.path == codes "/v2/")) [
    | inl e ↦ elim (Bool-cases (reads r.method)) [
      | inl p ↦ rw (serve_admitted, e, p) (same-IsStep (target r) st st wf refl refl)
      | inr p ↦ rw (serve_admitted, e, p) (same-IsStep (target r) st st wf refl refl)
    ]
    | inr e ↦ elim (Option-cases (parse_v2_path r.path)) [
      | inl p ↦ rw (serve_admitted, e, p) (same-IsStep (target r) st st wf refl refl)
      | inr (route, p) ↦
          rw (serve_admitted, e, p, target_route r route e p) (serve_route-IsStep route)
    ]
  ]

module _ ⦃k : Casing⦄ (b : Backend) (at : Instants) (r : Request) where
  -- Whatever a request does, each session behind it still stands under the number of a start, and
  -- the sessions of repositories other than the request's are those that were there, none more and
  -- none less; as long as the starts have not gone through all numbers of 64 bits.
  pub serve_http-IsStep :
      (st : State b.World)
      → IsNumbered st.next_id st.uploads
      → st.next_id + 1 < id_limit
      → IsStep (target r) st (serve_http b at r st).1
  unfolding serve_http
  serve_http-IsStep st wf room = go (authenticate at b.authenticator api_version r st).0 refl
    where
      mid : State b.World
      mid = (authenticate at b.authenticator api_version r st).1

      same : (mid.uploads ≡ st.uploads) × (mid.next_id ≡ st.next_id)
      same = authenticate-IsSame at api_version r b.authenticator st

      first : IsStep (target r) st mid
      first = same-IsStep (target r) st mid wf same.0 same.1

      go :
          (admission : Admission)
          → (authenticate at b.authenticator api_version r st).0 ≡ admission
          → IsStep (target r) st (serve_http b at r st).1
      go (refused response) e = rw (serve_http, e) first
      go (admitted principal) e =
          rw (serve_http, e)
            (IsStep-trans (target r) st mid _ first (
              serve_admitted-IsStep b api_version r (request_principal principal) mid first.numbered
                (subst (λ n. n + 1 < id_limit) (sym same.1) room)))
