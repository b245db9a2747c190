-- ===== src/Cli/Client/Laws.antt =====
-- The client against the server: what the command exits with.
use bazel_broker.Common.{
  ℕ, ◌<◌, ◌≢◌, ◌↔◌, arith, ◌≡◌, lit, ◌++◌, refl, true, false, none, some, [], GoString,
}
use bazel_broker.Admission.Types.{Time}
use bazel_broker.Build.{Build, ApiBuild, to_api}
use bazel_broker.Registry.{Registry, get_build}
use bazel_broker.Server.{
  Route, one_build, HttpRequest, error_body, build_body, builds_body, health_body, foreign_body,
  HttpResponse, authorize, handle_get_build, Server, route_request, serve_http,
}
use bazel_broker.Server.Laws.{exempt-path_of}
use bazel_broker.Cli.Client.{
  Reply, no_reply, reply, Fetched, received, exit_ok, exit_auth, exit_broker, new_status_error,
  do_request, map_err, exit_code_for, bearer,
}

-- The reply that the client decodes from a response of the server.
unfoldable pub decoded : HttpResponse → Reply ApiBuild
decoded resp = elim resp.body [
  | build_body b ↦ reply resp.code none [] (some b)
  | error_body code ↦
      reply resp.code (some (record { code = code; message = []; epic = [] })) [] none
  | builds_body bs ↦ reply resp.code none [] none
  | health_body c ↦ reply resp.code none [] none
  | foreign_body text ↦ reply resp.code none text none
]

-- The request of `GetBuild` with a token. `mux` is the route that the server finds for a path, in which the
-- id stands as it is, with nothing escaped.
abbrev pub get_request : (mux : GoString → Route) → (token id : GoString) → HttpRequest
get_request mux token id = record {
  route = mux (lit "/builds/" ++ id);
  authorization = bearer token;
  register_body = none;
  deregister_body = none;
  exit_code = none;
}

module _ {S : Type 0} (srv : Server S) (trim_space : GoString → GoString)
    (mux : GoString → Route) where
  -- `Client.GetBuild` against the server.
  abbrev pub fetch : (token id : GoString) → Time → Registry × S → Fetched ApiBuild
  fetch token id now st =
      do_request trim_space (decoded (serve_http srv (get_request mux token id) now st).0)

  -- Where the path leads to the build's route: a client without the server's token exits with 4; with it, the client of a build that the registry does
  -- not have exits with 5, and that of a build it has receives the build as it stands and exits with 0.
  fetch_exits :
      (token id : GoString) (now : Time) (r : Registry) (s : S)
      → mux (lit "/builds/" ++ id) ≡ one_build id
      → (authorize srv.trim_space srv.token (bearer token) ≡ false
          → exit_code_for (fetch token id now (r, s)) ≡ exit_auth)
        × (authorize srv.trim_space srv.token (bearer token) ≡ true
            → get_build r id ≡ none
            → exit_code_for (fetch token id now (r, s)) ≡ exit_broker)
        × ((b : Build)
            → authorize srv.trim_space srv.token (bearer token) ≡ true
            → get_build r id ≡ some b
            → (fetch token id now (r, s) ≡ received (to_api b now))
              × (exit_code_for (fetch token id now (r, s)) ≡ exit_ok))
  unfolding serve_http route_request handle_get_build decoded do_request exit_code_for map_err
      new_status_error
  fetch_exits token id now r s route = rw route (
    λ e. rw (exempt-path_of (one_build id), e, serve_http) refl,
    λ e f. rw (exempt-path_of (one_build id), e, serve_http, f, handle_get_build) refl,
    λ b e f. (
      rw (exempt-path_of (one_build id), e, serve_http, f, handle_get_build) refl,
      rw (exempt-path_of (one_build id), e, serve_http, f, handle_get_build) refl,
    ),
  )

-- The status of a reply, and whether its body decodes.
abbrev pub HasStatus : {A : Type 0} → ℕ → Reply A → Type 0
HasStatus n no_reply = ⊥
HasStatus n (reply status parsed text decoded) = status ≡ n

abbrev pub Succeeds : {A : Type 0} → Reply A → Type 0
Succeeds no_reply = ⊥
Succeeds {A} (reply status parsed text decoded) = (status < 400) × (a : A) × (decoded ≡ some a)

-- The exit code of a request tells scripts what came of it: 0 exactly if a reply with a status below 400
-- brought the value, 3 exactly if no reply came, 4 exactly at status 401 and 6 exactly at status 501; in
-- every other case it is 5.
pub exit_codes :
    {A : Type 0} (trim_space : GoString → GoString) (r : Reply A)
    → let code = exit_code_for (do_request trim_space r) in
      (code ≡ 0 ↔ Succeeds r)
      × (code ≡ 3 ↔ r ≡ no_reply)
      × (code ≡ 4 ↔ HasStatus 401 r)
      × (code ≡ 6 ↔ HasStatus 501 r)
      × (code ≢ 0 → code ≢ 3 → code ≢ 4 → code ≢ 6 → code ≡ 5)
unfolding do_request exit_code_for map_err new_status_error
exit_codes trim_space no_reply = (
  (λ e. absurd (omega arith), λ h. absurd h),
  (λ e. refl, λ h. refl),
  (λ e. absurd (omega arith), λ h. absurd h),
  (λ e. absurd (omega arith), λ h. absurd h),
  λ a b c d. absurd (b refl),
)
exit_codes trim_space (reply status parsed text none) = (
  (λ e. absurd (ground arith), λ h. absurd (cc)),
  (λ e. absurd (ground arith), λ h. absurd (cc)),
  (λ e. ground arith, λ h. ground arith),
  (λ e. ground arith, λ h. ground arith),
  λ a b c d. ground arith,
)
exit_codes trim_space (reply status parsed text (some v)) = (
  (λ e. (ground arith, v, refl), λ h. ground arith),
  (λ e. absurd (ground arith), λ h. absurd (cc)),
  (λ e. ground arith, λ h. ground arith),
  (λ e. ground arith, λ h. ground arith),
  λ a b c d. ground arith,
)
