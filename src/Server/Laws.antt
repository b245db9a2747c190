-- ===== src/Server/Laws.antt =====
-- Who gets past the token, and what a client reads after a write.
use bazel_broker.Common.{
  ◌≡◌, ◌≢◌, refl, sym, ap, ◌∙◌, ◌⊎◌, inl, inr, Bool, true, false, ◌||◌, Option, none, some, [], ◌∷◌,
  ◌++◌, GoString, is_empty, lit, str_eq, str_eq_iff, str_eq_refl, lookup, lookup-insert, ℤ, pos,
  Bool-cases, Option-cases, arith,
}
use bazel_broker.Admission.Types.{Time}
use bazel_broker.Build.{Build, is_terminal}
use bazel_broker.Registry.{
  Registry, ok, persist, broadcast_build, register, register_merge, stored_or_new, finish,
  deregister, get_build,
}
use bazel_broker.Server.{
  Route, healthz, list_builds, register_build, register_alias, deregister_alias, events, one_build,
  delete_build, kill_build, build_metrics, build_profile, metrics_list, disk_cache, profile_file,
  admit, release, pause, resume, drain, status, unmatched, path_of, RegisterRequest,
  DeregisterRequest, HttpRequest, write_error, after_prefix, auth_exempt, authorize, to_domain,
  answer_register, answer_deregister, handle_register, handle_deregister, handle_deregister_path,
  handle_get_build, Server, serve_http,
}

-- The routes that need no token: the health check and the files of profiles.
abbrev pub is_public : Route → Bool
is_public healthz = true
is_public (profile_file id name) = true
is_public (unmatched path) = auth_exempt path
is_public _ = false

pub exempt-path_of : (r : Route) → auth_exempt (path_of r) ≡ is_public r
unfolding auth_exempt path_of str_eq after_prefix
exempt-path_of healthz = refl
exempt-path_of list_builds = refl
exempt-path_of register_build = refl
exempt-path_of register_alias = refl
exempt-path_of deregister_alias = refl
exempt-path_of events = refl
exempt-path_of (one_build id) = refl
exempt-path_of (delete_build id) = refl
exempt-path_of (kill_build id) = refl
exempt-path_of (build_metrics id) = refl
exempt-path_of (build_profile id) = refl
exempt-path_of metrics_list = refl
exempt-path_of disk_cache = refl
exempt-path_of (profile_file id name) = refl
exempt-path_of admit = refl
exempt-path_of release = refl
exempt-path_of pause = refl
exempt-path_of resume = refl
exempt-path_of drain = refl
exempt-path_of status = refl
exempt-path_of (unmatched path) = refl

after_prefix-some : (p s rest : GoString) → after_prefix p s ≡ some rest → s ≡ p ++ rest
unfolding after_prefix
after_prefix-some [] s rest h = ground arith
after_prefix-some (c ∷ p) [] rest h = absurd (cc)
after_prefix-some (c ∷ p) (d ∷ s) rest h = ground (arith, after_prefix-some p s rest)

-- A header that carries the token.
abbrev pub Carries : (GoString → GoString) → (token header : GoString) → Type 0
Carries trim_space token header =
    (rest : GoString) × (header ≡ lit "Bearer " ++ rest) × (trim_space rest ≡ token) × (token ≢ [])

authorize-Carries :
    (trim_space : GoString → GoString) (token header : GoString)
    → authorize trim_space token header ≡ true
    → Carries trim_space token header
unfolding authorize
authorize-Carries trim_space token header h =
    elim (Option-cases (after_prefix (lit "Bearer ") header)) [
      | inl e ↦ absurd (ground arith)
      | inr (rest, e) ↦
          let same : str_eq (trim_space rest) token ≡ true = ground arith in
          let set : is_empty token ≡ false = ground arith in
          (
            rest,
            after_prefix-some (lit "Bearer ") header rest e,
            (str_eq_iff (trim_space rest) token).0 same,
            λ z. ground arith,
          )
    ]

-- A request on any route but the health check and the files of profiles is answered 401, with the state as
-- it was, unless its header is the word Bearer, a space and the configured token, which is not empty,
-- up to the space around it.
pub serve_http_guards :
    {S : Type 0} (srv : Server S) (req : HttpRequest) (now : Time) (st : Registry × S)
    → is_public req.route ≡ false
    → Carries srv.trim_space srv.token req.authorization
      ⊎ (serve_http srv req now st ≡ (write_error 401 (lit "unauthorized"), st))
unfolding serve_http
serve_http_guards srv req now st private =
    elim (Bool-cases (authorize srv.trim_space srv.token req.authorization)) [
      | inl e ↦ inl (authorize-Carries srv.trim_space srv.token req.authorization e)
      | inr e ↦ inr (rw (exempt-path_of req.route, private, e, serve_http) refl)
    ]

register_stores :
    (r : Registry) (b : Build) (now : Time)
    → is_empty b.invocation_id ≡ false
    → is_empty b.worktree ≡ false
    → (stored : Build) × ((register r b now).1 ≡ ok stored)
      × (get_build (register r b now).0 b.invocation_id ≡ some stored)
unfolding register get_build persist broadcast_build
register_stores r b now e f =
    let stored = register_merge (stored_or_new r b.invocation_id now) b in
    (
      stored,
      rw (e, f, register) refl,
      rw (e, f, register)
          (ground (
            arith,
            lookup-insert b.invocation_id b.invocation_id stored r.builds,
            str_eq_refl b.invocation_id,
          )),
    )

get_after :
    (r : Registry) (id : GoString) (now : Time) (b : Build)
    → get_build r id ≡ some b
    → handle_get_build r id now ≡ answer_register now (ok b)
unfolding handle_get_build answer_register
get_after r id now b e = rw (handle_get_build, e) refl

-- No JSON, or no id, or no worktree.
abbrev pub IsInvalid : Option RegisterRequest → Type 0
IsInvalid none = Unit {0}
IsInvalid (some req) = (is_empty req.invocation_id || is_empty req.worktree) ≡ true

-- A registration with an id and a worktree is answered 200 with the very build that a read of that id gives
-- then; any other leaves the registry as it was and is answered 400.
pub register_then_get :
    (r : Registry) (body : Option RegisterRequest) (now : Time)
    → ((req : RegisterRequest) × (body ≡ some req)
        × ((handle_register r body now).0.code ≡ 200)
        × (handle_get_build (handle_register r body now).1 req.invocation_id now
            ≡ (handle_register r body now).0))
      ⊎ (IsInvalid body × (handle_register r body now ≡ (write_error 400 (lit "bad_request"), r)))
unfolding handle_register to_domain
register_then_get r none now = inr (tt, refl)
register_then_get r (some req) now =
    elim (Bool-cases (is_empty req.invocation_id || is_empty req.worktree)) [
      | inl e ↦ inr (e, rw (e, handle_register) refl)
      | inr e ↦
          let (stored, result, kept) =
            register_stores r (to_domain req) now (ground arith) (ground arith) in
          inl (
            req,
            refl,
            rw (e, result, handle_register) (unfold answer_register in refl),
            rw (e, result, handle_register)
                (get_after (register r (to_domain req) now).0 req.invocation_id now stored kept),
          )
    ]

deregister_reads :
    (r : Registry) (id : GoString) (code : ℤ) (now : Time)
    → is_empty id ≡ false
    → (deregister r id code now).1 ≡ ok (get_build (deregister r id code now).0 id)
unfolding deregister get_build persist broadcast_build
deregister_reads r id code now e = elim (Option-cases (lookup id r.builds)) [
  | inl n ↦ rw (e, n, deregister) (rw n refl)
  | inr (b, f) ↦ elim (Bool-cases (is_terminal b.state)) [
    | inl t ↦ rw (e, f, t, deregister) (rw f refl)
    | inr t ↦
        rw (e, f, t, deregister)
          (ground (arith, lookup-insert id id (finish b code now) r.builds, str_eq_refl id))
  ]
]

get_answers :
    (r : Registry) (id : GoString) (now : Time)
    → handle_get_build r id now ≡ answer_deregister now (ok (get_build r id))
unfolding handle_get_build answer_deregister
get_answers r id now = elim (Option-cases (get_build r id)) [
  | inl e ↦ rw (handle_get_build, e) refl
  | inr (b, e) ↦ rw (handle_get_build, e) refl
]

-- The answer to a deregistration by path, with the exit code or without, is what a read of that id gives
-- then, whether the build was running, had ended or is unknown; the same holds for the handler that takes
-- the id from the body. (The id is not empty.)
pub deregister_then_get :
    (r : Registry) (req : DeregisterRequest) (exit_code : Option ℤ) (now : Time)
    → is_empty req.invocation_id ≡ false
    → (handle_get_build (handle_deregister r (some req) now).1 req.invocation_id now
        ≡ (handle_deregister r (some req) now).0)
      × (handle_get_build
            (handle_deregister_path r req.invocation_id exit_code now).1
            req.invocation_id
            now
          ≡ (handle_deregister_path r req.invocation_id exit_code now).0)
unfolding handle_deregister handle_deregister_path
deregister_then_get r req exit_code now named = (
  rw (named, handle_deregister)
      (get_answers (deregister r req.invocation_id req.exit_code now).0 req.invocation_id now
        ∙ ap (answer_deregister now)
            (sym (deregister_reads r req.invocation_id req.exit_code now named))),
  get_answers (deregister r req.invocation_id (elim exit_code [ none ↦ pos 0 | some n ↦ n ]) now).0
        req.invocation_id now
      ∙ ap (answer_deregister now) (
          sym (
            deregister_reads r req.invocation_id (elim exit_code [ none ↦ pos 0 | some n ↦ n ]) now
              named)),
)
