-- ===== src/Admission/Http.antt =====
-- internal/admission/http.go: the admission routes. A body is given as its decoder leaves it: `none`
-- where the JSON does not decode. A response is its status, its word and the `Retry-After` header.
use bazel_broker.Common.{
  ℕ, ◌≡◌, refl, ◌≢◌, ◌⊎◌, inl, inr, true, Option, none, some, List, [], GoString, lit, is_empty,
  if◌then◌else◌, arith,
}
use bazel_broker.Admission.Types.{
  Verdict, allow, queue, deny, verdict_string, Request, Time, ActiveBuild,
}
use bazel_broker.Admission.Engine.{Engine}
use bazel_broker.Admission.Lifecycle.{
  Others, Wake, admit, release, set_paused, set_draining, resume,
}

pub record Response : Type 0 where
  pub code : ℕ
  pub body : GoString
  pub retry_after : Option GoString

abbrev pub respond : ℕ → GoString → Response
respond code body = record { code = code; body = body; retry_after = none }

-- The `switch` at the end of `Admitter.Admit`.
unfoldable pub verdict_response : Verdict → Response
verdict_response allow = respond 200 (lit "ALLOW")
verdict_response queue = record (respond 202 (lit "QUEUE")) { retry_after = some (lit "1") }
verdict_response deny = respond 403 (lit "DENY")

-- `Admitter.Admit`.
unfoldable pub handle_admit :
    Engine
    → Option Request
    → (attached left : Time) → List ActiveBuild
    → (others : Others) → Wake
    → Engine × Response
handle_admit e none attached left builds others wake = (e, respond 400 (lit "BAD"))
handle_admit e (some req) attached left builds others wake =
    let (e', v) = admit e req attached left builds others wake in
    if is_empty req.invocation_id then (e, respond 400 (lit "BAD")) else (e', verdict_response v)

-- `Admitter.Release`, given the id in the body, which is empty where the JSON does not decode.
unfoldable pub handle_release : Engine → GoString → Time → List ActiveBuild → Engine × Response
handle_release e id now builds =
    (if is_empty id then e else release e id now builds, respond 204 [])

-- `Admitter.Pause`, `Admitter.Resume` and `Admitter.Drain`.
unfoldable pub handle_pause : Engine → Time → List ActiveBuild → Engine × Response
handle_pause e now builds = (set_paused e true now builds, respond 200 (lit "PAUSED"))

unfoldable pub handle_resume : Engine → Time → List ActiveBuild → Engine × Response
handle_resume e now builds = (resume e now builds, respond 200 (lit "RESUMED"))

unfoldable pub handle_drain : Engine → Time → List ActiveBuild → Engine × Response
handle_drain e now builds = (set_draining e true now builds, respond 200 (lit "DRAINING"))

-- What the wrapper reads back from a response: any other status fails open.
abbrev pub IsNameOf : GoString → Verdict → Type 0
IsNameOf body v = body ≡ verdict_string v

-- The body of the answer to a verdict is the verdict's name, only a queued client is told when to retry,
-- and different verdicts have different codes, none of which is that of a bad request.
verdict_response_lem :
    (v w : Verdict)
    → IsNameOf (verdict_response v).body v
      × (((verdict_response v).retry_after ≡ none) ⊎ (v ≡ queue))
      × ((verdict_response v).code ≢ 400)
      × ((verdict_response v).code ≡ (verdict_response w).code → v ≡ w)
unfolding verdict_response verdict_string
verdict_response_lem allow allow = (refl, inl refl, omega arith, λ e. refl)
verdict_response_lem allow queue = (refl, inl refl, omega arith, λ e. absurd (omega arith))
verdict_response_lem allow deny = (refl, inl refl, omega arith, λ e. absurd (omega arith))
verdict_response_lem queue allow = (refl, inr refl, omega arith, λ e. absurd (omega arith))
verdict_response_lem queue queue = (refl, inr refl, omega arith, λ e. refl)
verdict_response_lem queue deny = (refl, inr refl, omega arith, λ e. absurd (omega arith))
verdict_response_lem deny allow = (refl, inl refl, omega arith, λ e. absurd (omega arith))
verdict_response_lem deny queue = (refl, inl refl, omega arith, λ e. absurd (omega arith))
verdict_response_lem deny deny = (refl, inl refl, omega arith, λ e. refl)
