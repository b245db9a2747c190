-- ===== src/Kill/Route/Laws.antt =====
-- Whom the kill handler signals, and what its answer says.
use bazel_broker.Common.{
  ℕ, suc, ◌≤◌, ◌≡◌, ◌≢◌, refl, subst, inl, inr, true, false, ◌||◌, Option, none, some, GoString,
  is_empty, lit, ℤ, pos, pos_part, ◌*◌, leb_ℤ, sub_ℕ, Bool-cases, Option-cases, arith,
}
use bazel_broker.Admission.Types.{Time}
use bazel_broker.Build.{Build, milliseconds}
use bazel_broker.Registry.{Registry, get_build}
use bazel_broker.Kill.{Os, Outcome, KillError, KillConfig, sigkill_settle, grace_of, poll_of, Ended}
use bazel_broker.Kill.Laws.{IsTimely, Gone, Honest, kill_proc-Honest}
use bazel_broker.Kill.Fuel.{kill_proc_ends}
use bazel_broker.Kill.Route.{
  KillRequest, KillResponse, write_kill_error, write_kill, kill_response, Machine, freshened,
  answer_kill, kill_build, kill_route,
}

-- The answer is that of a successful kill.
abbrev pub SaysKilled : KillResponse → Type 0
SaysKilled (write_kill_error status code) = ⊥
SaysKilled (write_kill status res) = res.is_killed ≡ true

module _ (os : Os) where
  -- An id that the registry does not have, after the reconciliation, is answered with an error, and so is a
  -- build without a pid; the system and the registry are as the reconciliation left them, so that nothing
  -- is signalled. (The id is not empty.)
  pub kill_route_guards :
      (fuel : ℕ) (s : Machine os) (cfg : KillConfig) (freshen : Option (Machine os → Machine os))
      (req : KillRequest)
      → is_empty req.invocation_id ≡ false
      → ((b : Build)
          → get_build (freshened os freshen s).0 req.invocation_id ≡ some b
          → leb_ℤ b.pid (pos 0) ≡ true)
      → (status : ℕ) × (code : GoString) × (400 ≤ status)
        × (kill_route os fuel s cfg freshen req
            ≡ some (write_kill_error status code, freshened os freshen s))
  unfolding kill_route kill_build
  kill_route_guards fuel s cfg freshen req named none_known =
      elim (Option-cases (get_build (freshened os freshen s).0 req.invocation_id)) [
        | inl e ↦ (404, lit "not_found", omega arith, rw (named, e, kill_route) refl)
        | inr (b, e) ↦
            (409, lit "no_pid", omega arith, rw (named, e, none_known b e, kill_route) refl)
      ]

  -- An answer that a build was killed is about a build of the registry, and the system has said that the
  -- process with that build's pid is gone.
  kill_response-Honest :
      (id : GoString) (pid elapsed : ℤ) (o : Outcome) (err : Option KillError) (w : os.World)
      → Honest os pid (some ((o, err), w))
      → SaysKilled (kill_response id pid elapsed o err)
      → Gone os pid w
  unfolding kill_response
  kill_response-Honest id pid elapsed o none w honest says = honest
  kill_response-Honest id pid elapsed o (some e) w honest says = absurd (cc)

  -- What an answer with its machine says: about this process and this registry.
  abbrev IsTrue : Registry → ℤ → Option (KillResponse × Machine os) → Type 0
  IsTrue r pid none = Unit {0}
  IsTrue r pid (some (resp, (r', w'))) = SaysKilled resp → Gone os pid w' × (r' ≡ r)

  answer_kill-IsTrue :
      (r : Registry) (id : GoString) (pid : ℤ) (start : Time) (ended : Ended os.World)
      → Honest os pid ended
      → IsTrue r pid (answer_kill os r id pid start ended)
  unfolding answer_kill
  answer_kill-IsTrue r id pid start none h = tt
  answer_kill-IsTrue r id pid start (some ((o, err), w)) h = λ says.
      (kill_response-Honest id pid (milliseconds (sub_ℕ (os.now w) start)) o err w h says, refl)

  kill_build-IsTrue :
      (fuel : ℕ) (s : Machine os) (cfg : KillConfig) (req : KillRequest) (b : Build)
      → IsTrue s.0 b.pid (kill_build os fuel s cfg req b)
  unfolding kill_build
  kill_build-IsTrue fuel (r, w) cfg req b = elim (Bool-cases (leb_ℤ b.pid (pos 0))) [
    | inl e ↦ rw (e, kill_build) (λ says. elim says [ ])
    | inr e ↦
        rw (e, kill_build)
          (answer_kill-IsTrue r req.invocation_id b.pid (os.now w) _
            (kill_proc-Honest os fuel w _ _))
  ]

  -- What an answer says of a registry that was reconciled.
  abbrev IsAbout : Machine os → GoString → Option (KillResponse × Machine os) → Type 0
  IsAbout m id none = Unit {0}
  IsAbout m id (some (resp, s)) =
      SaysKilled resp → (b : Build) × (get_build m.0 id ≡ some b) × Gone os b.pid s.1 × (s.0 ≡ m.0)

  to_IsAbout :
      (m : Machine os) (id : GoString) (b : Build) (x : Option (KillResponse × Machine os))
      → get_build m.0 id ≡ some b
      → IsTrue m.0 b.pid x
      → IsAbout m id x
  to_IsAbout m id b none e h = tt
  to_IsAbout m id b (some (resp, s)) e h = λ says. let (gone, same) = h says in (b, e, gone, same)

  kill_route-IsAbout :
      (fuel : ℕ) (s : Machine os) (cfg : KillConfig) (freshen : Option (Machine os → Machine os))
      (req : KillRequest)
      → IsAbout (freshened os freshen s) req.invocation_id (kill_route os fuel s cfg freshen req)
  unfolding kill_route
  kill_route-IsAbout fuel s cfg freshen req = elim (Bool-cases (is_empty req.invocation_id)) [
    | inl e ↦ rw (e, kill_route) (λ says. elim says [ ])
    | inr e ↦ elim (Option-cases (get_build (freshened os freshen s).0 req.invocation_id)) [
      | inl f ↦ rw (e, f, kill_route) (λ says. elim says [ ])
      | inr (b, f) ↦
          subst (IsAbout (freshened os freshen s) req.invocation_id)
            (known fuel s cfg freshen req b e f)
            (to_IsAbout (freshened os freshen s) req.invocation_id b _ f
              (kill_build-IsTrue fuel (freshened os freshen s) cfg req b))
    ]
  ]
    where
      known :
          (fuel : ℕ) (s : Machine os) (cfg : KillConfig)
          (freshen : Option (Machine os → Machine os)) (req : KillRequest) (b : Build)
          → is_empty req.invocation_id ≡ false
          → get_build (freshened os freshen s).0 req.invocation_id ≡ some b
          → kill_build os fuel (freshened os freshen s) cfg req b
            ≡ kill_route os fuel s cfg freshen req
      known fuel s cfg freshen req b e f = rw (e, f, kill_route) refl

  -- An answer that a build was killed is about a build that the registry has after the reconciliation, the
  -- system has said that the process with that build's pid is gone, and the registry is as the
  -- reconciliation left it.
  pub kill_route-Honest :
      (fuel : ℕ) (s : Machine os) (cfg : KillConfig) (freshen : Option (Machine os → Machine os))
      (req : KillRequest) (resp : KillResponse) (s' : Machine os)
      → kill_route os fuel s cfg freshen req ≡ some (resp, s')
      → SaysKilled resp
      → (b : Build) × (get_build (freshened os freshen s).0 req.invocation_id ≡ some b)
        × Gone os b.pid s'.1
        × (s'.0 ≡ (freshened os freshen s).0)
  kill_route-Honest fuel s cfg freshen req resp s' h says =
      subst (IsAbout (freshened os freshen s) req.invocation_id) h
        (kill_route-IsAbout fuel s cfg freshen req) says

  answer_kill_ends :
      (r : Registry) (id : GoString) (pid : ℤ) (start : Time) (ended : Ended os.World)
      → ended ≢ none
      → answer_kill os r id pid start ended ≢ none
  unfolding answer_kill
  answer_kill_ends r id pid start none h = λ e. h refl
  answer_kill_ends r id pid start (some ((o, err), w)) h = λ e. cc

  kill_build_ends :
      (fuel : ℕ) (s : Machine os) (cfg : KillConfig) (req : KillRequest) (b : Build)
      → IsTimely os
      → pos_part (grace_of cfg) ≤ fuel * pos_part (poll_of cfg)
      → pos_part sigkill_settle ≤ fuel * pos_part (poll_of cfg)
      → kill_build os (suc fuel) s cfg req b ≢ none
  unfolding kill_build grace_of poll_of
  kill_build_ends fuel (r, w) cfg req b timely graces settles =
      elim (Bool-cases (leb_ℤ b.pid (pos 0))) [
        | inl e ↦ rw (e, kill_build) (λ h. cc)
        | inr e ↦
            rw (e, kill_build)
              (answer_kill_ends r req.invocation_id b.pid (os.now w) _ (
                kill_proc_ends os timely fuel
                  (record cfg { use_cancel = cfg.use_cancel || req.use_cancel }) settles graces w
                  _))
      ]

  -- With the fuel that the kill state machine needs, on a system whose clock moves with its sleeps, every
  -- request is answered.
  pub kill_route_ends :
      (fuel : ℕ) (s : Machine os) (cfg : KillConfig) (freshen : Option (Machine os → Machine os))
      (req : KillRequest)
      → IsTimely os
      → pos_part (grace_of cfg) ≤ fuel * pos_part (poll_of cfg)
      → pos_part sigkill_settle ≤ fuel * pos_part (poll_of cfg)
      → kill_route os (suc fuel) s cfg freshen req ≢ none
  unfolding kill_route
  kill_route_ends fuel s cfg freshen req timely graces settles =
      elim (Bool-cases (is_empty req.invocation_id)) [
        | inl e ↦ rw (e, kill_route) (λ h. cc)
        | inr e ↦ elim (Option-cases (get_build (freshened os freshen s).0 req.invocation_id)) [
          | inl f ↦ rw (e, f, kill_route) (λ h. cc)
          | inr (b, f) ↦
              rw (e, f, kill_route)
                (kill_build_ends fuel (freshened os freshen s) cfg req b timely graces settles)
        ]
      ]
