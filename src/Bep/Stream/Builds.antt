-- ===== src/Bep/Stream/Builds.antt =====
-- The builds that a stream leaves in the registry.
use bazel_broker.Common.{
  ◌≡◌, refl, ap, subst, ◌∙◌, inl, inr, true, false, ◌&&◌, not, none, some, is_empty, lookup,
  is_zero, Bool-cases, arith,
}
use bazel_broker.Admission.Types.{Time}
use bazel_broker.Build.{is_terminal, Build, discovered}
use bazel_broker.Metrics.{Row}
use bazel_broker.Registry.{get_build}
use bazel_broker.Registry.Upsert.{upsert_target, upsert_merge, upsert}
use bazel_broker.Bep.Stream.{
  StreamConfig, Stream, Started, started, reset_state, push_command_targets, stub_build, bind_build,
  alerted_row, enrichment, finalize, fold_payload, restart, started_row, stub, target_update,
}
use bazel_broker.Registry.Upsert.ById.{
  lookup-upsert, upsert_target-known, upsert_target-new, upsert_merge-ends,
}

module _ (cfg : StreamConfig) where
  enrichment-ends : (row : Row) (now : Time) → is_terminal (enrichment cfg row now).state ≡ true
  unfolding enrichment is_terminal
  enrichment-ends row now = elim (Bool-cases (row.has_finish && not row.success)) [
    | inl h ↦ rw h refl
    | inr h ↦ rw h refl
  ]

  alerted_row-id : (s : Stream) → (alerted_row cfg s).invocation_id ≡ s.row.invocation_id
  unfolding alerted_row
  alerted_row-id s = ground arith

  enrichment-id :
      (s : Stream) (now : Time)
      → (enrichment cfg (alerted_row cfg s) now).invocation_id ≡ s.row.invocation_id
  unfolding enrichment
  enrichment-id s now = alerted_row-id s

  enrichment-no_pid :
      (s : Stream) (now : Time) → is_zero (enrichment cfg (alerted_row cfg s) now).pid ≡ true
  unfolding enrichment
  enrichment-no_pid s now = refl

  -- Finalizing a stream that is not finalized yet and whose build has an id leaves that build in the
  -- registry with a terminal state, whatever the registry held under the id.
  pub finalize_ends :
      (s : Stream) (now : Time)
      → s.finalized ≡ false
      → is_empty s.row.invocation_id ≡ false
      → (b : Build) × (lookup s.row.invocation_id (finalize cfg s now).reg.builds ≡ some b)
        × (is_terminal b.state ≡ true)
  unfolding finalize alerted_row
  finalize_ends s now fresh named =
      let b = enrichment cfg (alerted_row cfg s) now in
      let stored = (upsert_target s.reg.builds b now).1 in
      let same = enrichment-id s now in
      rw (fresh, named, finalize)
        (
          upsert_merge stored b now,
          subst (λ k. lookup k (upsert s.reg b now).0.builds ≡ some (upsert_merge stored b now))
              same (lookup-upsert s.reg b now (ap is_empty same ∙ named) (enrichment-no_pid s now)),
          upsert_merge-ends stored b now (enrichment-ends (alerted_row cfg s) now),
        )

  stub_build-new :
      (s : Stream) (now : Time)
      → get_build s.reg s.row.invocation_id ≡ none
      → stub_build cfg s now ≡ (upsert s.reg (stub cfg s now) now).0
  unfolding stub_build
  stub_build-new s now new = rw (new, stub_build) refl

  -- What `bind_build` stores under an id that the registry does not know.
  stub-discovered :
      (s : Stream) (now : Time)
      → is_empty s.row.invocation_id ≡ false
      → get_build s.reg s.row.invocation_id ≡ none
      → (b : Build) × (lookup s.row.invocation_id (stub_build cfg s now).builds ≡ some b)
        × (b.source ≡ discovered)
  unfolding get_build upsert_merge
  stub-discovered s now named new =
      let b = stub cfg s now in
      rw (stub_build-new s now new) (
        upsert_merge (upsert_target s.reg.builds b now).1 b now,
        lookup-upsert s.reg b now named refl,
        ap (λ (x : Build). x.source) (upsert_target-new s.reg.builds b now named refl new),
      )

  bind-targets :
      (s : Stream) (now : Time)
      → s.bound ≡ false
      → is_empty s.row.invocation_id ≡ false
      → is_empty s.patterns ≡ false
      → get_build s.reg s.row.invocation_id ≡ none
      → (b : Build) × (lookup s.row.invocation_id (bind_build cfg s now).reg.builds ≡ some b)
        × (b.targets ≡ s.patterns)
  unfolding bind_build push_command_targets upsert_merge stub_build
  bind-targets s now fresh named some_patterns new =
      let (old, at_stub, found) = stub-discovered s now named new in
      let s' : Stream = record s { bound = true; reg = stub_build cfg s now } in
      let u = target_update cfg s' in
      let known = (upsert_target s'.reg.builds u now).1 in
      let same = upsert_target-known s'.reg.builds u old now named refl at_stub in
      let pushes : (is_empty s.command && is_empty s.patterns) ≡ false = ground arith in
      rw (fresh, named, pushes)
        (
          upsert_merge known u now,
          lookup-upsert s'.reg u now named refl,
          ground (arith, ap (λ (x : Build). x.source) same),
        )

  finalize-patterns : (s : Stream) (now : Time) → (finalize cfg s now).patterns ≡ s.patterns
  unfolding finalize
  finalize-patterns s now = ground arith

  -- The build that a new stream of the same file announces carries the target patterns of the stream
  -- before: they are not reset, so until its own patterns come, an unknown build shows the old ones.
  pub restart-started :
      (s : Stream) (st : Started) (now later : Time)
      → is_empty st.uuid ≡ false
      → is_empty s.patterns ≡ false
      → get_build (restart cfg s now).reg st.uuid ≡ none
      → (b : Build) × (lookup st.uuid
            (fold_payload cfg (restart cfg s now) (started st) later).reg.builds
          ≡ some b)
        × (b.targets ≡ s.patterns)
  unfolding restart reset_state fold_payload started_row
  restart-started s st now later named stale fresh =
      let (b, stored, shown) =
        bind-targets _ later refl named (ap is_empty (finalize-patterns s now) ∙ stale) fresh in
      (b, stored, shown ∙ finalize-patterns s now)
