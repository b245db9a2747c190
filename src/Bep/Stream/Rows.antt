-- ===== src/Bep/Stream/Rows.antt =====
-- The rows that a stream writes.
use bazel_broker.Common.{
  suc, ◌≡◌, refl, ◌⊎◌, inl, inr, Bool, true, false, ◌||◌, List, [], ◌∷◌, length, length-append,
  GoString, is_empty, if◌then◌else◌, Bool-cases, Option-cases, arith,
}
use bazel_broker.Admission.Types.{Time}
use bazel_broker.Admission.Targets.{trim_space}
use bazel_broker.Bep.Stream.{
  StreamConfig, Stream, BuildEvent, Payload, started, test_result, build_metrics, build_finished,
  other_payload, push_command_targets, stub_build, bind_build, alerted_row, finalize, fold_payload,
  dispatch, consume, consume_all, started_row,
}

module _ (cfg : StreamConfig) where
  -- Finalizing a second time changes nothing: not the registry, not the rows, not the state.
  pub finalize-finalize :
      (s : Stream) (now later : Time) → finalize cfg (finalize cfg s now) later ≡ finalize cfg s now
  unfolding finalize
  finalize-finalize s now later = ground arith

  -- The rows of the sink between two states of a stream: one more row at most, when it is finalized.
  abbrev pub Once : Stream → Stream → Type 0
  Once s s' =
      ((s'.rows ≡ s.rows) × (s'.finalized ≡ s.finalized))
      ⊎ ((s.finalized ≡ false) × (s'.finalized ≡ true) × (length s'.rows ≡ suc (length s.rows)))

  finalize-Once : (s : Stream) (now : Time) → Once s (finalize cfg s now)
  unfolding finalize
  finalize-Once s now = elim (Bool-cases (s.finalized || is_empty s.row.invocation_id)) [
    | inl h ↦ rw (h, finalize) (inl (refl, refl))
    | inr h ↦
        rw (h, finalize)
          (inr (
            ground arith,
            refl,
            omega (arith, length-append s.rows ((alerted_row cfg s, s.raw_metrics) ∷ [])),
          ))
  ]

  push-Once : (s : Stream) (now : Time) → Once s (push_command_targets cfg s now)
  unfolding push_command_targets
  push-Once s now = ground arith

  bind-Once : (s : Stream) (now : Time) → Once s (bind_build cfg s now)
  unfolding bind_build
  bind-Once s now =
      ground (arith, push-Once (record s { bound = true; reg = stub_build cfg s now }) now)

  payload-Once : (s : Stream) (p : Payload) (now : Time) → Once s (fold_payload cfg s p now)
  unfolding fold_payload
  payload-Once s (started st) now =
      bind-Once (record s { row = started_row cfg s.row st; command = st.command }) now
  payload-Once s (test_result status) now = inl (refl, refl)
  payload-Once s (build_metrics m) now = inl (refl, refl)
  payload-Once s (build_finished fin) now = inl (refl, refl)
  payload-Once s other_payload now = inl (refl, refl)

  Once-trans : (a b c : Stream) → Once a b → Once b c → Once a c
  Once-trans a b c h k = ground arith

  dispatch-Once : (s : Stream) (ev : BuildEvent) (now : Time) → Once s (dispatch cfg s ev now)
  unfolding dispatch
  dispatch-Once s ev now = go (is_empty ev.pattern) ev.last_message
    where
      s1 : Stream
      s1 = fold_payload cfg s ev.payload now

      s2 : Stream
      s2 = record s1 { patterns = ev.pattern }

      next : Bool → Stream
      next b = if b then s1 else push_command_targets cfg s2 now

      first : (b : Bool) → Once s (next b)
      first true = payload-Once s ev.payload now
      first false =
          Once-trans s s2 (push_command_targets cfg s2 now) (payload-Once s ev.payload now)
            (push-Once s2 now)

      go : (b l : Bool) → Once s (if l then finalize cfg (next b) now else next b)
      go b true =
          Once-trans s (next b) (finalize cfg (next b) now) (first b) (finalize-Once (next b) now)
      go b false = first b

  consume-Once : (s : Stream) (text : GoString) (now : Time) → Once s (consume cfg s text now)
  unfolding consume
  consume-Once s text now = elim (Bool-cases (is_empty (trim_space text))) [
    | inl h ↦ rw (h, consume) (inl (refl, refl))
    | inr h ↦ elim (Option-cases (cfg.decode (trim_space text))) [
      | inl e ↦ rw (h, e, consume) (inl (refl, refl))
      | inr (ev, e) ↦ rw (h, e, consume) (dispatch-Once s ev now)
    ]
  ]

  -- Whatever lines follow, a tail writes at most one row of metrics, and none for a stream that is
  -- finalized already.
  pub consume_all-Once :
      (s : Stream) (lines : List (GoString × Time)) → Once s (consume_all cfg s lines)
  unfolding consume_all
  consume_all-Once s [] = inl (refl, refl)
  consume_all-Once s ((text, now) ∷ rest) =
      Once-trans s (consume cfg s text now) (consume_all cfg (consume cfg s text now) rest)
        (consume-Once s text now) (consume_all-Once (consume cfg s text now) rest)
