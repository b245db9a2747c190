-- ===== src/Admission/Tests.antt =====
-- Runs of the admission engine on small inputs, and its theorems at such inputs.
use bazel_broker.Common.{
  ℕ, arith, ◌*◌, ◌≡◌, refl, Bool, true, false, none, List, [], ◌∷◌, ◌++◌, GoString, lit, str_eq,
  lookup, insert, delete, ℤ, pos, ◌-ℤ◌, ◌≤ℤ◌, ltb_ℤ,
}
use bazel_broker.Admission.Types.{
  allow, Request, default_policy, poll_cap, seconds, RegistrySnapshot, ActiveBuild,
}
use bazel_broker.Admission.Targets.{
  is_space, fields_from, fields, trim_left, trim_right, trim_space, has_prefix, trim_prefix, member,
  normalize, add_word, add_words, to_set_from, to_set, shares, overlaps, split_targets,
}
use bazel_broker.Admission.Targets.Prefix.{overlaps-repo_prefix}
use bazel_broker.Admission.Semaphore.{new_semaphore, sem_try, sem_acquire, sem_release, held_count}
use bazel_broker.Admission.Semaphore.Laws.{holds}
use bazel_broker.Admission.TokenBucket.{new_token_bucket, set_sample, bucket_try}
use bazel_broker.Admission.Stagger.{
  Stagger, new_stagger, consider, aged, step_record, step_build, hold_recent, hold_builds,
  stagger_gc, stagger_try, stagger_acquire,
}
use bazel_broker.Admission.Stagger.Laws.{remaining}
use bazel_broker.Admission.Stagger.Hold.{stagger_try-covers}
use bazel_broker.Admission.Engine.{
  Engine, new_engine, write, deliver, try_all_gates, acquire_all_gates, release_gates,
  arm_retry_timer, turn, turns, schedule, start_snap, admit_head, admitted_snap,
}
use bazel_broker.Admission.Engine.Queries.{queued_count, status}
use bazel_broker.Admission.Engine.Heap.{IsValid}
use bazel_broker.Admission.Engine.Turns.{after_try}
use bazel_broker.Admission.Engine.Fifo.{Served, schedule-Served, Woken, schedule-Woken}
use bazel_broker.Admission.Lifecycle.{
  refresh, attach_locked, attach, detach, receive, Others, expired, admit, release_locked, release,
  disarm, retry_fires, is_stale, gc_loop, gc_queued, set_paused, set_draining, resume,
  on_load_sample,
}
use bazel_broker.Admission.Lifecycle.Invariant.{Event, polls, handle, run, run-new_engine-IsValid}
use bazel_broker.Admission.Lifecycle.Polling.{resume-set_draining_paused, gc_queued_spares}
use bazel_broker.Admission.Reaper.{held_slots, release_dead, reap_dead_pids}
use bazel_broker.Admission.Reaper.Laws.{reap_dead_pids-frees}
use bazel_broker.Admission.Concurrent.{
  unlocked, walking, open_gates, MicroReach, here, next, attaches, enters, finds_open, admits,
  frees_gates, locks_release, samples, Within, MicroReach-Within, frees_gates_late,
}
use bazel_broker.Admission.Concurrent.Delivery.{admit_buffered}

program : Unit {0}
unfolding str_eq lookup insert delete ◌-ℤ◌ default_policy poll_cap is_space fields_from fields
    trim_left trim_right trim_space has_prefix trim_prefix member normalize add_word add_words
    to_set_from to_set shares overlaps split_targets new_semaphore sem_try sem_acquire sem_release
    held_count holds new_token_bucket set_sample bucket_try new_stagger consider aged step_record
    step_build hold_recent hold_builds stagger_gc stagger_try stagger_acquire new_engine write
    deliver try_all_gates acquire_all_gates release_gates arm_retry_timer turn turns schedule
    queued_count status refresh attach_locked attach detach receive admit release_locked release
    disarm retry_fires is_stale gc_loop gc_queued set_paused set_draining resume on_load_sample
    handle run held_slots release_dead reap_dead_pids
program = tt

abbrev request : GoString → GoString → ℕ → Request
request id targets pid = record {
  invocation_id = id;
  worktree = lit "/w";
  pid = pos pid;
  targets = targets;
}

abbrev first : Request
first = request (lit "b1") (lit "//app:one") 11

abbrev second : Request
second = request (lit "b2") (lit "@//lib //lib:two") 12

abbrev third : Request
third = request (lit "b3") (lit "//x") 13

abbrev sec : ℕ → ℕ
sec n = n * 1000000000

-- Three polls, of which the third finds no slot.
abbrev history : List Event
history = polls first (sec 10) [] ∷ polls second (sec 11) [] ∷ polls third (sec 12) [] ∷ []

abbrev busy : Engine
busy = run (new_engine default_policy) history

busy-status : (status busy).held ≡ 2
unfolding program
busy-status = refl

busy-queued : (status busy).queued ≡ 1
unfolding program
busy-queued = refl

-- The third is admitted when the first is released.
released-admits : holds (release busy (lit "b1") (sec 13) []).sem (lit "b3") ≡ true
unfolding program
released-admits = refl

-- The same target within the window is held for what is left of it.
staggered :
    (stagger_try
      (stagger_acquire (new_stagger (seconds 8)) (sec 10) first)
      (sec 13)
      (request (lit "b9") (lit "//app:one") 9)
      []).0
    ≡ (false, seconds 5)
unfolding program
staggered = refl

busy-IsValid : IsValid busy
busy-IsValid = run-new_engine-IsValid default_policy history

run-new_engine-IsValid_example : IsValid (run (new_engine default_policy) history)
run-new_engine-IsValid_example = run-new_engine-IsValid default_policy history

abbrev start : Engine
start = new_engine default_policy

-- The first build has been admitted, and its release has done its part under the mutex.
abbrev admitted : Engine
admitted = schedule (attach_locked start first).0 (sec 5) []

abbrev forgotten : Engine
forgotten = release_locked admitted (lit "b1")

-- The same id polls again and its `schedule` finds the gates open.
abbrev queued_again : Engine
queued_again = (attach_locked forgotten first).0

abbrev walk : RegistrySnapshot
walk = start_snap queued_again []

abbrev tried_again : Engine
tried_again = after_try (sec 60) 1 walk queued_again

abbrev found_open : MicroReach (forgotten, unlocked) (tried_again, open_gates 1 [] walk)
unfolding program
found_open =
    next (next (next here (attaches forgotten first)) (enters queued_again [] refl))
      (finds_open queued_again (sec 60) 1 [] walk refl refl refl)

forgotten-Within : Within 2 forgotten.sem
unfolding program
forgotten-Within = (record { positive = omega arith; within = omega arith }, refl)

-- The release frees the gates between the trial and the acquisition.
abbrev raced : Engine
raced = admit_head (release_gates tried_again (lit "b1")) (sec 60) 1

MicroReach-Within_example : Within 2 raced.sem
unfolding program
MicroReach-Within_example =
    MicroReach-Within 2 forgotten raced (walking [] (admitted_snap walk tried_again (sec 60) first))
      (next (next found_open (frees_gates tried_again (lit "b1") (open_gates 1 [] walk)))
        (admits (release_gates tried_again (lit "b1")) (sec 60) 1 [] walk))
      forgotten-Within

schedule-Served_example :
    Served busy.line busy.heap (schedule busy (sec 13) []).line (schedule busy (sec 13) []).heap
schedule-Served_example = schedule-Served busy (sec 13) []

schedule-Woken_example : Woken (schedule busy (sec 13) []).line (schedule busy (sec 13) [])
unfolding program
schedule-Woken_example = schedule-Woken busy (sec 13) [] refl

abbrev draining : Engine
draining = record busy { draining = true }

-- While the client polls again, another build is released and the load sampled.
abbrev around : Others
around = record {
  enqueued = λ x. release_locked x (lit "b2");
  attached = λ x. record x { bucket = set_sample x.bucket 10 (pos 0) };
  waiting = λ x. x;
  leaving = λ x. x;
}

-- The verdict of the first poll still waits when the client polls again.
admit_buffered_example : (admit busy first (sec 13) (sec 14) [] around expired).1 ≡ allow
unfolding program
admit_buffered_example =
    admit_buffered busy first (sec 13) (sec 14) [] around expired 0 allow busy-IsValid refl refl
      (λ x. (next here (locks_release x (lit "b2")), (tt, λ h. cc)))
      (λ x. (next here (samples x 10 (pos 0) unlocked), (tt, λ h. cc)))

abbrev paused : Engine
paused = record busy { paused = true }

resume-set_draining_paused_example :
    resume (set_draining paused true (sec 13) []) (sec 14) [] ≡ resume paused (sec 14) []
unfolding program
resume-set_draining_paused_example =
    (resume-set_draining_paused paused true (sec 13) (sec 14) [] [] refl).2

gc_queued_spares_example :
    (gc_queued (detach busy 2 (sec 13)) (sec 60)).sem ≡ (detach busy 2 (sec 13)).sem
gc_queued_spares_example = (gc_queued_spares (detach busy 2 (sec 13)) (sec 60)).0

-- The process of the first build is dead.
abbrev alive : ℤ → Bool
alive (pos n) = ltb_ℤ (pos 11) (pos n)
alive _ = true

reap_dead_pids-frees_example :
    (lookup (lit "b1") (reap_dead_pids busy alive (sec 13) []).by_id ≡ none)
    × (holds (reap_dead_pids busy alive (sec 13) []).sem (lit "b1") ≡ false)
unfolding program
reap_dead_pids-frees_example =
    (reap_dead_pids-frees busy alive (sec 13) [] busy-IsValid).1 (lit "b1") 0 10 refl refl refl refl

-- The release frees the gates after the same id has been admitted again.
abbrev readmitted : Engine
readmitted = admit_head tried_again (sec 60) 1

frees_gates_late_example : holds (release_gates readmitted (lit "b1")).sem (lit "b1") ≡ false
unfolding program
frees_gates_late_example =
    (frees_gates_late admitted readmitted
      (walking [] (admitted_snap walk tried_again (sec 60) first)) (lit "b1") refl
      (next found_open (admits tried_again (sec 60) 1 [] walk)) refl).3

abbrev warm : Stagger
warm = stagger_acquire (new_stagger (seconds 8)) (sec 10) first

abbrev also_one : ActiveBuild
also_one = record {
  invocation_id = lit "d1";
  targets = lit "//app:one" ∷ [];
  pid = pos 40;
  started_at = sec 12;
}

abbrev again : Request
again = request (lit "b9") (lit "//app:one") 9

stagger_try-covers_example :
    ((stagger_try warm (sec 13) again (also_one ∷ [])).0.0 ≡ false)
    × (remaining (seconds 8) (sec 13) (sec 12)
        ≤ℤ (stagger_try warm (sec 13) again (also_one ∷ [])).0.1)
unfolding program
stagger_try-covers_example = (stagger_try-covers warm (sec 13) again (also_one ∷ [])).0.0 refl

overlaps-repo_prefix_example :
    overlaps (to_set ((lit "@//" ++ lit "app") ∷ [])) (to_set ((lit "//" ++ lit "app") ∷ []))
    ≡ false
unfolding program
overlaps-repo_prefix_example = overlaps-repo_prefix (lit "app") (refl, (refl, (refl, tt))) (λ e. cc)
