-- ===== src/Store/Laws.antt =====
-- What the database and the JSON texts are relied on for, and what a build is after a write and a read.
use bazel_broker.Common.{
  ◌+◌, ◌-◌, ◌%◌, ◌≤◌, ◌≡◌, refl, ap, subst, ◌⊎◌, inl, inr, Option, none, some, List, [], GoString,
  str_eq, str_eq_refl, ℤ, if◌then◌else◌, Bool-cases, arith,
}
use bazel_broker.Admission.Types.{Time}
use bazel_broker.Build.{State, Build, unix_epoch}
use bazel_broker.Store.Sql.{SqlResult, done, failed_with, ◌>>=◌}
use bazel_broker.Store.{
  BuildRow, Database, JsonCodec, to_millis, millis_of, from_millis, row_of, scan_build,
  upsert_build, mark_terminal, get_saved_build,
}

abbrev pub map_found :
    (BuildRow → BuildRow) → SqlResult (Option BuildRow) → SqlResult (Option BuildRow)
map_found f (failed_with e) = failed_with e
map_found f (done none) = done none
map_found f (done (some row)) = done (some (f row))

abbrev pub set_end : State → (exit end : ℤ) → BuildRow → BuildRow
set_end state exit end row = record row { state = state; exit_code = exit; end_time = end }

-- A row is found under its id once it is written, an update touches the row with its id, and the other rows
-- stay.
pub record IsLawful (D : Database) : Type 0 where
  pub find-upsert :
      (db db' : D.Db) (row : BuildRow) (id : GoString)
      → D.upsert_row db row ≡ done db'
      → D.find_row db' id
        ≡ (if str_eq row.invocation_id id then done (some row) else D.find_row db id)
  pub find-mark :
      (db db' : D.Db) (id j : GoString) (state : State) (exit end : ℤ)
      → D.mark_row db id state exit end ≡ done db'
      → D.find_row db' j ≡ (
          if str_eq id j
          then map_found (set_end state exit end) (D.find_row db j)
          else D.find_row db j)

-- A list is read back from its own text.
abbrev pub IsCodec : JsonCodec → Type 0
IsCodec json = (l : List GoString) → json.decode (json.encode l) ≡ some l

-- Unset, or at least a millisecond after the Unix epoch.
abbrev pub IsModern : Time → Type 0
IsModern t = (t ≡ 0) ⊎ (unix_epoch + 1000000 ≤ t)

abbrev pub whole_millis : Time → Time
whole_millis t = t - t % 1000000

-- A time is stored to the millisecond, and the unset time stays unset.
pub from_millis-to_millis : (t : Time) → IsModern t → from_millis (to_millis t) ≡ whole_millis t
unfolding from_millis to_millis millis_of
from_millis-to_millis t (inl e) = rw e refl
from_millis-to_millis t (inr h) = ground arith

-- A build as the table keeps it.
abbrev pub persisted : Build → Build
persisted b = record b {
  worktree_name = [];
  command = [];
  start_time = whole_millis b.start_time;
  end_time = whole_millis b.end_time;
  exe_path = [];
  cwd = [];
  git_dir = [];
  last_seen = 0;
  cache_hit_ratio = none;
  profile_url = [];
}

scan_build-row_of :
    (json : JsonCodec) (b : Build)
    → IsCodec json
    → IsModern b.start_time
    → IsModern b.end_time
    → scan_build json (row_of json b) ≡ done (persisted b)
unfolding scan_build row_of
scan_build-row_of json b codec start end =
    rw
      (
        scan_build,
        codec b.targets,
        from_millis-to_millis b.start_time start,
        from_millis-to_millis b.end_time end,
      )
      refl

row_of-id : (json : JsonCodec) (b : Build) → (row_of json b).invocation_id ≡ b.invocation_id
unfolding row_of
row_of-id json b = refl

found_row :
    (D : Database) (json : JsonCodec) (db db' : D.Db) (b : Build) (id : GoString)
    → IsLawful D
    → D.upsert_row db (row_of json b) ≡ done db'
    → D.find_row db' id
      ≡ (if str_eq b.invocation_id id then done (some (row_of json b)) else D.find_row db id)
found_row D json db db' b id lawful h =
    subst
      (λ x.
        D.find_row db' id ≡ (if str_eq x id then done (some (row_of json b)) else D.find_row db id))
      (row_of-id json b) (lawful.find-upsert db db' (row_of json b) id h)

-- A build that was written is read back under its id as it was, with its times to the millisecond, but for
-- the fields that the table has no column for, which come back unset; every other id reads as before.
-- (The database and the JSON texts are as documented; the build's times are unset or after the epoch.)
pub get-upsert_build :
    (D : Database) (json : JsonCodec) (db db' : D.Db) (b : Build) (id : GoString)
    → IsLawful D
    → IsCodec json
    → IsModern b.start_time
    → IsModern b.end_time
    → upsert_build D json db b ≡ done db'
    → get_saved_build D json db' id ≡ (
        if str_eq b.invocation_id id
        then done (some (persisted b))
        else get_saved_build D json db id)
unfolding get_saved_build upsert_build
get-upsert_build D json db db' b id lawful codec start end h =
    elim (Bool-cases (str_eq b.invocation_id id)) [
      | inl e ↦
          rw (found_row D json db db' b id lawful h, e, scan_build-row_of json b codec start end)
            refl
      | inr e ↦ rw (found_row D json db db' b id lawful h, e) refl
    ]

-- A build as `MarkTerminal` leaves it.
abbrev pub marked : State → (exit : ℤ) → (end : Time) → Build → Build
marked state exit end b = record b { state = state; exit_code = exit; end_time = whole_millis end }

-- A build that was written and then marked terminal is read back with the state, the exit code and the end
-- of the mark, and otherwise as it was written.
get-mark_terminal :
    (D : Database) (json : JsonCodec) (db db' db'' : D.Db) (b : Build) (state : State) (exit : ℤ)
    (end : Time)
    → IsLawful D
    → IsCodec json
    → IsModern b.start_time
    → IsModern end
    → upsert_build D json db b ≡ done db'
    → mark_terminal D json db' b.invocation_id state exit end ≡ done db''
    → get_saved_build D json db'' b.invocation_id
      ≡ done (some (marked state exit end (persisted b)))
unfolding get_saved_build upsert_build mark_terminal row_of
get-mark_terminal D json db db' db'' b state exit end lawful codec start late h k =
    rw
      (
        lawful.find-mark db' db'' b.invocation_id b.invocation_id state exit (to_millis end) k,
        found_row D json db db' b b.invocation_id lawful h,
        str_eq_refl b.invocation_id,
      )
      (ap (λ m. m >>= λ found. done (some found))
        (scan_build-row_of json (record b { state = state; exit_code = exit; end_time = end }) codec
          start late))
