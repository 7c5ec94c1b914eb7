-- ===== src/Store/Revision.antt =====
-- The revision and the cursor that Commit of internal/adapters/statestore/file.go writes, read by
-- the subscription of internal/core/task/events.go.
use harnessing.Prelude.{ℕ, ◌+◌, ◌<◌, String, none, ◌≡◌, refl, ◌⊎◌, inl, inr, arith, eq_iff}
use harnessing.Domain.Errors.{ok}
use harnessing.Text.Decimal.{u64_mod, format_uint, parse_uint, parse_uint-format_uint}
use harnessing.Events.{resume_point}
use harnessing.Store.{Disk, file, FileStore, Faults, CommitRequest, with_workspace, written, commit}
use harnessing.Store.Effects.{Wrote, nothing, mutation, commit-Wrote}
use harnessing.Store.PowerLoss.{IsPlain, revision_of, read_parts, revision-with_workspace}

abbrev pub cursor_of : Disk → String
cursor_of (file state) = state.snapshot.cursor
cursor_of _ = ""

parse_uint-empty : parse_uint "" ≡ none
unfolding parse_uint
parse_uint-empty = refl

-- The printed revision is a cursor that resumes at it.
resume_point-format_uint : (n : ℕ) → n < u64_mod → resume_point (format_uint n) ≡ ok n
unfolding resume_point
resume_point-format_uint n h =
    ground (arith, parse_uint-format_uint n h, eq_iff (format_uint n) "", parse_uint-empty)

-- Nothing is written, or the next revision under a cursor that resumes there.
abbrev pub Advances : Disk → Disk → Type 0
Advances before after =
    (after ≡ before)
    ⊎ ((revision_of after ≡ revision_of before + 1)
        × (resume_point (cursor_of after) ≡ ok (revision_of after)))

Wrote-Advances :
    (workspace : String) (req : CommitRequest) (s : FileStore) (after : Disk)
    → IsPlain req s
    → Wrote workspace req s.files.state_file after
    → Advances s.files.state_file after
Wrote-Advances workspace req s after plain (nothing e) = inl e
Wrote-Advances workspace req s after plain (mutation b state mutated evs read free m e) =
    let kept : mutated.revision ≡ revision_of s.files.state_file = cc (
      plain.revision_kept (with_workspace workspace state.snapshot) mutated evs m,
      revision-with_workspace workspace state.snapshot,
      (read_parts b s.files.state_file state read).1,
    ) in
    let next : (written req state mutated evs).snapshot.revision
        ≡ revision_of s.files.state_file + 1 =
      omega (arith, kept, plain.room) in
    rw e (
      inr (
        next,
        resume_point-format_uint (written req state mutated evs).snapshot.revision
            (ground (arith, next, plain.room)),
      ))

-- For a Mutate that leaves the revision alone while the counter has room, Commit writes nothing, or
-- it writes the next revision, under a cursor at which a subscription resumes there.
pub commit-Advances :
    (f : Faults) (workspace : String) (req : CommitRequest) (s : FileStore)
    → IsPlain req s
    → Advances s.files.state_file (commit f workspace req s).1.files.state_file
commit-Advances f workspace req s plain =
    Wrote-Advances workspace req s (commit f workspace req s).1.files.state_file plain
      (commit-Wrote f workspace req s)
