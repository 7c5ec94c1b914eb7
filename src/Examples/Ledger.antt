-- ===== src/Examples/Ledger.antt =====
-- One request is committed to an empty store, sent again, and asked for by another caller.
use harnessing.Prelude.{String, true, List, [], ◌∷◌, ◌≡◌, refl, ◌≢◌, arith}
use harnessing.Domain.Errors.{Result, ok}
use harnessing.Domain.Records.{Snapshot, Event}
use harnessing.Store.{
  absent, Faults, FileStore, CommitRequest, receipt_key, entry_of, commit, resolve_request,
  read_locked, write_locked, persist, with_workspace, empty_snapshot, receipt_of,
}
use harnessing.Store.Ledger.{ReceiptRecord, lookup, put}
use harnessing.Store.PowerLoss.{receipts_of, Keeps, IsSound, Survives, commit-Survives}
use harnessing.Store.Revision.{Advances, commit-Advances}
use harnessing.Store.Replay.{run, Failure, replay_after, commit-Failure, resolve_request-eq-commit}
use harnessing.Store.Callers.{other_caller}
use harnessing.Examples.Data.{no_faults}

abbrev no_sync : Faults
no_sync = record no_faults { sync_dir = true }

abbrev empty_store : FileStore
empty_store = record {
  files = record { state_file = absent; tmp_file = absent; synced = absent };
  durable_revision = 0;
}

abbrev touch : Snapshot → Result (Snapshot × List Event)
touch snap = ok (snap, [])

abbrev first : CommitRequest
first = record {
  caller_agent_id = "alice";
  request_id = "q1";
  payload_fingerprint = "f";
  mutate = touch;
}

abbrev second : CommitRequest
second = record {
  caller_agent_id = "bob";
  request_id = "q1";
  payload_fingerprint = "g";
  mutate = touch;
}

abbrev first_record : ReceiptRecord
first_record = entry_of first (with_workspace "w" empty_snapshot) []

-- The first commit reaches the disk, and the directory is not synced.
abbrev written_once : FileStore
written_once = (commit no_sync "w" first empty_store).1

recorded : Keeps written_once.files.state_file (receipt_key "alice" "q1") first_record
unfolding commit read_locked write_locked persist lookup put
recorded = refl

empty_store-IsSound : IsSound empty_store
unfolding lookup
empty_store-IsSound = record {
  reached = omega arith;
  counted = λ key r k. absurd (cc);
  confirmed = λ key r k le. absurd (cc);
}

commit-Survives_example :
    IsSound (commit no_faults "w" first empty_store).1
    × Survives (receipt_key "alice" "q1") (commit no_faults "w" first empty_store)
commit-Survives_example =
    commit-Survives no_faults "w" first empty_store empty_store-IsSound
      (record { revision_kept = λ snap mutated evs h. ground arith; room = omega arith })

replay_after_example :
    ((commit no_faults "w" first (run "w" ((no_sync, second) ∷ []) written_once)).0
      ≡ ok (first_record.receipt, first_record.events))
    × ((commit no_faults "w" first
          (run "w" ((no_sync, second) ∷ []) written_once)).1.files.state_file
        ≡ (run "w" ((no_sync, second) ∷ []) written_once).files.state_file)
replay_after_example =
    replay_after "w" ((no_sync, second) ∷ []) written_once no_faults first first_record recorded
      refl refl refl

commit-Failure_example : Failure "w" first empty_store (commit no_sync "w" first empty_store)
commit-Failure_example = commit-Failure no_sync "w" first empty_store

resolve_request-eq-commit_example :
    resolve_request no_faults "w" "alice" "q1" written_once
    ≡ receipt_of (commit no_faults "w" first written_once)
resolve_request-eq-commit_example =
    resolve_request-eq-commit no_faults "w" first written_once first_record refl recorded refl

abbrev alice : String
alice = "alice"

abbrev bob : String
bob = "bob"

abbrev request : String
request = "q1"

alice≢bob : alice ≢ bob
alice≢bob e = absurd (cc)

other_caller_example :
    lookup
      (receipt_key "alice" "q1")
      (receipts_of (commit no_faults "w" second written_once).1.files.state_file)
    ≡ lookup (receipt_key "alice" "q1") (receipts_of written_once.files.state_file)
other_caller_example =
    other_caller no_faults "w" second written_once "alice" "q1" refl refl alice≢bob

commit-Advances_example :
    Advances empty_store.files.state_file (commit no_sync "w" first empty_store).1.files.state_file
commit-Advances_example =
    commit-Advances no_sync "w" first empty_store
      (record { revision_kept = λ snap mutated evs h. ground arith; room = omega arith })
