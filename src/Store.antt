-- ===== src/Store.antt =====
-- internal/adapters/statestore/file.go: one state file with the snapshot and the ledger of
-- receipts. An object with its fields is passed along; what the operating system answers to one
-- call is a record of faults. encoding/json is taken to read back what it wrote.
pub mod Ledger
pub mod Effects
pub mod PowerLoss
pub mod Replay
pub mod Callers
pub mod Fresh
pub mod Revision
use Prim.Native.String.{◌++◌}
use harnessing.Prelude.{
  ℕ, ◌+◌, ◌%◌, String, Bool, true, false, Option, none, some, List, [], ◌∷◌, str_eq, leb, map, ◌||◌,
  if◌then◌else◌,
}
use harnessing.Domain.Errors.{
  GoError, domain_error, Result, ok, err, conflict, not_found, io_failure, outcome_uncertain,
  applied, durability, fail,
}
use harnessing.Domain.Records.{Receipt, Event, Snapshot}
use harnessing.Text.Decimal.{u64_mod, format_uint}
use Ledger.{ReceiptRecord, lookup, put}

pub record PersistedState : Type 0 where
  pub snapshot : Snapshot
  pub receipts : Ledger.Ledger

-- What a file holds: nothing readable, or a state.
pub data Disk : Type 0 where
  absent corrupt : Disk
  file : PersistedState → Disk

-- `synced` is what the directory holds after a power loss: the state file as the last fsync of
-- the directory found it.
pub record Files : Type 0 where
  pub state_file : Disk
  pub tmp_file : Disk
  pub synced : Disk

pub record FileStore : Type 0 where
  pub files : Files
  pub durable_revision : ℕ

-- Which calls of the operating system fail.
pub record Faults : Type 0 where
  pub read : Bool
  pub marshal : Bool
  pub open_tmp : Bool
  pub write : Bool
  pub sync : Bool
  pub close : Bool
  pub rename : Bool
  pub sync_dir : Bool

pub record CommitRequest : Type 0 where
  pub caller_agent_id : String
  pub request_id : String
  pub payload_fingerprint : String
  pub mutate : Snapshot → Result (Snapshot × List Event)

abbrev pub receipt_key : String → String → String
receipt_key caller request = caller ++ ("\0" ++ request)

abbrev pub empty_snapshot : Snapshot
empty_snapshot = record {
  workspace_id = "";
  revision = 0;
  cursor = "";
  agents = [];
  tasks = [];
  task_results = [];
  messages = [];
  profiles = [];
  runs = [];
  operations = [];
}

-- readLocked
unfoldable pub read_locked : Bool → Disk → Result PersistedState
read_locked true d = fail io_failure
read_locked false absent = ok (record { snapshot = empty_snapshot; receipts = [] })
read_locked false corrupt = fail io_failure
read_locked false (file state) = ok state

-- writeLocked: the Boolean says whether the directory was synced.
unfoldable pub write_locked : Faults → PersistedState → Files → Result Bool × Files
write_locked f state files =
    if f.marshal
    then (fail io_failure, files)
    else if f.open_tmp
    then (fail io_failure, files)
    else if f.write
    then (fail io_failure, record files { tmp_file = corrupt })
    else if f.sync || f.close || f.rename
    then (fail io_failure, record files { tmp_file = file state })
    else if f.sync_dir
    then (ok false, record files { state_file = file state; tmp_file = absent })
    else (ok true, record { state_file = file state; tmp_file = absent; synced = file state })

-- Applied, and not known to be durable.
abbrev pub uncertain : String → String → ℕ → GoError
uncertain workspace request rev = domain_error (record {
  code = outcome_uncertain;
  request_id = request;
  workspace_id = workspace;
  effect = applied;
  confirmation = durability;
  observed_revision = some rev;
})

-- confirmDurable
unfoldable pub confirm_durable :
    Faults → String → String → ReceiptRecord → FileStore → Result (Receipt × List Event) × FileStore
confirm_durable f workspace request existing s =
    if leb existing.receipt.committed_revision s.durable_revision
    then (ok (existing.receipt, existing.events), s)
    else if f.sync_dir
    then (err (uncertain workspace request existing.receipt.committed_revision), s)
    else (
      ok (existing.receipt, existing.events),
      record {
        files = record s.files { synced = s.files.state_file };
        durable_revision = existing.receipt.committed_revision;
      },
    )

abbrev pub with_workspace : String → Snapshot → Snapshot
with_workspace workspace snap =
    if str_eq snap.workspace_id "" then record snap { workspace_id = workspace } else snap

-- `Revision++` on a uint64, and the cursor that shows it.
abbrev pub advance : Snapshot → Snapshot
advance snap =
    let rev = (snap.revision + 1) % u64_mod in
    record snap { revision = rev; cursor = format_uint rev }

abbrev pub stamp : ℕ → Event → Event
stamp rev ev = record ev { workspace_revision = rev }

-- The record of the ledger that a successful Mutate leads to, and the whole state to write.
abbrev pub entry_of : CommitRequest → Snapshot → List Event → ReceiptRecord
entry_of req mutated evs =
    let rev = (advance mutated).revision in
    record {
      receipt = record {
        request_id = req.request_id;
        committed_revision = rev;
        operation_id = none;
      };
      events = map (stamp rev) evs;
      payload_fingerprint = req.payload_fingerprint;
    }

abbrev pub written : CommitRequest → PersistedState → Snapshot → List Event → PersistedState
written req state mutated evs = record {
  snapshot = advance mutated;
  receipts =
      put (receipt_key req.caller_agent_id req.request_id) (entry_of req mutated evs)
        state.receipts;
}

abbrev pub answer :
    String
    → ReceiptRecord
    → FileStore
    → Result Bool × Files
    → Result (Receipt × List Event) × FileStore
answer workspace entry s (err e, files) = (err e, record s { files = files })
answer workspace entry s (ok false, files) = (
  err (uncertain workspace entry.receipt.request_id entry.receipt.committed_revision),
  record s { files = files },
)
answer workspace entry s (ok true, files) = (
  ok (entry.receipt, entry.events),
  record { files = files; durable_revision = entry.receipt.committed_revision },
)

-- The part of Commit behind a successful Mutate.
unfoldable pub persist :
    Faults
    → String
    → CommitRequest
    → PersistedState
    → Snapshot
    → List Event
    → FileStore
    → Result (Receipt × List Event) × FileStore
persist f workspace req state mutated evs s =
    answer workspace (entry_of req mutated evs) s
      (write_locked f (written req state mutated evs) s.files)

abbrev pub fresh :
    Faults
    → String
    → CommitRequest
    → PersistedState
    → FileStore
    → Result (Snapshot × List Event)
    → Result (Receipt × List Event) × FileStore
fresh f workspace req state s (err e) = (err e, s)
fresh f workspace req state s (ok (snap, evs)) = persist f workspace req state snap evs s

abbrev pub on_ledger :
    Faults
    → String
    → CommitRequest
    → PersistedState
    → FileStore
    → Option ReceiptRecord
    → Result (Receipt × List Event) × FileStore
on_ledger f workspace req state s (some existing) =
    if str_eq existing.payload_fingerprint req.payload_fingerprint
    then confirm_durable f workspace req.request_id existing s
    else (fail conflict, s)
on_ledger f workspace req state s none =
    fresh f workspace req state s (req.mutate (with_workspace workspace state.snapshot))

abbrev pub on_state :
    Faults
    → String
    → CommitRequest
    → FileStore
    → Result PersistedState
    → Result (Receipt × List Event) × FileStore
on_state f workspace req s (err e) = (err e, s)
on_state f workspace req s (ok state) =
    on_ledger f workspace req state s
      (lookup (receipt_key req.caller_agent_id req.request_id) state.receipts)

-- Commit
unfoldable pub commit :
    Faults → String → CommitRequest → FileStore → Result (Receipt × List Event) × FileStore
commit f workspace req s = on_state f workspace req s (read_locked f.read s.files.state_file)

abbrev pub loaded : String → Result PersistedState → Result Snapshot
loaded workspace (err e) = err e
loaded workspace (ok state) = ok (
    if str_eq state.snapshot.workspace_id ""
    then record empty_snapshot { workspace_id = workspace }
    else state.snapshot)

-- Load
unfoldable pub load : Faults → String → FileStore → Result Snapshot
load f workspace s = loaded workspace (read_locked f.read s.files.state_file)

abbrev pub receipt_of : Result (Receipt × List Event) × FileStore → Result Receipt × FileStore
receipt_of (ok (receipt, evs), s) = (ok receipt, s)
receipt_of (err e, s) = (err e, s)

abbrev pub resolved :
    Faults → String → String → FileStore → Option ReceiptRecord → Result Receipt × FileStore
resolved f workspace request s none = (fail not_found, s)
resolved f workspace request s (some existing) =
    receipt_of (confirm_durable f workspace request existing s)

abbrev pub resolve_state :
    Faults
    → String
    → String
    → String
    → FileStore
    → Result PersistedState
    → Result Receipt × FileStore
resolve_state f workspace caller request s (err e) = (err e, s)
resolve_state f workspace caller request s (ok state) =
    resolved f workspace request s (lookup (receipt_key caller request) state.receipts)

-- ResolveRequest
unfoldable pub resolve_request :
    Faults → String → String → String → FileStore → Result Receipt × FileStore
resolve_request f workspace caller request s =
    resolve_state f workspace caller request s (read_locked f.read s.files.state_file)
