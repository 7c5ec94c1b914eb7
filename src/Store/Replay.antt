-- ===== src/Store/Replay.antt =====
-- A request that is sent again: what Commit and ResolveRequest of the file store answer then.
use harnessing.Prelude.{
  String, false, Option, none, some, List, [], ◌∷◌, ◌≡◌, refl, ◌⊎◌, inl, inr, arith, str_eq, eq_iff,
  Bool-cases, leb,
}
use harnessing.Domain.Errors.{Result, ok, err}
use harnessing.Domain.Records.{Receipt, Event, Snapshot}
use harnessing.Store.Ledger.{ReceiptRecord, lookup, lookup-put}
use harnessing.Store.{
  PersistedState, Disk, file, FileStore, Faults, CommitRequest, receipt_key, read_locked,
  write_locked, confirm_durable, with_workspace, entry_of, written, uncertain, answer, persist,
  fresh, on_ledger, on_state, commit, receipt_of, resolve_request,
}
use harnessing.Store.Effects.{Wrote, nothing, mutation, commit-Wrote}
use harnessing.Store.PowerLoss.{
  Keeps, not_written, not_synced, synced_dir, write_locked-outcome, read_parts,
}

abbrev key_of : CommitRequest → String
key_of req = receipt_key req.caller_agent_id req.request_id

-- Every record of the ledger stays as it is.
Wrote-Keeps :
    (workspace : String) (req : CommitRequest) (before after : Disk) (key : String)
    (r : ReceiptRecord)
    → Wrote workspace req before after
    → Keeps before key r
    → Keeps after key r
unfolding read_locked
Wrote-Keeps workspace req before after key r (nothing e) k = rw e k
Wrote-Keeps workspace req before after key r (mutation f state mutated evs read free m e) k = rw e (
    ground (
      arith,
      lookup-put (key_of req) key (entry_of req mutated evs) state.receipts,
      eq_iff (key_of req) key,
    ))

unfoldable pub run : String → List (Faults × CommitRequest) → FileStore → FileStore
run workspace [] s = s
run workspace ((f, req) ∷ rest) s = run workspace rest (commit f workspace req s).1

run-Keeps :
    (workspace : String) (history : List (Faults × CommitRequest)) (s : FileStore) (key : String)
    (r : ReceiptRecord)
    → Keeps s.files.state_file key r
    → Keeps (run workspace history s).files.state_file key r
unfolding run
run-Keeps workspace [] s key r k = k
run-Keeps workspace ((f, req) ∷ rest) s key r k =
    run-Keeps workspace rest (commit f workspace req s).1 key r (
      Wrote-Keeps workspace req s.files.state_file (commit f workspace req s).1.files.state_file key
        r (commit-Wrote f workspace req s) k)

confirm_durable_ok :
    (f : Faults) (workspace request : String) (r : ReceiptRecord) (s : FileStore)
    → f.sync_dir ≡ false
    → ((confirm_durable f workspace request r s).0 ≡ ok (r.receipt, r.events))
      × ((confirm_durable f workspace request r s).1.files.state_file ≡ s.files.state_file)
unfolding confirm_durable
confirm_durable_ok f workspace request r s h = ground arith

-- On a recorded request Commit does not run Mutate.
commit_recorded :
    (f : Faults) (workspace : String) (req : CommitRequest) (s : FileStore) (r : ReceiptRecord)
    → f.read ≡ false
    → Keeps s.files.state_file (key_of req) r
    → r.payload_fingerprint ≡ req.payload_fingerprint
    → commit f workspace req s ≡ confirm_durable f workspace req.request_id r s
unfolding commit read_locked lookup
commit_recorded f workspace req s r read k e =
    ground (arith, eq_iff r.payload_fingerprint req.payload_fingerprint)

-- Once the ledger on disk records a request, then after any further commits, with any faults, the
-- same request with the same fingerprint is answered with the recorded receipt and events, and the
-- state file is left as it was, provided that it can be read and the directory synced.
pub replay_after :
    (workspace : String) (history : List (Faults × CommitRequest)) (s : FileStore) (f : Faults)
    (req : CommitRequest) (r : ReceiptRecord)
    → Keeps s.files.state_file (receipt_key req.caller_agent_id req.request_id) r
    → r.payload_fingerprint ≡ req.payload_fingerprint
    → f.read ≡ false
    → f.sync_dir ≡ false
    → ((commit f workspace req (run workspace history s)).0 ≡ ok (r.receipt, r.events))
      × ((commit f workspace req (run workspace history s)).1.files.state_file
          ≡ (run workspace history s).files.state_file)
replay_after workspace history s f req r k e read sync =
    let s' = run workspace history s in
    rw
      (commit_recorded f workspace req s' r read (run-Keeps workspace history s (key_of req) r k) e)
      (confirm_durable_ok f workspace req.request_id r s' sync)

-- How Commit fails.
abbrev pub Failure :
    String → CommitRequest → FileStore → Result (Receipt × List Event) × FileStore → Type 0
Failure workspace req s (ok a, s') = Unit
Failure workspace req s (err e, s') =
    (s'.files.state_file ≡ s.files.state_file)
    ⊎ ((state : PersistedState) × (s'.files.state_file ≡ file state)
        × (e ≡ uncertain workspace req.request_id state.snapshot.revision))

module _ (f : Faults) (workspace : String) (req : CommitRequest) (s : FileStore) where
  answer-Failure :
      (state : PersistedState) (entry : ReceiptRecord)
      → entry.receipt.request_id ≡ req.request_id
      → entry.receipt.committed_revision ≡ state.snapshot.revision
      → Failure workspace req s (answer workspace entry s (write_locked f state s.files))
  answer-Failure state entry p q = elim (write_locked-outcome f state s.files) [
    | not_written t e ↦ rw e (inl refl)
    | not_synced e ↦ rw e (inr (state, refl, cc))
    | synced_dir e ↦ rw e tt
  ]

  confirm_durable-Failure :
      (r : ReceiptRecord)
      → Keeps s.files.state_file (key_of req) r
      → Failure workspace req s (confirm_durable f workspace req.request_id r s)
  unfolding confirm_durable
  confirm_durable-Failure r k =
      elim (Bool-cases (leb r.receipt.committed_revision s.durable_revision)) [
        | inl e ↦ rw e tt
        | inr e ↦ elim (Bool-cases f.sync_dir) [
          | inl d ↦ rw (e, d) (inl refl)
          | inr d ↦ rw (e, d) tt
        ]
      ]

  fresh-Failure :
      (state : PersistedState) (a : Result (Snapshot × List Event))
      → Failure workspace req s (fresh f workspace req state s a)
  unfolding persist
  fresh-Failure state (err e) = inl refl
  fresh-Failure state (ok (mutated, evs)) =
      answer-Failure (written req state mutated evs) (entry_of req mutated evs) refl refl

  on_ledger-Failure :
      (state : PersistedState) (o : Option ReceiptRecord)
      → read_locked f.read s.files.state_file ≡ ok state
      → lookup (key_of req) state.receipts ≡ o
      → Failure workspace req s (on_ledger f workspace req state s o)
  on_ledger-Failure state none r l =
      fresh-Failure state (req.mutate (with_workspace workspace state.snapshot))
  on_ledger-Failure state (some existing) r l =
      elim (Bool-cases (str_eq existing.payload_fingerprint req.payload_fingerprint)) [
        | inl e ↦ rw e (
            confirm_durable-Failure existing
              (cc (l, (read_parts f.read s.files.state_file state r).0)))
        | inr e ↦ rw e (inl refl)
      ]

  on_state-Failure :
      (a : Result PersistedState)
      → read_locked f.read s.files.state_file ≡ a
      → Failure workspace req s (on_state f workspace req s a)
  on_state-Failure (err e) r = inl refl
  on_state-Failure (ok state) r =
      on_ledger-Failure state (lookup (key_of req) state.receipts) r refl

-- A Commit that fails has left the state file as it was, or it fails with the code
-- outcome_uncertain, the effect applied, its own request and workspace, and the revision that the
-- state file now has.
pub commit-Failure :
    (f : Faults) (workspace : String) (req : CommitRequest) (s : FileStore)
    → Failure workspace req s (commit f workspace req s)
unfolding commit
commit-Failure f workspace req s =
    on_state-Failure f workspace req s (read_locked f.read s.files.state_file) refl

-- Where the state file can be read and the ledger on disk records the request, ResolveRequest
-- answers like a Commit of the same request under the recorded fingerprint, its receipt without the
-- events, and has the same effect on the store.
pub resolve_request-eq-commit :
    (f : Faults) (workspace : String) (req : CommitRequest) (s : FileStore) (r : ReceiptRecord)
    → f.read ≡ false
    → Keeps s.files.state_file (receipt_key req.caller_agent_id req.request_id) r
    → r.payload_fingerprint ≡ req.payload_fingerprint
    → resolve_request f workspace req.caller_agent_id req.request_id s
      ≡ receipt_of (commit f workspace req s)
unfolding resolve_request read_locked lookup
resolve_request-eq-commit f workspace req s r read k e =
    rw (commit_recorded f workspace req s r read k e) (ground arith)
