-- ===== src/Store/Fresh.antt =====
-- What a Commit has done that returns a receipt for a request which the ledger did not have.
use harnessing.Prelude.{String, Bool, none, List, ◌≡◌, refl}
use harnessing.Domain.Errors.{Result, ok, err}
use harnessing.Domain.Records.{Receipt, Event, Snapshot}
use harnessing.Store.Ledger.{lookup}
use harnessing.Store.{
  PersistedState, Disk, file, Files, FileStore, Faults, CommitRequest, receipt_key, read_locked,
  with_workspace, written, persist, fresh, on_state, commit,
}
use harnessing.Store.PowerLoss.{
  receipts_of, read_parts, not_written, not_synced, synced_dir, write_locked-outcome,
}

pub data Persisted (workspace : String) (req : CommitRequest) (before : Disk) (after : Files)
    : Type 0 where
  persisted :
      (b : Bool) (state : PersistedState) (mutated : Snapshot) (evs : List Event)
      → read_locked b before ≡ ok state
      → req.mutate (with_workspace workspace state.snapshot) ≡ ok (mutated, evs)
      → after.state_file ≡ file (written req state mutated evs)
      → after.synced ≡ file (written req state mutated evs)
      → Persisted workspace req before after

module _ (f : Faults) (workspace : String) (req : CommitRequest) (s : FileStore) where
  abbrev Whole : Result (Receipt × List Event) × FileStore → Type 0
  Whole a =
      (x : Receipt × List Event) → a.0 ≡ ok x → Persisted workspace req s.files.state_file a.1.files

  fresh-Whole :
      (state : PersistedState) (r : Result (Snapshot × List Event))
      → read_locked f.read s.files.state_file ≡ ok state
      → req.mutate (with_workspace workspace state.snapshot) ≡ r
      → Whole (fresh f workspace req state s r)
  unfolding persist
  fresh-Whole state (err e) p m = λ x h. absurd (cc)
  fresh-Whole state (ok (mutated, evs)) p m =
      elim (write_locked-outcome f (written req state mutated evs) s.files) [
        | not_written t e ↦ rw e (λ x h. absurd (cc))
        | not_synced e ↦ rw e (λ x h. absurd (cc))
        | synced_dir e ↦ rw e (λ x h. persisted f.read state mutated evs p m refl refl)
      ]

  on_state-Whole :
      (r : Result PersistedState)
      → read_locked f.read s.files.state_file ≡ r
      → lookup (receipt_key req.caller_agent_id req.request_id) (receipts_of s.files.state_file)
        ≡ none
      → Whole (on_state f workspace req s r)
  on_state-Whole (err e) p n = λ x h. absurd (cc)
  on_state-Whole (ok state) p n =
      let free : lookup (receipt_key req.caller_agent_id req.request_id) state.receipts ≡ none =
        cc (n, (read_parts f.read s.files.state_file state p).0) in
      rw free (fresh-Whole state (req.mutate (with_workspace workspace state.snapshot)) p refl)

  -- Mutate ran on the state that was read, and what it made is the state file and is synced.
  pub commit-Persisted :
      lookup (receipt_key req.caller_agent_id req.request_id) (receipts_of s.files.state_file)
        ≡ none
      → (x : Receipt × List Event) → (commit f workspace req s).0 ≡ ok x
      → Persisted workspace req s.files.state_file (commit f workspace req s).1.files
  unfolding commit
  commit-Persisted = on_state-Whole (read_locked f.read s.files.state_file) refl
