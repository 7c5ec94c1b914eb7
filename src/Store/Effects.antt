-- ===== src/Store/Effects.antt =====
-- What one Commit can do to the state file, for any Mutate; the rule by which invariants of the
-- snapshot pass through it.
use harnessing.Prelude.{
  ℕ, String, Bool, true, false, Option, none, some, List, ◌≡◌, refl, ◌⊎◌, inl, inr, arith, str_eq,
  Bool-cases, subst,
}
use harnessing.Domain.Errors.{Result, ok, err}
use harnessing.Domain.Records.{Receipt, Event, Snapshot}
use harnessing.Store.Ledger.{ReceiptRecord, lookup}
use harnessing.Store.{
  PersistedState, Disk, file, empty_snapshot, Files, FileStore, Faults, CommitRequest, receipt_key,
  read_locked, write_locked, confirm_durable, with_workspace, advance, written, persist, fresh,
  on_ledger, on_state, commit, resolve_state, resolve_request,
}

state_file-write_locked :
    (f : Faults) (state : PersistedState) (files : Files)
    → ((write_locked f state files).1.state_file ≡ files.state_file)
      ⊎ ((write_locked f state files).1.state_file ≡ file state)
unfolding write_locked
state_file-write_locked f state files = ground arith

state_file-persist :
    (f : Faults) (workspace : String) (req : CommitRequest) (state : PersistedState)
    (mutated : Snapshot) (evs : List Event) (s : FileStore)
    → ((persist f workspace req state mutated evs s).1.files.state_file ≡ s.files.state_file)
      ⊎ ((persist f workspace req state mutated evs s).1.files.state_file
          ≡ file (written req state mutated evs))
unfolding persist write_locked
state_file-persist f workspace req state mutated evs s = ground arith

state_file-confirm_durable :
    (f : Faults) (workspace request : String) (existing : ReceiptRecord) (s : FileStore)
    → (confirm_durable f workspace request existing s).1.files.state_file ≡ s.files.state_file
unfolding confirm_durable
state_file-confirm_durable f workspace request existing s = ground arith

-- A commit writes nothing, or the result of a Mutate that ran on the state that was read.
pub data Wrote (workspace : String) (req : CommitRequest) (before : Disk) : Disk → Type 0 where
  nothing : {after : Disk} → after ≡ before → Wrote workspace req before after
  mutation :
      {after : Disk} (f : Bool) (state : PersistedState) (mutated : Snapshot) (evs : List Event)
      → read_locked f before ≡ ok state
      → lookup (receipt_key req.caller_agent_id req.request_id) state.receipts ≡ none
      → req.mutate (with_workspace workspace state.snapshot) ≡ ok (mutated, evs)
      → after ≡ file (written req state mutated evs)
      → Wrote workspace req before after

module _ (f : Faults) (workspace : String) (req : CommitRequest) (s : FileStore) where
  fresh-Wrote :
      (state : PersistedState) (r : Result (Snapshot × List Event))
      → read_locked f.read s.files.state_file ≡ ok state
      → lookup (receipt_key req.caller_agent_id req.request_id) state.receipts ≡ none
      → req.mutate (with_workspace workspace state.snapshot) ≡ r
      → Wrote workspace req s.files.state_file (fresh f workspace req state s r).1.files.state_file
  fresh-Wrote state (err e) p l m = nothing refl
  fresh-Wrote state (ok (mutated, evs)) p l m =
      elim (state_file-persist f workspace req state mutated evs s) [
        | inl same ↦ nothing same
        | inr new ↦ mutation f.read state mutated evs p l m new
      ]

  on_ledger-Wrote :
      (state : PersistedState) (o : Option ReceiptRecord)
      → read_locked f.read s.files.state_file ≡ ok state
      → lookup (receipt_key req.caller_agent_id req.request_id) state.receipts ≡ o
      → Wrote workspace req s.files.state_file
          (on_ledger f workspace req state s o).1.files.state_file
  on_ledger-Wrote state none p l =
      fresh-Wrote state (req.mutate (with_workspace workspace state.snapshot)) p l refl
  on_ledger-Wrote state (some existing) p l =
      elim (Bool-cases (str_eq existing.payload_fingerprint req.payload_fingerprint)) [
        | inl e ↦ rw e (nothing (state_file-confirm_durable f workspace req.request_id existing s))
        | inr e ↦ rw e (nothing refl)
      ]

  on_state-Wrote :
      (r : Result PersistedState)
      → read_locked f.read s.files.state_file ≡ r
      → Wrote workspace req s.files.state_file (on_state f workspace req s r).1.files.state_file
  on_state-Wrote (err e) p = nothing refl
  on_state-Wrote (ok state) p =
      on_ledger-Wrote state (lookup (receipt_key req.caller_agent_id req.request_id) state.receipts)
        p refl

  pub commit-Wrote :
      Wrote workspace req s.files.state_file (commit f workspace req s).1.files.state_file
  unfolding commit
  commit-Wrote = on_state-Wrote (read_locked f.read s.files.state_file) refl

-- A predicate of the snapshot, read off the state file.
abbrev pub Holds : (Snapshot → Type 0) → Disk → Type 0
Holds P (file state) = P state.snapshot
Holds P _ = Unit

Holds_read :
    (P : Snapshot → Type 0) (b : Bool) (d : Disk) {state : PersistedState}
    → P empty_snapshot
    → Holds P d
    → read_locked b d ≡ ok state
    → P state.snapshot
unfolding read_locked
Holds_read P true d e h r = absurd (cc)
Holds_read P false (file st) {state} e h r =
    let q : st.snapshot ≡ state.snapshot = ground arith in subst P q h
Holds_read P false Disk.corrupt e h r = absurd (cc)
Holds_read P false Disk.absent {state} e h r =
    let q : empty_snapshot ≡ state.snapshot = ground arith in subst P q e

module _ (P : Snapshot → Type 0) (empty : P empty_snapshot)
    (header : (snap : Snapshot) (ws cursor : String) (rev : ℕ)
      → P snap
      → P (record snap { workspace_id = ws; revision = rev; cursor = cursor })) where
  with_workspace-P : (ws : String) (snap : Snapshot) → P snap → P (with_workspace ws snap)
  with_workspace-P ws snap h = elim (Bool-cases (str_eq snap.workspace_id "")) [
    | inl e ↦ rw e (header snap ws snap.cursor snap.revision h)
    | inr e ↦ rw e h
  ]

  Wrote-Holds :
      (workspace : String) (req : CommitRequest) (before after : Disk)
      → ((snap mutated : Snapshot) (evs : List Event)
          → P snap
          → req.mutate snap ≡ ok (mutated, evs)
          → P mutated)
      → Wrote workspace req before after
      → Holds P before
      → Holds P after
  Wrote-Holds workspace req before after keeps (nothing e) h = rw e h
  Wrote-Holds workspace req before after keeps (mutation f state mutated evs r l m e) h = rw e (
      header mutated mutated.workspace_id (advance mutated).cursor (advance mutated).revision (
        keeps (with_workspace workspace state.snapshot) mutated evs
          (with_workspace-P workspace state.snapshot (Holds_read P f before empty h r)) m))

  -- What every Mutate keeps, and what does not read the header, holds of the state file for good.
  pub commit-Holds :
      (f : Faults) (workspace : String) (req : CommitRequest) (s : FileStore)
      → ((snap mutated : Snapshot) (evs : List Event)
          → P snap
          → req.mutate snap ≡ ok (mutated, evs)
          → P mutated)
      → Holds P s.files.state_file
      → Holds P (commit f workspace req s).1.files.state_file
  commit-Holds f workspace req s keeps =
      Wrote-Holds workspace req s.files.state_file (commit f workspace req s).1.files.state_file
        keeps (commit-Wrote f workspace req s)

-- What survives a power loss is what survived before, or what a reader finds now.
abbrev pub Syncs : FileStore → Result (Receipt × List Event) × FileStore → Type 0
Syncs s a = (a.1.files.synced ≡ s.files.synced) ⊎ (a.1.files.synced ≡ a.1.files.state_file)

module _ (f : Faults) (workspace : String) (req : CommitRequest) (s : FileStore) where
  confirm_durable-Syncs :
      (existing : ReceiptRecord) → Syncs s (confirm_durable f workspace req.request_id existing s)
  unfolding confirm_durable
  confirm_durable-Syncs existing = ground arith

  persist-Syncs :
      (state : PersistedState) (mutated : Snapshot) (evs : List Event)
      → Syncs s (persist f workspace req state mutated evs s)
  unfolding persist write_locked
  persist-Syncs state mutated evs = ground arith

  fresh-Syncs :
      (state : PersistedState) (r : Result (Snapshot × List Event))
      → Syncs s (fresh f workspace req state s r)
  fresh-Syncs state (err e) = inl refl
  fresh-Syncs state (ok (mutated, evs)) = persist-Syncs state mutated evs

  on_ledger-Syncs :
      (state : PersistedState) (o : Option ReceiptRecord)
      → Syncs s (on_ledger f workspace req state s o)
  on_ledger-Syncs state none =
      fresh-Syncs state (req.mutate (with_workspace workspace state.snapshot))
  on_ledger-Syncs state (some existing) =
      elim (Bool-cases (str_eq existing.payload_fingerprint req.payload_fingerprint)) [
        | inl e ↦ rw e (confirm_durable-Syncs existing)
        | inr e ↦ rw e (inl refl)
      ]

  on_state-Syncs : (r : Result PersistedState) → Syncs s (on_state f workspace req s r)
  on_state-Syncs (err e) = inl refl
  on_state-Syncs (ok state) =
      on_ledger-Syncs state (lookup (receipt_key req.caller_agent_id req.request_id) state.receipts)

  pub commit-Syncs : Syncs s (commit f workspace req s)
  unfolding commit
  commit-Syncs = on_state-Syncs (read_locked f.read s.files.state_file)

module _ (f : Faults) (workspace : String) (s : FileStore) where
  resolve_state-Syncs :
      (caller request : String) (r : Result PersistedState)
      → ((resolve_state f workspace caller request s r).1.files.state_file ≡ s.files.state_file)
        × (((resolve_state f workspace caller request s r).1.files.synced ≡ s.files.synced)
            ⊎ ((resolve_state f workspace caller request s r).1.files.synced ≡ s.files.state_file))
  unfolding confirm_durable
  resolve_state-Syncs caller request (err e) = (refl, inl refl)
  resolve_state-Syncs caller request (ok state) = (ground arith, ground arith)

  -- ResolveRequest leaves the state file as it is.
  pub resolve_request-Syncs :
      (caller request : String)
      → ((resolve_request f workspace caller request s).1.files.state_file ≡ s.files.state_file)
        × (((resolve_request f workspace caller request s).1.files.synced ≡ s.files.synced)
            ⊎ ((resolve_request f workspace caller request s).1.files.synced ≡ s.files.state_file))
  unfolding resolve_request
  resolve_request-Syncs caller request =
      resolve_state-Syncs caller request (read_locked f.read s.files.state_file)
