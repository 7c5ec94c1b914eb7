-- ===== src/Store/PowerLoss.antt =====
-- Confirmed receipts survive a power loss: what `durable_revision` of internal/adapters/
-- statestore/file.go stands for.
use harnessing.Prelude.{
  ℕ, ◌+◌, ◌≤◌, ◌<◌, String, Bool, true, false, Option, none, some, List, [], ◌≡◌, refl, ◌⊎◌, inl,
  inr, arith, str_eq, eq_iff, Bool-cases, leb, ◌||◌,
}
use harnessing.Domain.Errors.{Result, ok, err, fail, io_failure}
use harnessing.Domain.Records.{Receipt, Event, Snapshot}
use harnessing.Text.Decimal.{u64_mod}
use harnessing.Store.Ledger.{ReceiptRecord, Ledger, lookup, lookup-put}
use harnessing.Store.{
  PersistedState, Disk, absent, corrupt, file, Files, FileStore, Faults, CommitRequest, receipt_key,
  read_locked, write_locked, confirm_durable, with_workspace, advance, entry_of, written, persist,
  fresh, on_ledger, on_state, commit,
}

abbrev pub receipts_of : Disk → Ledger
receipts_of (file state) = state.receipts
receipts_of _ = []

abbrev pub revision_of : Disk → ℕ
revision_of (file state) = state.snapshot.revision
revision_of _ = 0

-- The disk keeps this receipt in its ledger.
abbrev pub Keeps : Disk → String → ReceiptRecord → Type 0
Keeps d key r = lookup key (receipts_of d) ≡ some r

pub record IsSound (s : FileStore) : Type 0 where
  pub reached : s.durable_revision ≤ revision_of s.files.state_file
  pub counted :
      (key : String) (r : ReceiptRecord)
      → Keeps s.files.state_file key r
      → r.receipt.committed_revision ≤ revision_of s.files.state_file
  pub confirmed :
      (key : String) (r : ReceiptRecord)
      → Keeps s.files.state_file key r
      → r.receipt.committed_revision ≤ s.durable_revision
      → Keeps s.files.synced key r

-- Mutate leaves the revision to the store, and the counter has room.
pub record IsPlain (req : CommitRequest) (s : FileStore) : Type 0 where
  pub revision_kept :
      (snap mutated : Snapshot) (evs : List Event)
      → req.mutate snap ≡ ok (mutated, evs)
      → mutated.revision ≡ snap.revision
  pub room : revision_of s.files.state_file + 1 < u64_mod

pub read_parts :
    (b : Bool) (d : Disk) (state : PersistedState)
    → read_locked b d ≡ ok state
    → (receipts_of d ≡ state.receipts) × (revision_of d ≡ state.snapshot.revision)
unfolding read_locked
read_parts b d state h = ground arith

pub revision-with_workspace :
    (ws : String) (snap : Snapshot) → (with_workspace ws snap).revision ≡ snap.revision
revision-with_workspace ws snap = ground arith

-- An answer that names a receipt, whose record the synced directory keeps.
abbrev pub Survives : String → Result (Receipt × List Event) × FileStore → Type 0
Survives key (err e, s) = Unit
Survives key (ok (receipt, evs), s) =
    (r : ReceiptRecord) × Keeps s.files.synced key r × (r.receipt ≡ receipt)

abbrev Good : String → Result (Receipt × List Event) × FileStore → Type 0
Good key a = IsSound a.1 × Survives key a

module _ (f : Faults) (workspace : String) (key : String) where
  confirm_durable-Good :
      (request : String) (r : ReceiptRecord) (s : FileStore)
      → IsSound s
      → Keeps s.files.state_file key r
      → Good key (confirm_durable f workspace request r s)
  unfolding confirm_durable
  confirm_durable-Good request r s h k =
      elim (Bool-cases (leb r.receipt.committed_revision s.durable_revision)) [
        | inl e ↦ rw e (h, (r, h.confirmed key r k (ground arith), refl))
        | inr e ↦ elim (Bool-cases f.sync_dir) [
          | inl d ↦ rw (e, d) (h, tt)
          | inr d ↦
              rw (e, d)
                (
                  record {
                    reached = h.counted key r k;
                    counted = h.counted;
                    confirmed = λ j q kept _. kept;
                  },
                  (r, k, refl),
                )
        ]
      ]

pub data WriteOutcome (state : PersistedState) (files : Files) : Result Bool × Files → Type 0 where
  not_written :
      {a : Result Bool × Files} (t : Disk)
      → a ≡ (fail io_failure, record files { tmp_file = t })
      → WriteOutcome state files a
  not_synced :
      {a : Result Bool × Files}
      → a ≡ (ok false, record files { state_file = file state; tmp_file = absent })
      → WriteOutcome state files a
  synced_dir :
      {a : Result Bool × Files}
      → a ≡ (ok true, record { state_file = file state; tmp_file = absent; synced = file state })
      → WriteOutcome state files a

pub write_locked-outcome :
    (f : Faults) (state : PersistedState) (files : Files)
    → WriteOutcome state files (write_locked f state files)
unfolding write_locked
write_locked-outcome f state files = elim (Bool-cases f.marshal) [
  | inl e ↦ not_written files.tmp_file (rw e)
  | inr m ↦ elim (Bool-cases f.open_tmp) [
    | inl e ↦ not_written files.tmp_file (rw (m, e))
    | inr o ↦ elim (Bool-cases f.write) [
      | inl e ↦ not_written corrupt (rw (m, o, e))
      | inr w ↦ elim (Bool-cases (f.sync || f.close || f.rename)) [
        | inl e ↦ not_written (file state) (rw (m, o, w, e))
        | inr n ↦ elim (Bool-cases f.sync_dir) [
          | inl e ↦ not_synced (rw (m, o, w, n, e))
          | inr e ↦ synced_dir (rw (m, o, w, n, e))
        ]
      ]
    ]
  ]
]

module _ (f : Faults) (workspace : String) (req : CommitRequest) (s : FileStore) (h : IsSound s)
    (plain : IsPlain req s) where
  abbrev key : String
  key = receipt_key req.caller_agent_id req.request_id

  module _ (state : PersistedState) (r : read_locked f.read s.files.state_file ≡ ok state)
      (free : lookup key state.receipts ≡ none) (mutated : Snapshot) (evs : List Event)
      (same : mutated.revision ≡ revision_of s.files.state_file) where
    advanced : (advance mutated).revision ≡ revision_of s.files.state_file + 1
    advanced = omega (arith, plain.room)

    -- An older record of the ledger is not the new one, whose revision is higher.
    older :
        (j : String) (q : ReceiptRecord)
        → lookup j (written req state mutated evs).receipts ≡ some q
        → (q ≡ entry_of req mutated evs) ⊎ Keeps s.files.state_file j q
    older j q k = elim (Bool-cases (str_eq key j)) [
      | inl e ↦ inl (ground (arith, lookup-put key j (entry_of req mutated evs) state.receipts))
      | inr e ↦ inr (
          ground (
            arith,
            lookup-put key j (entry_of req mutated evs) state.receipts,
            read_parts f.read s.files.state_file state r,
          ))
    ]

    counted_after :
        (j : String) (q : ReceiptRecord)
        → lookup j (written req state mutated evs).receipts ≡ some q
        → q.receipt.committed_revision ≤ (advance mutated).revision
    counted_after j q k = elim (older j q k) [
      | inl e ↦ rw e (omega arith)
      | inr old ↦ omega (arith, h.counted j q old, advanced)
    ]

    confirmed_after :
        (j : String) (q : ReceiptRecord)
        → lookup j (written req state mutated evs).receipts ≡ some q
        → q.receipt.committed_revision ≤ s.durable_revision
        → Keeps s.files.synced j q
    confirmed_after j q k le = elim (older j q k) [
      | inl e ↦
          let n : q.receipt.committed_revision ≡ (advance mutated).revision = rw e in
          absurd (omega (arith, h.reached, advanced, n, le))
      | inr old ↦ h.confirmed j q old le
    ]

    own : lookup key (written req state mutated evs).receipts ≡ some (entry_of req mutated evs)
    own =
        ground (arith, lookup-put key key (entry_of req mutated evs) state.receipts, eq_iff key key)

    persist-Good : Good key (persist f workspace req state mutated evs s)
    unfolding persist
    persist-Good = elim (write_locked-outcome f (written req state mutated evs) s.files) [
      | not_written t e ↦
          rw e (record { reached = h.reached; counted = h.counted; confirmed = h.confirmed }, tt)
      | not_synced e ↦ rw e (
        record {
          reached = omega (arith, h.reached, advanced);
          counted = counted_after;
          confirmed = confirmed_after;
        },
        tt,
      )
      | synced_dir e ↦ rw e (
        record { reached = omega arith; counted = counted_after; confirmed = λ j q k _. k },
        (entry_of req mutated evs, own, refl),
      )
    ]

  fresh-Good :
      (state : PersistedState) (a : Result (Snapshot × List Event))
      → read_locked f.read s.files.state_file ≡ ok state
      → lookup key state.receipts ≡ none
      → req.mutate (with_workspace workspace state.snapshot) ≡ a
      → Good key (fresh f workspace req state s a)
  fresh-Good state (err e) r l m = (h, tt)
  fresh-Good state (ok (mutated, evs)) r l m = persist-Good state r l mutated evs (
      omega (
        arith,
        plain.revision_kept (with_workspace workspace state.snapshot) mutated evs m,
        revision-with_workspace workspace state.snapshot,
        read_parts f.read s.files.state_file state r,
      ))

  on_ledger-Good :
      (state : PersistedState) (o : Option ReceiptRecord)
      → read_locked f.read s.files.state_file ≡ ok state
      → lookup key state.receipts ≡ o
      → Good key (on_ledger f workspace req state s o)
  on_ledger-Good state none r l =
      fresh-Good state (req.mutate (with_workspace workspace state.snapshot)) r l refl
  on_ledger-Good state (some existing) r l =
      elim (Bool-cases (str_eq existing.payload_fingerprint req.payload_fingerprint)) [
        | inl e ↦ rw e (
            confirm_durable-Good f workspace key req.request_id existing s h
              (cc (l, (read_parts f.read s.files.state_file state r).0)))
        | inr e ↦ rw e (h, tt)
      ]

  on_state-Good :
      (a : Result PersistedState)
      → read_locked f.read s.files.state_file ≡ a
      → Good key (on_state f workspace req s a)
  on_state-Good (err e) r = (h, tt)
  on_state-Good (ok state) r = on_ledger-Good state (lookup key state.receipts) r refl

-- From a sound store, and for a Mutate that leaves the revision alone while the counter has room,
-- Commit leaves a sound store whatever fails below it; and when it returns a receipt, fresh or
-- replayed, the directory as it was last synced keeps a ledger record with that receipt.
pub commit-Survives :
    (f : Faults) (workspace : String) (req : CommitRequest) (s : FileStore)
    → IsSound s
    → IsPlain req s
    → IsSound (commit f workspace req s).1
      × Survives (receipt_key req.caller_agent_id req.request_id) (commit f workspace req s)
unfolding commit
commit-Survives f workspace req s h plain =
    on_state-Good f workspace req s h plain (read_locked f.read s.files.state_file) refl
