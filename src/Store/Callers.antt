-- ===== src/Store/Callers.antt =====
-- Receipts are kept apart by caller: the key of internal/adapters/statestore/file.go joins the
-- caller and the request by a NUL.
use Prim.Native.Char.{Char, nul}
use Prim.Native.String.{String, [], ◌++◌}
use text.Mathlib.TextLemmas.{nil-append, cons-append}
use harnessing.Prelude.{Bool, false, ◌||◌, ◌≡◌, refl, ◌≢◌, sym, ap, ◌∙◌, arith, str_eq, eq_iff}
use harnessing.Store.{Disk, FileStore, Faults, CommitRequest, receipt_key, entry_of, commit}
use harnessing.Store.Ledger.{lookup, lookup-put}
use harnessing.Store.Effects.{Wrote, nothing, mutation, commit-Wrote}
use harnessing.Store.PowerLoss.{receipts_of, read_parts}

-- The text holds the character NUL.
abbrev pub has_nul : String → Bool
has_nul [] = false
has_nul (String.◌∷◌ c s) = str_eq (String.◌∷◌ c []) "\0" || has_nul s

receipt_key-nil : (r : String) → receipt_key [] r ≡ String.◌∷◌ nul r
receipt_key-nil r =
    nil-append ("\0" ++ r) ∙ cons-append nul [] r ∙ ap (λ s. String.◌∷◌ nul s) (nil-append r)

receipt_key-cons :
    (c : Char) (a r : String) → receipt_key (String.◌∷◌ c a) r ≡ String.◌∷◌ c (receipt_key a r)
receipt_key-cons c a r = cons-append c a ("\0" ++ r)

nul-ne : (c : Char) (b : String) → has_nul (String.◌∷◌ c b) ≡ false → nul ≢ c
nul-ne c b h e =
    ground (arith, (eq_iff (String.◌∷◌ c []) "\0").1 (ap (λ d. String.◌∷◌ d []) (sym e)))

-- Two callers without a NUL in their identifiers have one ledger key only if callers and requests
-- are the same.
pub receipt_key-injective :
    (a b r q : String)
    → has_nul a ≡ false
    → has_nul b ≡ false
    → receipt_key a r ≡ receipt_key b q
    → (a ≡ b) × (r ≡ q)
receipt_key-injective [] [] r q ha hb e = (refl, cc (receipt_key-nil r, receipt_key-nil q))
receipt_key-injective [] (String.◌∷◌ c b) r q ha hb e =
    absurd (nul-ne c b hb (cc (receipt_key-nil r, receipt_key-cons c b q)))
receipt_key-injective (String.◌∷◌ c a) [] r q ha hb e =
    absurd (nul-ne c a ha (cc (receipt_key-nil q, receipt_key-cons c a r)))
receipt_key-injective (String.◌∷◌ c a) (String.◌∷◌ d b) r q ha hb e =
    let k : c ≡ d = cc (receipt_key-cons c a r, receipt_key-cons d b q) in
    let t : receipt_key a r ≡ receipt_key b q =
      cc (receipt_key-cons c a r, receipt_key-cons d b q) in
    let ih : (a ≡ b) × (r ≡ q) = receipt_key-injective a b r q (ground arith) (ground arith) t in
    (cc (k, ih.0), ih.1)

-- A commit of one caller does not change what the ledger answers to another, where neither
-- identifier has a NUL.
pub other_caller :
    (f : Faults) (workspace : String) (req : CommitRequest) (s : FileStore)
    (caller request : String)
    → has_nul req.caller_agent_id ≡ false
    → has_nul caller ≡ false
    → caller ≢ req.caller_agent_id
    → lookup
        (receipt_key caller request)
        (receipts_of (commit f workspace req s).1.files.state_file)
      ≡ lookup (receipt_key caller request) (receipts_of s.files.state_file)
other_caller f workspace req s caller request hr hc ne =
    go (commit f workspace req s).1.files.state_file (commit-Wrote f workspace req s)
  where
    own : String
    own = receipt_key req.caller_agent_id req.request_id

    apart : own ≢ receipt_key caller request
    apart e =
        ne (sym (receipt_key-injective req.caller_agent_id caller req.request_id request hr hc e).0)

    go :
        (after : Disk)
        → Wrote workspace req s.files.state_file after
        → lookup (receipt_key caller request) (receipts_of after)
          ≡ lookup (receipt_key caller request) (receipts_of s.files.state_file)
    go after (nothing e) = rw e
    go after (mutation b state mutated evs read free m e) =
        rw (e, (read_parts b s.files.state_file state read).0)
          (ground (
            arith,
            lookup-put own (receipt_key caller request) (entry_of req mutated evs) state.receipts,
            eq_iff own (receipt_key caller request),
            apart,
          ))
