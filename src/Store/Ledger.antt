-- ===== src/Store/Ledger.antt =====
-- The map of receipts, and the key under which one is kept.
use harnessing.Prelude.{
  String, Option, none, some, List, [], ◌∷◌, ◌≡◌, refl, str_eq, eq_iff, arith, if◌then◌else◌,
}
use harnessing.Domain.Records.{Receipt, Event}

pub record ReceiptRecord : Type 0 where
  pub receipt : Receipt
  pub events : List Event
  pub payload_fingerprint : String

abbrev pub Ledger : Type 0
Ledger = List (String × ReceiptRecord)

unfoldable pub lookup : String → Ledger → Option ReceiptRecord
lookup k [] = none
lookup k ((j, r) ∷ l) = if str_eq j k then some r else lookup k l

unfoldable pub put : String → ReceiptRecord → Ledger → Ledger
put k r [] = (k, r) ∷ []
put k r ((j, q) ∷ l) = let rest = put k r l in if str_eq j k then (k, r) ∷ l else (j, q) ∷ rest

pub lookup-put :
    (k j : String) (r : ReceiptRecord) (l : Ledger)
    → lookup j (put k r l) ≡ (if str_eq k j then some r else lookup j l)
unfolding lookup put
lookup-put k j r [] = refl
lookup-put k j r ((i, q) ∷ l) =
    ground (arith, lookup-put k j r l, eq_iff i j, eq_iff i k, eq_iff k j)
