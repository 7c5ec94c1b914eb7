-- ===== src/Text/Fingerprint.antt =====
-- fingerprint of internal/core/task/engine.go: fmt.Sprintf("%v", parts) over the parts that the
-- commands pass. fmt prints a slice as its entries between brackets with blanks between them, a
-- struct so between braces, and a pointer inside a slice as its address, not as what it points to.
use Prim.Native.Char.{Char}
use Prim.Native.String.{◌++◌}
use Prim.Native.String
use text.Mathlib.TextLemmas.{append_assoc}
use harnessing.Prelude.{
  ℕ, zero, suc, ◌/◌, ◌%◌, Bool, true, false, Option, none, some, List, [], ◌∷◌, map, ◌≡◌, ltb,
  if◌then◌else◌,
}
use harnessing.Domain.Records.{
  TaskStatus, todo, doing, blocked, awaiting_review, done, other_status, MessageKind, request,
  inform, result, other_kind, ExecutionSpec,
}
use harnessing.Api.{Pointer}
use harnessing.Text.Decimal.{format_uint, digit}

pub data Part : Type 0 where
  str : String.String → Part
  num : ℕ → Part
  flag : Bool → Part
  texts : List String.String → Part
  pointer : Option Pointer → Part
  struct : ExecutionSpec → Part

abbrev pub status_text : TaskStatus → String.String
status_text todo = "Todo"
status_text doing = "Doing"
status_text blocked = "Blocked"
status_text awaiting_review = "AwaitingReview"
status_text done = "Done"
status_text (other_status s) = s

abbrev pub kind_text : MessageKind → String.String
kind_text request = "Request"
kind_text inform = "Inform"
kind_text result = "Result"
kind_text (other_kind s) = s

join : List String.String → String.String
join [] = ""
join (s ∷ []) = s
join (s ∷ t ∷ ts) = s ++ (" " ++ join (t ∷ ts))

bracketed : List String.String → String.String
bracketed ts = "[" ++ (join ts ++ "]")

abbrev hex_digit : ℕ → Char
hex_digit (suc (suc (suc (suc (suc (suc (suc (suc (suc (suc zero)))))))))) = "a"
hex_digit (suc (suc (suc (suc (suc (suc (suc (suc (suc (suc (suc zero))))))))))) = "b"
hex_digit (suc (suc (suc (suc (suc (suc (suc (suc (suc (suc (suc (suc zero)))))))))))) = "c"
hex_digit (suc (suc (suc (suc (suc (suc (suc (suc (suc (suc (suc (suc (suc zero))))))))))))) = "d"
hex_digit (suc (suc (suc (suc (suc (suc (suc (suc (suc (suc (suc (suc (suc (suc zero)))))))))))))) =
    "e"
hex_digit
      (suc
        (suc (suc (suc (suc (suc (suc (suc (suc (suc (suc (suc (suc (suc (suc zero))))))))))))))) =
    "f"
hex_digit n = digit n

-- Sixteen digits hold every address.
hex_digits : ℕ → ℕ → String.String → String.String
hex_digits zero n out = out
hex_digits (suc k) n out =
    let rest = hex_digits k (n / 16) (String.◌∷◌ (hex_digit (n % 16)) out) in
    if ltb n 16 then String.◌∷◌ (hex_digit n) out else rest

render : Part → String.String
unfolding join bracketed hex_digits
render (str s) = s
render (num n) = format_uint n
render (flag true) = "true"
render (flag false) = "false"
render (texts ts) = bracketed ts
render (pointer none) = "<nil>"
render (pointer (some p)) = "0x" ++ hex_digits 16 p.address ""
render (struct s) =
    "{"
    ++ (join (
          s.profile_id
          ∷ bracketed s.args
          ∷ s.working_directory
          ∷ bracketed s.environment_refs
          ∷ s.context_transport
          ∷ [])
        ++ "}")

unfoldable pub fingerprint : List Part → String.String
unfolding render format_uint
fingerprint parts = bracketed (map render parts)

-- The fingerprint of four texts does not tell where a blank inside the third ends it: the words
-- behind the blank may as well stand at the front of the fourth.
pub fingerprint-blank :
    (k i s t u : String.String)
    → fingerprint (str k ∷ str i ∷ str (s ++ (" " ++ t)) ∷ str u ∷ [])
      ≡ fingerprint (str k ∷ str i ∷ str s ∷ str (t ++ (" " ++ u)) ∷ [])
unfolding fingerprint
fingerprint-blank k i s t u = simp append_assoc
