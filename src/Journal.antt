-- ===== src/Journal.antt =====
-- internal/adapters/journal/journal.go: the output of one run, a file of JSON lines, and its status.
-- What stands in the file may come from an interrupted write.
pub mod Reading
pub mod RoundTrip
use harnessing.Prelude.{
  ℕ, ◌+◌, ◌%◌, ◌^◌, String, Bool, true, false, Option, none, some, List, [], ◌∷◌, ◌++◌, ◌≡◌, length,
  ltb, ◌==◌, ◌&&◌, ◌||◌, not, suc, zero, str_eq, if◌then◌else◌,
}
use harnessing.Domain.Errors.{Result, ok, err, other_error}

-- internal/core/domain's OutputChunk, and its byte slices as lists of their bytes.
pub record OutputChunk : Type 0 where
  pub offset : ℕ
  pub channel : String
  pub bytes : List ℕ
  pub captured_at : ℕ

-- internal/core/domain's RunOutput, the run left out.
pub record RunOutput : Type 0 where
  pub chunks : List OutputChunk
  pub capture_status : String

-- A line as json.Unmarshal and base64 find it: an entry, an entry whose data stops being base64 behind
-- some bytes, or no entry.
pub data Line : Type 0 where
  entry : OutputChunk → Line
  undecodable : ℕ → List ℕ → Line
  garbage : Line

-- Whether the file is there, its lines that a newline ends, what stands behind the last one, and the
-- status file.
pub record JournalFile : Type 0 where
  pub created : Bool
  pub lines : List Line
  pub torn : Option Line
  pub status : Option String

abbrev pub empty_journal : JournalFile
empty_journal = record { created = false; lines = []; torn = none; status = none }

-- What fails in one call, and what a write that fails leaves of its line. `read_error` is a read that
-- fails inside the scan: how many lines there are before it, and what line the bytes behind them make
-- that were read, which a bufio.Scanner delivers too.
pub record JournalIo : Type 0 where
  pub cancelled : Bool
  pub open_read : Bool
  pub read_error : Option (ℕ × Line)
  pub open_write : Bool
  pub write : Bool
  pub sync : Bool
  pub close : Bool
  pub read_status : Bool
  pub partial : Option Line

abbrev pub io_error : {A : Type 0} → Result A
io_error = err (other_error "i/o error")

-- Open
unfoldable pub open_journal : Bool → Result (Unit {0})
open_journal mkdir_fails = if mkdir_fails then io_error else ok tt

-- A bufio.Scanner stops at a line of 64 KiB.
abbrev pub max_scan_token_size : ℕ
max_scan_token_size = 65536

module _ (width : Line → ℕ) where
  unfoldable pub scanned : List Line → List Line
  scanned [] = []
  scanned (l ∷ ls) =
      let rest = scanned ls in if ltb (width l) max_scan_token_size then l ∷ rest else []

  unfoldable pub too_long : List Line → Bool
  too_long [] = false
  too_long (l ∷ ls) =
      let rest = too_long ls in if ltb (width l) max_scan_token_size then rest else true

abbrev pub all_lines : JournalFile → List Line
all_lines f = elim f.torn [ none ↦ f.lines | some l ↦ f.lines ++ l ∷ [] ]

abbrev take : ℕ → List Line → List Line
take zero ls = []
take (suc n) [] = []
take (suc n) (l ∷ ls) = l ∷ take n ls

-- The lines of the file up to a read that fails.
abbrev pub delivered : Option (ℕ × Line) → JournalFile → List Line
delivered none f = all_lines f
delivered (some (n, l)) f = if f.created then take n (all_lines f) ++ l ∷ [] else all_lines f

abbrev pub is_cut : Option (ℕ × Line) → Bool
is_cut none = false
is_cut (some at) = true

-- The loop of Append: where the last entry ends, in uint64.
unfoldable pub end_offset : ℕ → List Line → ℕ
end_offset n [] = n
end_offset n (entry c ∷ ls) = end_offset ((c.offset + length c.bytes) % 2 ^ 64) ls
end_offset n (undecodable offset bytes ∷ ls) = end_offset ((offset + length bytes) % 2 ^ 64) ls
end_offset n (garbage ∷ ls) = end_offset n ls

-- A line behind an unfinished one makes one line with it, which is no entry.
abbrev pub joined : Option Line → Line → Line
joined none l = l
joined (some t) l = garbage

abbrev left_over : Option Line → Option Line → Option Line
left_over torn none = torn
left_over none (some l) = some l
left_over (some t) (some l) = some garbage

abbrev pub with_line : Line → JournalFile → JournalFile
with_line l f = record f { created = true; lines = f.lines ++ joined f.torn l ∷ []; torn = none }

-- The status file that Finish writes, `""` being Interrupted and no CaptureStatus Unknown.
abbrev pub capture_status : Option String → String
capture_status none = "unknown"
capture_status (some s) = if str_eq s "" then "interrupted" else s

-- Finish, whose write may fail behind the truncation.
unfoldable pub finish : JournalIo → Option String → JournalFile → Result (Unit {0}) × JournalFile
finish io outcome f =
    if io.cancelled
    then (io_error, f)
    else if io.open_write
    then (io_error, f)
    else if io.write
    then (io_error, record f { status = some "" })
    else if io.sync
    then (io_error, record f { status = some (capture_status outcome) })
    else if io.close
    then (io_error, record f { status = some (capture_status outcome) })
    else (ok tt, record f { status = some (capture_status outcome) })

-- The loop of ReadAfter; a `limit` of 0 is none.
unfoldable pub collect_chunks : ℕ → ℕ → ℕ → List Line → List OutputChunk
collect_chunks after limit used [] = []
collect_chunks after limit used (entry c ∷ ls) =
    let skipped = collect_chunks after limit used ls in
    let rest = collect_chunks after limit (used + length c.bytes) ls in
    if ltb c.offset after
    then skipped
    else if ltb 0 limit && ltb limit (used + length c.bytes)
    then []
    else c ∷ rest
collect_chunks after limit used (_ ∷ ls) = collect_chunks after limit used ls

-- Whether that loop stops at the limit.
unfoldable pub breaks : ℕ → ℕ → ℕ → List Line → Bool
breaks after limit used [] = false
breaks after limit used (entry c ∷ ls) =
    let skipped = breaks after limit used ls in
    let rest = breaks after limit (used + length c.bytes) ls in
    if ltb c.offset after
    then skipped
    else if ltb 0 limit && ltb limit (used + length c.bytes)
    then true
    else rest
breaks after limit used (_ ∷ ls) = breaks after limit used ls

abbrev status_of : JournalIo → JournalFile → String
status_of io f = elim f.status [
  | none ↦ "unknown"
  | some s ↦ if io.read_status then "unknown" else s
]

module _ (width : Line → ℕ) where
  abbrev pub next_chunk : JournalIo → String → List ℕ → ℕ → JournalFile → OutputChunk
  next_chunk io channel bytes captured_at f = record {
    offset = end_offset 0 (scanned width (delivered io.read_error f));
    channel = channel;
    bytes = bytes;
    captured_at = captured_at;
  }

  -- Append, which does not ask why the scanner stopped.
  unfoldable pub append : JournalIo → String → List ℕ → ℕ → JournalFile → Result ℕ × JournalFile
  append io channel bytes captured_at f =
      let c = next_chunk io channel bytes captured_at f in
      if io.cancelled
      then (io_error, f)
      else if io.open_read
      then (io_error, f)
      else if io.open_write
      then (io_error, f)
      else if io.write
      then (io_error, record f { created = true; torn = left_over f.torn io.partial })
      else if io.sync
      then (io_error, with_line (entry c) f)
      else if io.close
      then (io_error, with_line (entry c) f)
      else (ok c.offset, with_line (entry c) f)

  -- ReadAfter
  unfoldable pub read_after : JournalIo → ℕ → ℕ → JournalFile → Result RunOutput
  read_after io after limit f =
      let there = delivered io.read_error f in
      let lines = scanned width there in
      if io.cancelled
      then io_error
      else if not f.created
      then ok (record { chunks = []; capture_status = "unknown" })
      else if io.open_read
      then io_error
      else if (too_long width there || is_cut io.read_error) && not (breaks after limit 0 lines)
      then io_error
      else ok
          (record { chunks = collect_chunks after limit 0 lines; capture_status = status_of io f })
