-- ===== src/Examples/Outputs.antt =====
-- Two outputs of a run.
use harnessing.Prelude.{ℕ, List, [], ◌∷◌, ◌≡◌, ◌≤◌, refl, arith}
use harnessing.Domain.Errors.{ok}
use harnessing.Journal.{
  RunOutput, Line, JournalFile, empty_journal, scanned, too_long, end_offset, append,
  collect_chunks, breaks, read_after,
}
use harnessing.Journal.Reading.{size, read_after-size}
use harnessing.Journal.RoundTrip.{Output, no_fault, chunks_from, append_all, read_after-append_all}

abbrev outputs : List Output
outputs =
    record { channel = "stdout"; bytes = 104 ∷ 105 ∷ []; captured_at = 1 }
    ∷ record { channel = "stderr"; bytes = 33 ∷ []; captured_at = 2 }
    ∷ []

abbrev width : Line → ℕ
width l = 100

abbrev journal : JournalFile
journal = append_all width outputs empty_journal

read_after-append_all_example :
    read_after width no_fault 0 0 journal
    ≡ ok (record { chunks = chunks_from 0 outputs; capture_status = "unknown" })
read_after-append_all_example =
    read_after-append_all width outputs (omega arith) (omega arith, (omega arith, tt))

abbrev first_page : RunOutput
first_page = record {
  chunks = record { offset = 0; channel = "stdout"; bytes = 104 ∷ 105 ∷ []; captured_at = 1 } ∷ [];
  capture_status = "unknown";
}

read_after-size_example : size first_page.chunks ≤ 2
unfolding append_all append end_offset scanned too_long collect_chunks breaks read_after
read_after-size_example = read_after-size width no_fault 0 2 journal first_page (omega arith) refl
